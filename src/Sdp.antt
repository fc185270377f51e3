-- ===== src/Sdp.antt =====
-- `Sdp` of module05_signaling/src/sdp.cpp and include/sig/sdp.h: session descriptions written and read by
-- lines. Of the standard library, `getline`, `>>` and `stoi` are read in the "C" locale. A stream is what
-- is left of its text, and nothing after the end or a failure, when every further `>>` fails.
pub mod Lines
pub mod Digits
pub mod Numbers
pub mod Media
pub mod Attributes
pub mod RoundTrip
mod Examples
use cpp_meet.Common.{
  ℕ, zero, suc, ◌+◌, ◌-◌, ◌%◌, ◌^◌, Bool, true, false, List, [], ◌∷◌, ◌++◌, ◌==◌, ltb, leb,
  if◌then◌else◌, length, take, drop, Option, none, some,
}
use cpp_meet.Common.Decimal.{decimal, int_text, is_space, read_number, skip_spaces}
use cpp_meet.Common.Text.{codes, find, starts_with}
use cpp_meet.Wire.{Bytes}

pub record SdpMedia : Type 0 where
  pub type : Bytes
  pub port : ℕ
  pub proto : Bytes
  pub fmts : List ℕ
  pub fingerprint : Bytes
  pub ice_ufrag : Bytes
  pub ice_pwd : Bytes
  pub candidate : Bytes
  pub rtpmap : List (ℕ × Bytes)

pub record Sdp : Type 0 where
  pub version : Bytes
  pub origin : Bytes
  pub session_name : Bytes
  pub media : List SdpMedia

abbrev pub new_sdp : Sdp
new_sdp = record { version = codes "0"; origin = []; session_name = codes "-"; media = [] }

-- A line, in front of the rest of the text.
abbrev pub put : Bytes → Bytes → Bytes
put line rest = line ++ (13 ∷ 10 ∷ rest)

unfoldable pub put_attribute : Bytes → Bytes → Bytes → Bytes
put_attribute name [] rest = rest
put_attribute name (c ∷ cs) rest = put (name ++ (c ∷ cs)) rest

unfoldable pub fmts_text : List ℕ → Bytes
fmts_text [] = []
fmts_text (pt ∷ pts) = 32 ∷ (int_text pt ++ fmts_text pts)

unfoldable pub rtpmap_text : List (ℕ × Bytes) → Bytes → Bytes
rtpmap_text [] rest = rest
rtpmap_text ((pt, codec) ∷ entries) rest =
    put (codes "a=rtpmap:" ++ (int_text pt ++ (32 ∷ codec))) (rtpmap_text entries rest)

unfoldable pub media_value : SdpMedia → Bytes
media_value m = m.type ++ (32 ∷ (decimal m.port ++ (32 ∷ (m.proto ++ fmts_text m.fmts))))

-- The lines of one medium.
unfoldable pub medium_text : SdpMedia → Bytes → Bytes
medium_text m rest = put (codes "m=" ++ media_value m) (
    put_attribute (codes "a=ice-ufrag:") m.ice_ufrag (
      put_attribute (codes "a=ice-pwd:") m.ice_pwd (
        put_attribute (codes "a=fingerprint:") m.fingerprint
          (put_attribute (codes "a=candidate:") m.candidate (rtpmap_text m.rtpmap rest)))))

unfoldable pub media_text : List SdpMedia → Bytes
media_text [] = []
media_text (m ∷ ms) = medium_text m (media_text ms)

unfoldable pub serialize : Sdp → Bytes
serialize s = put (codes "v=" ++ s.version) (
    put (codes "o=" ++ s.origin)
      (put (codes "s=" ++ s.session_name) (put (codes "t=0 0") (media_text s.media))))

-- What `getline` gives, until it gives nothing more.
abbrev pub cons_line : ℕ → List Bytes → List Bytes
cons_line c [] = (c ∷ []) ∷ []
cons_line c (l ∷ ls) = (c ∷ l) ∷ ls

unfoldable pub lines : Bytes → List Bytes
lines [] = []
lines (c ∷ cs) = let later = lines cs in if c == 10 then [] ∷ later else cons_line c later

-- The line without a carriage return at its end.
unfoldable pub chomp : Bytes → Bytes
chomp [] = []
chomp (c ∷ []) = if c == 13 then [] else c ∷ []
chomp (c ∷ d ∷ cs) = c ∷ chomp (d ∷ cs)

-- The stream behind a value: at its end it fails from now on.
abbrev pub left : Bytes → Option Bytes
left [] = none
left (c ∷ cs) = some (c ∷ cs)

unfoldable pub word : Bytes → Bytes × Bytes
word [] = ([], [])
word (c ∷ cs) =
    let (front, rest) = word cs in if is_space c then ([], c ∷ cs) else (c ∷ front, rest)

-- `>>` into an empty string.
unfoldable pub read_word : Option Bytes → Bytes × Option Bytes
read_word none = ([], none)
read_word (some text) = let (front, rest) = word (skip_spaces text) in (front, left rest)

-- `>>` into a `uint16_t` that is 0.
unfoldable pub port_of : Option (Bool × (ℕ × Bytes)) → ℕ × Option Bytes
port_of none = (0, none)
port_of (some (negative, (magnitude, rest))) =
    if ltb 65535 magnitude
    then (65535, none)
    else (if negative then (2 ^ 16 - magnitude) % 2 ^ 16 else magnitude, left rest)

unfoldable pub read_port : Option Bytes → ℕ × Option Bytes
read_port none = (0, none)
read_port (some text) = port_of (read_number (skip_spaces text))

-- `>>` into an `int`, if it does not fail.
unfoldable pub int_of : Option (Bool × (ℕ × Bytes)) → Option (ℕ × Option Bytes)
int_of none = none
int_of (some (negative, (magnitude, rest))) =
    if negative
    then (if ltb (2 ^ 31) magnitude then none else some ((2 ^ 32 - magnitude) % 2 ^ 32, left rest))
    else if leb (2 ^ 31) magnitude
    then none
    else some (magnitude, left rest)

unfoldable pub read_int : Option Bytes → Option (ℕ × Option Bytes)
read_int none = none
read_int (some text) = int_of (read_number (skip_spaces text))

-- `while (ms >> pt)`: a number takes a byte at least, so that the length of the text is fuel enough.
unfoldable pub read_fmts : ℕ → Option Bytes → List ℕ
read_fmts zero stream = []
read_fmts (suc fuel) stream = elim (read_int stream) [
  | none ↦ []
  | some (pt, rest) ↦ pt ∷ read_fmts fuel rest
]

-- An `m=` line.
unfoldable pub read_media : Bytes → SdpMedia
read_media value =
    let (type, behind_type) = read_word (some value) in
    let (port, behind_port) = read_port behind_type in
    let (proto, behind_proto) = read_word behind_port in
    record {
      type = type;
      port = port;
      proto = proto;
      fmts = read_fmts (length value) behind_proto;
      fingerprint = [];
      ice_ufrag = [];
      ice_pwd = [];
      candidate = [];
      rtpmap = [];
    }

-- `stoi`, which throws where this is `none`; it reads like `>>`.
unfoldable pub stoi : Bytes → Option ℕ
stoi text = elim (read_int (some text)) [ none ↦ none | some (v, rest) ↦ some v ]

unfoldable pub add_rtpmap : SdpMedia → Bytes → Option ℕ → Option SdpMedia
add_rtpmap m codec none = none
add_rtpmap m codec (some pt) = some (record m { rtpmap = m.rtpmap ++ ((pt, codec) ∷ []) })

unfoldable pub read_rtpmap : SdpMedia → Bytes → Option ℕ → Option SdpMedia
read_rtpmap m rest none = some m
read_rtpmap m rest (some sp) = add_rtpmap m (drop (sp + 1) rest) (stoi (take sp rest))

-- An `a=` line behind an `m=` line; `none` is an exception.
unfoldable pub read_attribute : Bytes → SdpMedia → Option SdpMedia
read_attribute value m =
    if starts_with (codes "rtpmap:") value
    then read_rtpmap m (drop 7 value) (find (32 ∷ []) (drop 7 value) 0)
    else if starts_with (codes "fingerprint:") value
    then some (record m { fingerprint = drop 12 value })
    else if starts_with (codes "ice-ufrag:") value
    then some (record m { ice_ufrag = drop 10 value })
    else if starts_with (codes "ice-pwd:") value
    then some (record m { ice_pwd = drop 8 value })
    else if starts_with (codes "candidate:") value
    then some (if ltb 0 (length m.candidate) then m else record m { candidate = drop 10 value })
    else some m

-- `cur_media` is the last one, and null where there is none.
unfoldable pub cur_media : (SdpMedia → Option SdpMedia) → List SdpMedia → Option (List SdpMedia)
cur_media f [] = some []
cur_media f (m ∷ []) = elim (f m) [ none ↦ none | some n ↦ some (n ∷ []) ]
cur_media f (m ∷ n ∷ ms) = elim (cur_media f (n ∷ ms)) [
  | none ↦ none
  | some later ↦ some (m ∷ later)
]

abbrev pub with_media : Sdp → Option (List SdpMedia) → Option Sdp
with_media s none = none
with_media s (some ms) = some (record s { media = ms })

unfoldable pub read_field : ℕ → Bytes → Sdp → Option Sdp
read_field c value s =
    if c == b'v'
    then some (record s { version = value })
    else if c == b'o'
    then some (record s { origin = value })
    else if c == b's'
    then some (record s { session_name = value })
    else if c == b'm'
    then some (record s { media = s.media ++ (read_media value ∷ []) })
    else if c == b'a'
    then with_media s (cur_media (read_attribute value) s.media)
    else some s

unfoldable pub read_line : Bytes → Sdp → Option Sdp
read_line [] s = some s
read_line (c ∷ []) s = some s
read_line (c ∷ d ∷ value) s = if d == b'=' then read_field c value s else some s

unfoldable pub read_lines : List Bytes → Sdp → Option Sdp
read_lines [] s = some s
read_lines (l ∷ ls) s = elim (read_line (chomp l) s) [ none ↦ none | some t ↦ read_lines ls t ]

-- The result is an `Sdp` always; `none` is an exception of `stoi`.
unfoldable pub parse : Bytes → Option Sdp
parse text = read_lines (lines text) new_sdp
