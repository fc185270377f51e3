-- ===== src/Sdp/Media.antt =====
-- The lines of one medium: its `m=` line and its attributes, read back.
use cpp_meet.Common.{
  ℕ, zero, suc, ◌^◌, ◌≤◌, ◌<◌, ◌≡◌, ◌≢◌, refl, ap, ap₂, ◌∙◌, true, false, List, [], ◌∷◌, ◌++◌,
  arith, if◌then◌else◌, length, Option, none, some, All, length-append,
}
use cpp_meet.Common.Decimal.{decimal, int_text, is_digit, is_space, skip_spaces}
use cpp_meet.Wire.{Bytes}
use cpp_meet.Sdp.{
  SdpMedia, fmts_text, left, media_value, read_fmts, read_int, read_media, read_port, read_word,
  word,
}
use cpp_meet.Sdp.Digits.{IsBreak}
use cpp_meet.Sdp.Numbers.{read_int-int_text, read_port-decimal}

-- A word: a text that `>>` takes as a whole.
abbrev pub IsWord : Bytes → Type 0
IsWord w = (w ≢ []) × All (λ c. is_space c ≡ false) w

-- A text that does not go on with a byte of a word.
abbrev IsSpaced : Bytes → Type 0
IsSpaced [] = Unit {0}
IsSpaced (c ∷ cs) = is_space c ≡ true

word-append :
    (w rest : Bytes)
    → All (λ c. is_space c ≡ false) w
    → IsSpaced rest
    → word (w ++ rest) ≡ (w, rest)
unfolding word
word-append [] [] h b = refl
word-append [] (c ∷ cs) h b = ap (λ t. if t then ([], c ∷ cs) else (c ∷ (word cs).0, (word cs).1)) b
word-append (c ∷ w) rest (d, h) b =
    ap₂ (λ t u. if t then ([], c ∷ (w ++ rest)) else (c ∷ u.0, u.1)) d (word-append w rest h b)

skip_word : (w rest : Bytes) → IsWord w → skip_spaces (w ++ rest) ≡ w ++ rest
unfolding skip_spaces
skip_word [] rest (n, h) = absurd (n refl)
skip_word (c ∷ w) rest (n, (d, h)) =
    ap (λ t. if t then skip_spaces (w ++ rest) else c ∷ (w ++ rest)) d

skip_blank_word : (w rest : Bytes) → IsWord w → skip_spaces (32 ∷ (w ++ rest)) ≡ w ++ rest
unfolding skip_spaces is_space
skip_blank_word w rest h = skip_word w rest h

read_word-append :
    (w rest : Bytes) → IsWord w → IsSpaced rest → read_word (some (w ++ rest)) ≡ (w, left rest)
unfolding read_word
read_word-append w rest (n, h) b =
    ap (λ t. ((word t).0, left (word t).1)) (skip_word w rest (n, h))
    ∙ ap (λ t. (t.0, left t.1)) (word-append w rest h b)

read_blank_word :
    (w rest : Bytes)
    → IsWord w
    → IsSpaced rest
    → read_word (some (32 ∷ (w ++ rest))) ≡ (w, left rest)
unfolding read_word
read_blank_word w rest (n, h) b =
    ap (λ t. ((word t).0, left (word t).1)) (skip_blank_word w rest (n, h))
    ∙ ap (λ t. (t.0, left t.1)) (word-append w rest h b)

fmts-IsBreak : (pts : List ℕ) → IsBreak (fmts_text pts)
unfolding fmts_text is_digit
fmts-IsBreak [] = tt
fmts-IsBreak (pt ∷ pts) = refl

fmts-IsSpaced : (pts : List ℕ) → IsSpaced (fmts_text pts)
unfolding fmts_text is_space
fmts-IsSpaced [] = tt
fmts-IsSpaced (pt ∷ pts) = refl

-- The payload types come back where the fuel is enough for them.
read_fmts-fmts_text :
    (fuel : ℕ) (pts : List ℕ)
    → length pts ≤ fuel
    → All (λ pt. pt < 2 ^ 32) pts
    → read_fmts fuel (left (fmts_text pts)) ≡ pts
unfolding read_fmts fmts_text read_int
read_fmts-fmts_text zero [] h w = refl
read_fmts-fmts_text zero (pt ∷ pts) h w = absurd (omega arith)
read_fmts-fmts_text (suc fuel) [] h w = refl
read_fmts-fmts_text (suc fuel) (pt ∷ pts) h (w, ws) =
    ap (λ o. elim o [ none ↦ [] | some (v, rest) ↦ v ∷ read_fmts fuel rest ])
      (read_int-int_text pt (fmts_text pts) w (fmts-IsBreak pts))
    ∙ ap (λ t. pt ∷ t) (read_fmts-fmts_text fuel pts (omega arith) ws)

length-fmts_text : (pts : List ℕ) → length pts ≤ length (fmts_text pts)
unfolding fmts_text
length-fmts_text [] = omega arith
length-fmts_text (pt ∷ pts) =
    omega (arith, length-append (int_text pt) (fmts_text pts), length-fmts_text pts)

-- What `m=` says of a medium.
abbrev pub bare : SdpMedia → SdpMedia
bare m = record m { fingerprint = []; ice_ufrag = []; ice_pwd = []; candidate = []; rtpmap = [] }

length-media_value : (m : SdpMedia) → length m.fmts ≤ length (media_value m)
unfolding media_value
length-media_value m =
    let a = length-append m.type (32 ∷ (decimal m.port ++ (32 ∷ (m.proto ++ fmts_text m.fmts)))) in
    let b = length-append (decimal m.port) (32 ∷ (m.proto ++ fmts_text m.fmts)) in
    let c = length-append m.proto (fmts_text m.fmts) in
    let d = length-fmts_text m.fmts in omega arith

-- `read_media` behind its three values, one after the other.
abbrev with_proto : ℕ → Bytes → ℕ → Bytes × Option Bytes → SdpMedia
with_proto fuel type port (proto, rest) = record {
  type = type;
  port = port;
  proto = proto;
  fmts = read_fmts fuel rest;
  fingerprint = [];
  ice_ufrag = [];
  ice_pwd = [];
  candidate = [];
  rtpmap = [];
}

abbrev with_port : ℕ → Bytes → ℕ × Option Bytes → SdpMedia
with_port fuel type (port, rest) = with_proto fuel type port (read_word rest)

abbrev with_type : ℕ → Bytes × Option Bytes → SdpMedia
with_type fuel (type, rest) = with_port fuel type (read_port rest)

pub read_media-media_value :
    (m : SdpMedia)
    → IsWord m.type
    → IsWord m.proto
    → m.port < 2 ^ 16
    → All (λ pt. pt < 2 ^ 32) m.fmts
    → read_media (media_value m) ≡ bare m
unfolding read_media media_value is_space is_digit
read_media-media_value m t p port fmts =
    let fuel = length (media_value m) in
    let behind_port = 32 ∷ (m.proto ++ fmts_text m.fmts) in
    ap (with_type fuel) (read_word-append m.type (32 ∷ (decimal m.port ++ behind_port)) t refl)
    ∙ ap (with_port fuel m.type) (read_port-decimal m.port behind_port port refl)
    ∙ ap (with_proto fuel m.type m.port)
        (read_blank_word m.proto (fmts_text m.fmts) p (fmts-IsSpaced m.fmts))
    ∙ ap
        (λ pts. record m {
          fmts = pts;
          fingerprint = [];
          ice_ufrag = [];
          ice_pwd = [];
          candidate = [];
          rtpmap = [];
        })
        (read_fmts-fmts_text fuel m.fmts (length-media_value m) fmts)
