-- ===== src/Sdp/Attributes.antt =====
-- The attributes of a medium, read back.
use cpp_meet.Common.{
  ℕ, suc, ◌+◌, ◌^◌, ◌<◌, ◌≡◌, ◌≢◌, refl, ap, ap₂, sym, ◌∙◌, true, false, List, [], ◌∷◌, ◌++◌, ◌==◌,
  arith, ◌&&◌, if◌then◌else◌, length, drop, Option, none, some, All, All-append, append_assoc,
  append-nil, length-append, take-append, drop-append,
}
use cpp_meet.Common.Decimal.{int_text}
use cpp_meet.Common.Text.{codes, search, starts_with}
use cpp_meet.Wire.{Bytes}
use cpp_meet.Sdp.{
  Sdp, SdpMedia, add_rtpmap, cur_media, put, put_attribute, read_attribute, read_field, read_line,
  read_rtpmap, rtpmap_text, stoi, with_media,
}
use cpp_meet.Sdp.Numbers.{int_text-IsFree, stoi-int_text}
use cpp_meet.Sdp.Lines.{IsFree, lacks, lacks-IsFree, read, read-put}

-- The last medium, in front of which the others stand.
abbrev append_last : List SdpMedia → Option SdpMedia → Option (List SdpMedia)
append_last ms none = none
append_last ms (some y) = some (ms ++ (y ∷ []))

abbrev cons_media : SdpMedia → Option (List SdpMedia) → Option (List SdpMedia)
cons_media m none = none
cons_media m (some ms) = some (m ∷ ms)

cons_media-append_last :
    (m : SdpMedia) (ms : List SdpMedia) (o : Option SdpMedia)
    → cons_media m (append_last ms o) ≡ append_last (m ∷ ms) o
cons_media-append_last m ms none = refl
cons_media-append_last m ms (some y) = refl

cur_media-append :
    (f : SdpMedia → Option SdpMedia) (m : SdpMedia) (ms : List SdpMedia) (x : SdpMedia)
    → cur_media f (m ∷ (ms ++ (x ∷ []))) ≡ cons_media m (cur_media f (ms ++ (x ∷ [])))
unfolding cur_media
cur_media-append f m [] x = refl
cur_media-append f m (n ∷ ms) x = refl

cur_media-last :
    (f : SdpMedia → Option SdpMedia) (ms : List SdpMedia) (x : SdpMedia)
    → cur_media f (ms ++ (x ∷ [])) ≡ append_last ms (f x)
unfolding cur_media
cur_media-last f [] x = refl
cur_media-last f (m ∷ ms) x =
    cur_media-append f m ms x
    ∙ ap (cons_media m) (cur_media-last f ms x)
    ∙ cons_media-append_last m ms (f x)

-- A description whose last medium is the current one.
abbrev pub at : Sdp → List SdpMedia → SdpMedia → Sdp
at s ms x = record s { media = ms ++ (x ∷ []) }

abbrev pub set_last : Sdp → List SdpMedia → Option SdpMedia → Option Sdp
set_last s ms none = none
set_last s ms (some y) = some (at s ms y)

with_media-append_last :
    (s : Sdp) (ms : List SdpMedia) (x : SdpMedia) (o : Option SdpMedia)
    → with_media (at s ms x) (append_last ms o) ≡ set_last s ms o
with_media-append_last s ms x none = refl
with_media-append_last s ms x (some y) = refl

pub read_line_attribute :
    (value : Bytes) (s : Sdp) (ms : List SdpMedia) (x : SdpMedia)
    → read_line (codes "a=" ++ value) (at s ms x) ≡ set_last s ms (read_attribute value x)
unfolding read_line read_field
read_line_attribute value s ms x =
    ap (with_media (at s ms x)) (cur_media-last (read_attribute value) ms x)
    ∙ with_media-append_last s ms x (read_attribute value x)

pub IsFree-append :
    (c : ℕ) (name value : Bytes) → lacks c name ≡ true → IsFree c value → IsFree c (name ++ value)
IsFree-append c name value h v = All-append (λ b. b ≢ c) name value (lacks-IsFree c name h) v

read_attribute_line :
    (value rest : Bytes) (s : Sdp) (ms : List SdpMedia) (x y : SdpMedia)
    → IsFree 10 value
    → read_attribute value x ≡ some y
    → read (put (codes "a=" ++ value) rest) (at s ms x) ≡ read rest (at s ms y)
read_attribute_line value rest s ms x y h e =
    read-put (codes "a=" ++ value) rest (at s ms x) (at s ms y)
      (IsFree-append 10 (codes "a=") value refl h)
      (read_line_attribute value s ms x ∙ ap (set_last s ms) e)

-- An attribute that is written where it is not empty, read into a field that is empty before.
pub read-put_attribute :
    (name value rest : Bytes) (s : Sdp) (ms : List SdpMedia) (field : Bytes → SdpMedia)
    → lacks 10 name ≡ true
    → IsFree 10 value
    → ((v : Bytes) → read_attribute (name ++ v) (field []) ≡ some (field v))
    → read (put_attribute (codes "a=" ++ name) value rest) (at s ms (field []))
      ≡ read rest (at s ms (field value))
unfolding put_attribute
read-put_attribute name [] rest s ms field n h e = refl
read-put_attribute name (c ∷ cs) rest s ms field n h e =
    read_attribute_line (name ++ (c ∷ cs)) rest s ms (field []) (field (c ∷ cs))
      (IsFree-append 10 name (c ∷ cs) n h) (e (c ∷ cs))

pub read_ufrag :
    (m : SdpMedia) (v : Bytes)
    → read_attribute (codes "ice-ufrag:" ++ v) m ≡ some (record m { ice_ufrag = v })
unfolding read_attribute starts_with
read_ufrag m v = refl

pub read_pwd :
    (m : SdpMedia) (v : Bytes)
    → read_attribute (codes "ice-pwd:" ++ v) m ≡ some (record m { ice_pwd = v })
unfolding read_attribute starts_with
read_pwd m v = refl

pub read_fingerprint :
    (m : SdpMedia) (v : Bytes)
    → read_attribute (codes "fingerprint:" ++ v) m ≡ some (record m { fingerprint = v })
unfolding read_attribute starts_with
read_fingerprint m v = refl

pub read_candidate :
    (m : SdpMedia) (v : Bytes)
    → read_attribute (codes "candidate:" ++ v) (record m { candidate = [] })
      ≡ some (record m { candidate = v })
unfolding read_attribute starts_with
read_candidate m v = refl

-- A space behind a text without one is found at its end.
search-append :
    (i : ℕ) (w rest : Bytes)
    → IsFree 32 w
    → search (32 ∷ []) i (w ++ (32 ∷ rest)) ≡ some (length w + i)
unfolding search starts_with
search-append i [] rest h = ap some (omega arith)
search-append i (c ∷ w) rest (d, h) =
    ap (λ b. if b then some i else search (32 ∷ []) (suc i) (w ++ (32 ∷ rest))) (blank c d)
    ∙ search-append (suc i) w rest h
    ∙ ap some (omega arith)
  where
    blank : (c : ℕ) → c ≢ 32 → ((32 == c) && true) ≡ false
    blank c d = ground arith

pub read_attribute_rtpmap :
    (m : SdpMedia) (w codec : Bytes)
    → IsFree 32 w
    → read_attribute (codes "rtpmap:" ++ (w ++ (32 ∷ codec))) m ≡ add_rtpmap m codec (stoi w)
unfolding read_attribute starts_with read_rtpmap
read_attribute_rtpmap m w codec h =
    ap (read_rtpmap m (w ++ (32 ∷ codec))) (search-append 0 w codec h)
    ∙ ap₂ (λ t u. add_rtpmap m t (stoi u))
        (ap (λ t. drop t (w ++ (32 ∷ codec))) (omega arith)
          ∙ ap (drop (length w + 1)) (sym (append_assoc w (32 ∷ []) codec))
          ∙ drop-append (w ++ (32 ∷ [])) codec (length w + 1) (sym (length-append w (32 ∷ []))))
        (take-append w (32 ∷ codec) (length w + 0) (omega arith))

-- The entries come back behind those that are there.
pub read-rtpmap_text :
    (entries done : List (ℕ × Bytes)) (rest : Bytes) (s : Sdp) (ms : List SdpMedia) (x : SdpMedia)
    → All (λ e. (e.0 < 2 ^ 32) × IsFree 10 e.1) entries
    → read (rtpmap_text entries rest) (at s ms (record x { rtpmap = done }))
      ≡ read rest (at s ms (record x { rtpmap = done ++ entries }))
unfolding rtpmap_text add_rtpmap
read-rtpmap_text [] done rest s ms x h =
    ap (λ t. read rest (at s ms (record x { rtpmap = t }))) (sym (append-nil done))
read-rtpmap_text ((pt, codec) ∷ entries) done rest s ms x ((w, c), hs) =
    read_attribute_line (codes "rtpmap:" ++ (int_text pt ++ (32 ∷ codec)))
      (rtpmap_text entries rest) s ms (record x { rtpmap = done })
      (record x { rtpmap = done ++ ((pt, codec) ∷ []) })
      (IsFree-append 10 (codes "rtpmap:") (int_text pt ++ (32 ∷ codec)) refl (
        All-append (λ b. b ≢ 10) (int_text pt) (32 ∷ codec) (int_text-IsFree 10 pt (omega arith))
          ((λ e. omega arith), c)))
      (read_attribute_rtpmap (record x { rtpmap = done }) (int_text pt) codec
          (int_text-IsFree 32 pt (omega arith))
        ∙ ap (add_rtpmap (record x { rtpmap = done }) codec) (stoi-int_text pt w))
    ∙ read-rtpmap_text entries (done ++ ((pt, codec) ∷ [])) rest s ms x hs
    ∙ ap (λ t. read rest (at s ms (record x { rtpmap = t })))
        (append_assoc done ((pt, codec) ∷ []) entries)
