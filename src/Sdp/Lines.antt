-- ===== src/Sdp/Lines.antt =====
-- Lines, written with `\r\n` at their end and read with `getline`.
use cpp_meet.Common.{
  ℕ, ◌≡◌, ◌≢◌, refl, ap, ap₂, sym, ◌∙◌, Bool, true, false, [], ◌∷◌, ◌++◌, ◌==◌, arith,
  if◌then◌else◌, if_elim, Option, none, some, All, append_assoc,
}
use cpp_meet.Wire.{Bytes}
use cpp_meet.Sdp.{Sdp, chomp, cons_line, lines, put, read_line, read_lines}

-- A byte is nowhere in the text.
abbrev pub IsFree : ℕ → Bytes → Type 0
IsFree c text = All (λ b. b ≢ c) text

other_byte : (b c : ℕ) → b ≢ c → (b == c) ≡ false
other_byte b c h = ground arith

lines-line : (l rest : Bytes) → IsFree 10 l → lines (l ++ (10 ∷ rest)) ≡ l ∷ lines rest
unfolding lines
lines-line [] rest h = refl
lines-line (c ∷ cs) rest (d, h) =
    ap₂ (λ t u. if t then [] ∷ u else cons_line c u) (other_byte c 10 d) (lines-line cs rest h)

chomp-line : (l : Bytes) → chomp (l ++ (13 ∷ [])) ≡ l
unfolding chomp
chomp-line [] = refl
chomp-line (c ∷ []) = refl
chomp-line (c ∷ d ∷ cs) = ap (λ t. c ∷ t) (chomp-line (d ∷ cs))

IsFree-return : (l : Bytes) → IsFree 10 l → IsFree 10 (l ++ (13 ∷ []))
IsFree-return [] h = ((λ e. omega arith), tt)
IsFree-return (c ∷ cs) (d, h) = (d, IsFree-return cs h)

-- What a text does to a description.
abbrev pub read : Bytes → Sdp → Option Sdp
read text s = read_lines (lines text) s

abbrev pub read_behind : Bytes → Option Sdp → Option Sdp
read_behind rest none = none
read_behind rest (some t) = read rest t

pub read_line_behind :
    (l rest : Bytes) (s : Sdp) (o : Option Sdp)
    → IsFree 10 l
    → read_line l s ≡ o
    → read (put l rest) s ≡ read_behind rest o
unfolding read_lines
read_line_behind l rest s o h e =
    ap (λ u. read_lines u s)
      (ap lines (sym (append_assoc l (13 ∷ []) (10 ∷ rest)))
        ∙ lines-line (l ++ (13 ∷ [])) rest (IsFree-return l h))
    ∙ ap (λ u. elim (read_line u s) [ none ↦ none | some t ↦ read rest t ]) (chomp-line l)
    ∙ behind (read_line l s)
    ∙ ap (read_behind rest) e
  where
    behind : (o : Option Sdp) → elim o [ none ↦ none | some t ↦ read rest t ] ≡ read_behind rest o
    behind none = refl
    behind (some t) = refl

pub read-put :
    (l rest : Bytes) (s t : Sdp)
    → IsFree 10 l
    → read_line l s ≡ some t
    → read (put l rest) s ≡ read rest t
read-put l rest s t h e = read_line_behind l rest s (some t) h e

-- The byte is nowhere in the text, as a test.
abbrev pub lacks : ℕ → Bytes → Bool
lacks c [] = true
lacks c (b ∷ bs) = if b == c then false else lacks c bs

pub lacks-IsFree : (c : ℕ) (text : Bytes) → lacks c text ≡ true → IsFree c text
lacks-IsFree c [] h = tt
lacks-IsFree c (b ∷ bs) h =
    if_elim (λ t. t ≡ true → IsFree c (b ∷ bs)) (b == c) false (lacks c bs) (λ e f. cc)
      (λ e f. ((λ g. differs b c e g), lacks-IsFree c bs f)) h
  where
    differs : (b c : ℕ) → (b == c) ≡ false → b ≢ c
    differs b c e g = ground arith
