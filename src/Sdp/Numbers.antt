-- ===== src/Sdp/Numbers.antt =====
-- The port and the payload types, written with `<<` and read with `>>` and `stoi`.
use cpp_meet.Common.{
  ℕ, ◌-◌, ◌%◌, ◌^◌, ◌<◌, ◌≡◌, ◌≢◌, refl, ap, sym, ◌∙◌, false, [], ◌∷◌, ◌++◌, ◌==◌, arith, ltb, leb,
  if◌then◌else◌, if_elim, none, some, All, All-map, append-nil, ◌&&◌, ◌||◌, le→ltb, ltb→lt, ltb→le,
}
use cpp_meet.Common.Decimal.{decimal, digits, int_text, is_space, read_number, skip_spaces}
use cpp_meet.Wire.{Bytes}
use cpp_meet.Sdp.Lines.{IsFree}
use cpp_meet.Sdp.{int_of, left, port_of, read_int, read_port, stoi}
use cpp_meet.Sdp.Digits.{
  IsBreak, IsDigit, digits_nonempty, digits-IsDigit, read_number-negative, read_number-decimal,
}

-- Nothing is skipped in front of a digit or a sign.
skip_spaces-folded :
    (xs rest : Bytes) → xs ≢ [] → All IsDigit xs → skip_spaces (xs ++ rest) ≡ xs ++ rest
unfolding skip_spaces is_space
skip_spaces-folded [] rest n h = absurd (n refl)
skip_spaces-folded (x ∷ xs) rest n (d, h) =
    ap (λ t. if t then skip_spaces (xs ++ rest) else x ∷ (xs ++ rest)) (shown x d)
  where
    shown : (c : ℕ) → IsDigit c → (c == 32 || (leb 9 c && leb c 13)) ≡ false
    shown c h = ground arith

skip_spaces-decimal : (n : ℕ) (rest : Bytes) → skip_spaces (decimal n ++ rest) ≡ decimal n ++ rest
unfolding decimal
skip_spaces-decimal n rest =
    skip_spaces-folded (digits 20 n) rest (digits_nonempty 19 n) (digits-IsDigit 20 n)

skip_blank-decimal :
    (n : ℕ) (rest : Bytes) → skip_spaces (32 ∷ (decimal n ++ rest)) ≡ decimal n ++ rest
unfolding skip_spaces is_space
skip_blank-decimal n rest = skip_spaces-decimal n rest

pub read_port-decimal :
    (n : ℕ) (rest : Bytes)
    → n < 2 ^ 16
    → IsBreak rest
    → read_port (some (32 ∷ (decimal n ++ rest))) ≡ (n, left rest)
unfolding read_port port_of
read_port-decimal n rest h b =
    ap (λ t. port_of (read_number t)) (skip_blank-decimal n rest)
    ∙ ap port_of (read_number-decimal n rest (omega (arith, h)) b)
    ∙ ap (λ t. if t then (65535, none) else (n, left rest)) (le→ltb 65535 n (omega arith))

-- An `int` behind spaces or none, that is, what is skipped is up to the caller.
int_of-int_text :
    (v : ℕ) (rest : Bytes)
    → v < 2 ^ 32
    → IsBreak rest
    → int_of (read_number (int_text v ++ rest)) ≡ some (v, left rest)
unfolding int_text int_of
int_of-int_text v rest h b =
    if_elim (λ t. int_of (read_number (t ++ rest)) ≡ some (v, left rest)) (ltb v (2 ^ 31))
      (decimal v) (b'-' ∷ decimal (2 ^ 32 - v))
      (λ e.
        ap int_of (read_number-decimal v rest (omega (arith, h)) b)
        ∙ ap (λ t. if t then none else some (v, left rest)) (small v (ltb→lt v (2 ^ 31) e)))
      (λ e.
        ap int_of (read_number-negative (2 ^ 32 - v) rest (omega arith) b)
        ∙ ap (λ t. if t then none else some ((2 ^ 32 - (2 ^ 32 - v)) % 2 ^ 32, left rest))
            (le→ltb (2 ^ 31) (2 ^ 32 - v) (let p = ltb→le v (2 ^ 31) e in omega arith))
        ∙ ap (λ t. some (t, left rest)) (let p = ltb→le v (2 ^ 31) e in omega arith))
  where
    small : (v : ℕ) → v < 2 ^ 31 → leb (2 ^ 31) v ≡ false
    small v h = ground arith

skip_spaces-int_text :
    (v : ℕ) (rest : Bytes) → skip_spaces (int_text v ++ rest) ≡ int_text v ++ rest
unfolding int_text skip_spaces is_space
skip_spaces-int_text v rest =
    if_elim (λ t. skip_spaces (t ++ rest) ≡ t ++ rest) (ltb v (2 ^ 31)) (decimal v)
      (b'-' ∷ decimal (2 ^ 32 - v)) (λ e. skip_spaces-decimal v rest) (λ e. refl)

skip_blank-int_text :
    (v : ℕ) (rest : Bytes) → skip_spaces (32 ∷ (int_text v ++ rest)) ≡ int_text v ++ rest
unfolding skip_spaces is_space
skip_blank-int_text v rest = skip_spaces-int_text v rest

pub read_int-int_text :
    (v : ℕ) (rest : Bytes)
    → v < 2 ^ 32
    → IsBreak rest
    → read_int (some (32 ∷ (int_text v ++ rest))) ≡ some (v, left rest)
unfolding read_int
read_int-int_text v rest h b =
    ap (λ t. int_of (read_number t)) (skip_blank-int_text v rest) ∙ int_of-int_text v rest h b

-- The bytes that stand in an `int`.
pub stoi-int_text : (v : ℕ) → v < 2 ^ 32 → stoi (int_text v) ≡ some v
unfolding stoi read_int
stoi-int_text v h =
    ap (λ t. elim (int_of (read_number t)) [ none ↦ none | some (w, rest) ↦ some w ])
      (ap skip_spaces (sym (append-nil (int_text v))) ∙ skip_spaces-int_text v [])
    ∙ ap (λ o. elim o [ none ↦ none | some (w, rest) ↦ some w ]) (int_of-int_text v [] h tt)

-- No other byte than a digit or a sign is in a number.
pub decimal-IsFree : (c n : ℕ) → c < b'0' → IsFree c (decimal n)
unfolding decimal
decimal-IsFree c n h =
    All-map IsDigit (λ b. b ≢ c) (λ b d e. omega arith) (digits 20 n) (digits-IsDigit 20 n)

pub int_text-IsFree : (c v : ℕ) → c < b'-' → IsFree c (int_text v)
unfolding int_text
int_text-IsFree c v h =
    if_elim (IsFree c) (ltb v (2 ^ 31)) (decimal v) (b'-' ∷ decimal (2 ^ 32 - v))
      (λ e. decimal-IsFree c v (omega arith))
      (λ e. ((λ g. omega arith), decimal-IsFree c (2 ^ 32 - v) (omega arith)))
