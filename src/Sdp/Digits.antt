-- ===== src/Sdp/Digits.antt =====
-- Numbers in decimal, read back by `>>` with what follows them.
use native.Mathlib.Nat.{pow-suc}
use cpp_meet.Common.{
  ℕ, zero, suc, ◌+◌, ◌-◌, ◌*◌, ◌/◌, ◌%◌, ◌^◌, ◌≤◌, ◌<◌, ◌≡◌, ◌≢◌, refl, ap, ◌∙◌, Bool, true, false,
  List, [], ◌∷◌, ◌++◌, ◌==◌, arith, ltb, if◌then◌else◌, if_elim, none, some, All, All-append,
  ltb→lt,
}
use cpp_meet.Common.Decimal.{decimal, digits, is_digit, read_digits, read_magnitude, read_number}
use cpp_meet.Wire.{Bytes}

abbrev pub IsDigit : ℕ → Type 0
IsDigit c = (b'0' ≤ c) × (c ≤ b'9')

-- What the digits add up to behind the number `n`.
abbrev folded : ℕ → Bytes → ℕ
folded n [] = n
folded n (c ∷ cs) = folded (n * 10 + (c - b'0')) cs

folded-append : (n : ℕ) (xs ys : Bytes) → folded n (xs ++ ys) ≡ folded (folded n xs) ys
folded-append n [] ys = refl
folded-append n (x ∷ xs) ys = folded-append (n * 10 + (x - b'0')) xs ys

pub digits-IsDigit : (fuel n : ℕ) → All IsDigit (digits fuel n)
unfolding digits
digits-IsDigit zero n = tt
digits-IsDigit (suc fuel) n =
    if_elim (All IsDigit) (ltb n 10) ((b'0' + n) ∷ [])
      (digits fuel (n / 10) ++ ((b'0' + n % 10) ∷ []))
      (λ e. let small = ltb→lt n 10 e in ((omega arith, omega arith), tt))
      (λ e.
        All-append IsDigit (digits fuel (n / 10)) _ (digits-IsDigit fuel (n / 10))
          ((omega arith, omega arith), tt))

folded-digits : (fuel n : ℕ) → n < 10 ^ fuel → folded 0 (digits fuel n) ≡ n
unfolding digits
folded-digits zero n h = omega arith
folded-digits (suc fuel) n h =
    if_elim (λ t. folded 0 t ≡ n) (ltb n 10) ((b'0' + n) ∷ [])
      (digits fuel (n / 10) ++ ((b'0' + n % 10) ∷ [])) (λ e. omega arith)
      (λ e.
        folded-append 0 (digits fuel (n / 10)) ((b'0' + n % 10) ∷ [])
        ∙ ap (λ t. t * 10 + (b'0' + n % 10 - b'0'))
            (folded-digits fuel (n / 10) (omega (arith, h, pow-suc 10 fuel)))
        ∙ omega arith)

append_one_nonempty {ℓ} : {A : Type ℓ} (xs : List A) (y : A) → (xs ++ (y ∷ [])) ≢ []
append_one_nonempty [] y e = cc
append_one_nonempty (x ∷ xs) y e = cc

pub digits_nonempty : (fuel n : ℕ) → digits (suc fuel) n ≢ []
unfolding digits
digits_nonempty fuel n =
    if_elim (λ t. t ≢ []) (ltb n 10) ((b'0' + n) ∷ [])
      (digits fuel (n / 10) ++ ((b'0' + n % 10) ∷ [])) (λ e f. cc)
      (λ e. append_one_nonempty (digits fuel (n / 10)) (b'0' + n % 10))

IsDigit-is_digit : (c : ℕ) → IsDigit c → is_digit c ≡ true
unfolding is_digit
IsDigit-is_digit c h = ground arith

read_digits-append :
    (n : ℕ) (xs ys : Bytes)
    → All IsDigit xs
    → read_digits n (xs ++ ys) ≡ read_digits (folded n xs) ys
unfolding read_digits
read_digits-append n [] ys h = refl
read_digits-append n (x ∷ xs) ys (d, h) =
    ap (λ b. if b then read_digits (n * 10 + (x - b'0')) (xs ++ ys) else (n, x ∷ (xs ++ ys)))
      (IsDigit-is_digit x d)
    ∙ read_digits-append (n * 10 + (x - b'0')) xs ys h

-- A text that does not go on with a digit.
abbrev pub IsBreak : Bytes → Type 0
IsBreak [] = Unit {0}
IsBreak (c ∷ cs) = is_digit c ≡ false

read_digits_break : (n : ℕ) (rest : Bytes) → IsBreak rest → read_digits n rest ≡ (n, rest)
unfolding read_digits
read_digits_break n [] h = refl
read_digits_break n (c ∷ cs) h =
    ap (λ b. if b then read_digits (n * 10 + (c - b'0')) cs else (n, c ∷ cs)) h

-- Digits behind each other are read as a number.
read_magnitude-folded :
    (negative : Bool) (xs rest : Bytes)
    → xs ≢ []
    → All IsDigit xs
    → IsBreak rest
    → read_magnitude negative (xs ++ rest) ≡ some (negative, (folded 0 xs, rest))
unfolding read_magnitude
read_magnitude-folded negative [] rest n h b = absurd (n refl)
read_magnitude-folded negative (x ∷ xs) rest n (d, h) b =
    ap (λ t. if t then some (negative, read_digits 0 (x ∷ (xs ++ rest))) else none)
      (IsDigit-is_digit x d)
    ∙ ap (λ t. some (negative, t))
        (read_digits-append 0 (x ∷ xs) rest (d, h) ∙ read_digits_break (folded 0 (x ∷ xs)) rest b)

read_number-folded :
    (xs rest : Bytes)
    → xs ≢ []
    → All IsDigit xs
    → IsBreak rest
    → read_number (xs ++ rest) ≡ some (false, (folded 0 xs, rest))
unfolding read_number
read_number-folded [] rest n h b = absurd (n refl)
read_number-folded (x ∷ xs) rest n (d, h) b =
    ap
      (λ t.
        if t
        then read_magnitude true (xs ++ rest)
        else (if x == b'+'
            then read_magnitude false (xs ++ rest)
            else read_magnitude false (x ∷ (xs ++ rest))))
      (sign x b'-' (omega arith))
    ∙ ap
        (λ t.
          if t then read_magnitude false (xs ++ rest) else read_magnitude false (x ∷ (xs ++ rest)))
        (sign x b'+' (omega arith))
    ∙ read_magnitude-folded false (x ∷ xs) rest n (d, h) b
  where
    sign : (a c : ℕ) → c < a → (a == c) ≡ false
    sign a c h = ground arith

pub read_number-decimal :
    (n : ℕ) (rest : Bytes)
    → n < 10 ^ 20
    → IsBreak rest
    → read_number (decimal n ++ rest) ≡ some (false, (n, rest))
unfolding decimal
read_number-decimal n rest h b =
    read_number-folded (digits 20 n) rest (digits_nonempty 19 n) (digits-IsDigit 20 n) b
    ∙ ap (λ t. some (false, (t, rest))) (folded-digits 20 n h)

pub read_number-negative :
    (n : ℕ) (rest : Bytes)
    → n < 10 ^ 20
    → IsBreak rest
    → read_number (b'-' ∷ (decimal n ++ rest)) ≡ some (true, (n, rest))
unfolding decimal read_number
read_number-negative n rest h b =
    read_magnitude-folded true (digits 20 n) rest (digits_nonempty 19 n) (digits-IsDigit 20 n) b
    ∙ ap (λ t. some (true, (t, rest))) (folded-digits 20 n h)
