-- ===== src/Common/Decimal.antt =====
-- Decimal numbers as the standard library's streams write and read them. An `int` is the number below
-- 2 ^ 32 with its bits.
use Prim.Native.Nat.{ℕ, zero, suc, ◌+◌, ◌-◌, ◌*◌, ◌/◌, ◌%◌, ◌^◌}
use mathlib.Core.Bool.{Bool, true, false, ◌&&◌, ◌||◌}
use mathlib.Core.Option.{Option, none, some}
use mathlib.Core.List.{List, [], ◌∷◌, ◌++◌}
use cpp_meet.Common.Tests.{if◌then◌else◌, ◌==◌, ltb, leb}

-- The digits, the last one last. Twenty are enough for every number below 10 ^ 20.
unfoldable pub digits : ℕ → ℕ → List ℕ
digits zero n = []
digits (suc fuel) n =
    let front = digits fuel (n / 10) in
    if ltb n 10 then (b'0' + n) ∷ [] else front ++ ((b'0' + n % 10) ∷ [])

-- `<<` of an unsigned number.
unfoldable pub decimal : ℕ → List ℕ
decimal n = digits 20 n

-- `<<` of an `int`.
unfoldable pub int_text : ℕ → List ℕ
int_text v = if ltb v (2 ^ 31) then decimal v else b'-' ∷ decimal (2 ^ 32 - v)

unfoldable pub is_digit : ℕ → Bool
is_digit c = leb b'0' c && leb c b'9'

-- `isspace`
unfoldable pub is_space : ℕ → Bool
is_space c = c == 32 || (leb 9 c && leb c 13)

unfoldable pub skip_spaces : List ℕ → List ℕ
skip_spaces [] = []
skip_spaces (c ∷ cs) = let later = skip_spaces cs in if is_space c then later else c ∷ cs

-- The digits in front, behind a number that is read so far, and what follows them.
unfoldable pub read_digits : ℕ → List ℕ → ℕ × List ℕ
read_digits n [] = (n, [])
read_digits n (c ∷ cs) =
    let later = read_digits (n * 10 + (c - b'0')) cs in if is_digit c then later else (n, c ∷ cs)

-- Behind the sign, there is a number if there is a digit.
unfoldable pub read_magnitude : Bool → List ℕ → Option (Bool × (ℕ × List ℕ))
read_magnitude negative [] = none
read_magnitude negative (c ∷ cs) =
    if is_digit c then some (negative, read_digits 0 (c ∷ cs)) else none

-- A sign, if there is one, and digits, with what follows them.
unfoldable pub read_number : List ℕ → Option (Bool × (ℕ × List ℕ))
read_number [] = none
read_number (c ∷ cs) =
    if c == b'-'
    then read_magnitude true cs
    else if c == b'+'
    then read_magnitude false cs
    else read_magnitude false (c ∷ cs)
