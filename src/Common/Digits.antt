-- ===== src/Common/Digits.antt =====
-- The native bit operations recurse on binary digits with fuel; here the fuel is dropped, for every
-- operation `f` on digits.
use Prim.Native.Nat.{ℕ, zero, suc, ◌+◌, ◌*◌, ◌-◌, ◌/◌, ◌%◌, ◌≤◌, digits, bitwise}
use mathlib.Core.Path.{◌≡◌, refl, ◌∙◌, ap}
use native.Mathlib.Omega.{arith}

module _ (f : ℕ → ℕ → ℕ) where
  abbrev fold_digits : ℕ → ℕ → ℕ → ℕ
  fold_digits fuel a b = digits (λ y. y) f fuel a b

  -- One more unit of fuel than the number makes no difference, and so no more does any larger fuel.
  one_more : (fuel a b : ℕ) → a ≤ fuel → fold_digits (suc fuel) a b ≡ fold_digits fuel a b
  one_more zero zero b h = refl
  one_more (suc fuel) zero b h = refl
  one_more zero (suc a) b h = absurd (omega arith)
  one_more (suc fuel) (suc a) b h = rw (one_more fuel (suc a / 2) (b / 2) (omega arith))

  spare : (extra a b : ℕ) → fold_digits (extra + a) a b ≡ fold_digits a a b
  spare zero a b = ap (λ t. fold_digits t a b) (omega arith)
  spare (suc extra) a b =
      let next : suc extra + a ≡ suc (extra + a) = omega arith in
      ap (λ t. fold_digits t a b) next ∙ one_more (extra + a) a b (omega arith) ∙ spare extra a b

  enough : (fuel a b : ℕ) → a ≤ fuel → fold_digits fuel a b ≡ fold_digits a a b
  enough fuel a b h =
      let split : fuel ≡ (fuel - a) + a = omega arith in
      ap (λ t. fold_digits t a b) split ∙ spare (fuel - a) a b

  -- The lowest digit and the rest.
  pub low_digit :
      (a b : ℕ)
      → bitwise (λ y. y) f (suc a) b
        ≡ bitwise (λ y. y) f (suc a / 2) (b / 2) * 2 + f (suc a % 2) (b % 2)
  low_digit a b = omega (arith, enough a (suc a / 2) (b / 2) (omega arith))
