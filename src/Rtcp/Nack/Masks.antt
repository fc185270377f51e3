-- ===== src/Rtcp/Nack/Masks.antt =====
-- The bits of a mask after `|=` of a single bit.
use Prim.Native.Nat.{bit_or}
use native.Mathlib.Nat.{pow-suc, div-div-eq-div-mul, pow-le-pow_right}
use cpp_meet.Common.{
  ℕ, zero, suc, ◌/◌, ◌%◌, ◌^◌, ◌<◌, ◌≡◌, refl, ap, ◌∙◌, sym, false, ◌||◌, ◌==◌, arith,
}
use cpp_meet.Common.Bits.{bit_or_step}
use cpp_meet.Rtcp.Nack.Packet.{bit_set}

halve_pow : (a i : ℕ) → a / 2 ^ suc i ≡ a / 2 / 2 ^ i
halve_pow a i =
    ap (λ (t : ℕ). a / t) (omega (arith, pow-suc 2 i)) ∙ sym (div-div-eq-div-mul a 2 (2 ^ i))

bit_set-suc : (a i : ℕ) → bit_set a (suc i) ≡ bit_set (a / 2) i
unfolding bit_set
bit_set-suc a i = ap (λ (t : ℕ). t % 2 == 1) (halve_pow a i)

half_or : (a b : ℕ) → bit_or a b / 2 ≡ bit_or (a / 2) (b / 2)
half_or a b = omega (arith, bit_or_step a b)

bit_set-or_zero : (a b : ℕ) → bit_set (bit_or a b) 0 ≡ (bit_set a 0 || bit_set b 0)
unfolding bit_set
bit_set-or_zero a b = ground (arith, bit_or_step a b)

pub bit_set-or : (a b i : ℕ) → bit_set (bit_or a b) i ≡ (bit_set a i || bit_set b i)
bit_set-or a b zero = bit_set-or_zero a b
bit_set-or a b (suc i) =
    rw (bit_set-suc (bit_or a b) i, bit_set-suc a i, bit_set-suc b i, half_or a b)
      (bit_set-or (a / 2) (b / 2) i)

pub bit_set-zero : (i : ℕ) → bit_set 0 i ≡ false
bit_set-zero zero = unfold bit_set in refl
bit_set-zero (suc i) = bit_set-suc 0 i ∙ bit_set-zero i

half_pow : (k : ℕ) → 2 ^ suc k / 2 ≡ 2 ^ k
half_pow k = omega (arith, pow-suc 2 k)

pub bit_set-pow : (k i : ℕ) → bit_set (2 ^ k) i ≡ (k == i)
bit_set-pow zero zero = unfold bit_set in refl
bit_set-pow zero (suc i) = bit_set-suc 1 i ∙ bit_set-zero i ∙ ground arith
bit_set-pow (suc k) zero = unfold bit_set in ground (arith, pow-suc 2 k)
bit_set-pow (suc k) (suc i) =
    bit_set-suc (2 ^ suc k) i
    ∙ ap (λ (t : ℕ). bit_set t i) (half_pow k)
    ∙ bit_set-pow k i
    ∙ ground arith

-- `|` needs no more bits than its arguments.
pub bit_or-lt : (k a b : ℕ) → a < 2 ^ k → b < 2 ^ k → bit_or a b < 2 ^ k
bit_or-lt zero zero zero p q = p
bit_or-lt zero (suc a) b p q = absurd (omega arith)
bit_or-lt zero zero (suc b) p q = absurd (omega arith)
bit_or-lt (suc k) a b p q = omega (
  arith,
  pow-suc 2 k,
  bit_or_step a b,
  bit_or-lt k (a / 2) (b / 2) (omega (arith, pow-suc 2 k)) (omega (arith, pow-suc 2 k)),
)

pub pow-lt_word : (k : ℕ) → k < 16 → 2 ^ k < 2 ^ 16
pow-lt_word k h =
    omega (arith, pow-le-pow_right {n = 2} (omega arith) {i = k} {j = 15} (omega arith))
