-- ===== src/Rtcp/Nack/Covering.antt =====
-- One pair: the mask that the inner loop collects expands to the numbers that the pair covers.
use Prim.Native.Nat.{bit_or}
use cpp_meet.Common.{
  ℕ, zero, suc, ◌+◌, ◌-◌, ◌^◌, ◌<◌, ◌≤◌, ◌≡◌, refl, false, ◌||◌, ◌&&◌, List, [], ◌∷◌, ◌++◌, ltb,
  leb, ◌==◌, if◌then◌else◌, length, arith, Bool-cases, inl, inr, All,
}
use cpp_meet.Rtcp.Nack.Sorting.{Above, StrictlySorted, member}
use cpp_meet.Rtcp.Nack.Packet.{bit_set, collect_blp, expand_bits, skip_covered}
use cpp_meet.Rtcp.Nack.Masks.{bit_set-or, bit_set-pow, bit_set-zero, bit_or-lt, pow-lt_word}

-- The numbers of an ascending list that a pair starting at `fsn` covers.
abbrev pub covered : ℕ → List ℕ → List ℕ
covered fsn [] = []
covered fsn (x ∷ xs) = if leb x (fsn + 16) then x ∷ covered fsn xs else []

pub covered-append-skip : (fsn : ℕ) (xs : List ℕ) → covered fsn xs ++ skip_covered fsn xs ≡ xs
unfolding skip_covered
covered-append-skip fsn [] = refl
covered-append-skip fsn (x ∷ xs) = ground (arith, covered-append-skip fsn xs)

-- Numbers above `lo` do not include `lo` or less.
member-below : (k lo : ℕ) (xs : List ℕ) → k ≤ lo → Above lo xs → member k xs ≡ false
member-below k lo [] h a = refl
member-below k lo (x ∷ xs) h a = ground (arith, member-below k x xs (omega arith) a.1)

Above-le : (lo hi : ℕ) (xs : List ℕ) → lo ≤ hi → Above hi xs → Above lo xs
Above-le lo hi [] h a = tt
Above-le lo hi (x ∷ xs) h a = (omega arith, a.1)

-- After the inner loop bit `i` says whether `fsn + i + 1` was among the numbers.
collect_blp-bit :
    (fsn i lo blp : ℕ) (xs : List ℕ)
    → i < 16
    → fsn ≤ lo
    → Above lo xs
    → bit_set (collect_blp fsn xs blp) i ≡ (bit_set blp i || member (fsn + i + 1) xs)
unfolding collect_blp
collect_blp-bit fsn i lo blp [] hi hl a = ground arith
collect_blp-bit fsn i lo blp (x ∷ xs) hi hl a = ground (
  arith,
  collect_blp-bit fsn i x (bit_or blp (2 ^ (x - fsn - 1))) xs hi (omega arith) a.1,
  bit_set-or blp (2 ^ (x - fsn - 1)) i,
  bit_set-pow (x - fsn - 1) i,
  member-below (fsn + i + 1) x xs,
)

pub collect_blp-lt : (fsn blp : ℕ) (xs : List ℕ) → blp < 2 ^ 16 → collect_blp fsn xs blp < 2 ^ 16
unfolding collect_blp
collect_blp-lt fsn blp [] h = h
collect_blp-lt fsn blp (x ∷ xs) h = elim (Bool-cases (leb x (fsn + 16) && ltb fsn x)) [
  | inl e ↦ ground (
    arith,
    collect_blp-lt fsn (bit_or blp (2 ^ (x - fsn - 1))) xs,
    bit_or-lt 16 blp (2 ^ (x - fsn - 1)) h,
    pow-lt_word (x - fsn - 1),
  )
  | inr e ↦ ground (arith, collect_blp-lt fsn blp xs h)
]

-- The loop over the bits, from bit `i` on, gives the covered numbers.
expand_bits-covered :
    (fsn blp i n : ℕ) (xs : List ℕ)
    → i + n ≡ 16
    → Above (fsn + i) xs
    → All (λ x. x < 2 ^ 16) xs
    → ((j : ℕ) → i ≤ j → j < 16 → bit_set blp j ≡ member (fsn + j + 1) xs)
    → expand_bits fsn blp i n ≡ covered fsn xs
unfolding expand_bits
expand_bits-covered fsn blp i zero [] e a b h = refl
expand_bits-covered fsn blp i zero (x ∷ xs) e a b h = ground arith
expand_bits-covered fsn blp i (suc n) [] e a b h =
    rw (h i (omega arith) (omega arith))
      (expand_bits-covered fsn blp (i + 1) n [] (omega arith) tt tt (λ j p q. h j (omega arith) q))
expand_bits-covered fsn blp i (suc n) (x ∷ xs) e a b h = elim (Bool-cases (fsn + i + 1 == x)) [
  | inl eq ↦ ground (
    arith,
    h i (omega arith) (omega arith),
    expand_bits-covered fsn blp (i + 1) n xs (omega arith)
        (Above-le (fsn + (i + 1)) x xs (ground arith) a.1) b.1
        (λ j p q. ground (arith, h j (omega arith) q)),
  )
  | inr ne ↦ ground (
    arith,
    h i (omega arith) (omega arith),
    member-below (fsn + i + 1) x xs,
    expand_bits-covered fsn blp (i + 1) n (x ∷ xs) (omega arith) (ground arith, a.1) b
        (λ j p q. h j (omega arith) q),
  )
]

-- The pair of a number and the mask collected behind it expands to the numbers it covers.
pub expand_bits-collect_blp :
    (fsn : ℕ) (xs : List ℕ)
    → Above fsn xs
    → All (λ x. x < 2 ^ 16) xs
    → expand_bits fsn (collect_blp fsn xs 0) 0 16 ≡ covered fsn xs
expand_bits-collect_blp fsn xs a b =
    expand_bits-covered fsn (collect_blp fsn xs 0) 0 16 xs (omega arith)
      (Above-le (fsn + 0) fsn xs (omega arith) a) b
      (λ j p q. ground (arith, collect_blp-bit fsn j fsn 0 xs q (omega arith) a, bit_set-zero j))

pub skip_covered-Above :
    (fsn lo : ℕ) (xs : List ℕ) → Above lo xs → Above (fsn + 16) (skip_covered fsn xs)
unfolding skip_covered
skip_covered-Above fsn lo [] a = tt
skip_covered-Above fsn lo (x ∷ xs) a = elim (Bool-cases (leb x (fsn + 16))) [
  | inl e ↦ rw e (skip_covered-Above fsn x xs a.1)
  | inr e ↦ rw e (ground arith, a.1)
]

pub skip_covered-All :
    (fsn : ℕ) (xs : List ℕ) → All (λ x. x < 2 ^ 16) xs → All (λ x. x < 2 ^ 16) (skip_covered fsn xs)
unfolding skip_covered
skip_covered-All fsn [] b = tt
skip_covered-All fsn (x ∷ xs) b = elim (Bool-cases (leb x (fsn + 16))) [
  | inl e ↦ rw e (skip_covered-All fsn xs b.1)
  | inr e ↦ rw e b
]

pub length-skip_covered : (fsn : ℕ) (xs : List ℕ) → length (skip_covered fsn xs) ≤ length xs
unfolding skip_covered
length-skip_covered fsn [] = omega arith
length-skip_covered fsn (x ∷ xs) = ground (arith, length-skip_covered fsn xs)

pub StrictlySorted-of_Above : (lo : ℕ) (xs : List ℕ) → Above lo xs → StrictlySorted xs
StrictlySorted-of_Above lo [] a = tt
StrictlySorted-of_Above lo (x ∷ xs) a = a.1
