-- ===== src/Rtcp/Nack/Sorting.antt =====
-- `std::sort` and `std::unique` on sequence numbers, as `RtcpNack::serialize` applies them.
use mathlib.Core.Path.{subst}
use cpp_meet.Common.{
  ℕ, ◌<◌, ◌≤◌, ◌≡◌, refl, ◌∙◌, Bool, true, false, ◌||◌, List, [], ◌∷◌, leb, ◌==◌, if◌then◌else◌,
  All, arith, Bool-cases, inl, inr,
}

-- Ascending order, by insertion.
unfoldable pub insert_sorted : ℕ → List ℕ → List ℕ
insert_sorted x [] = x ∷ []
insert_sorted x (y ∷ ys) = if leb x y then x ∷ y ∷ ys else y ∷ insert_sorted x ys

unfoldable pub sort : List ℕ → List ℕ
sort [] = []
sort (x ∷ xs) = insert_sorted x (sort xs)

-- What follows `x` with repetitions of the element before removed.
unfoldable pub dedup : ℕ → List ℕ → List ℕ
dedup x [] = []
dedup x (y ∷ ys) = let rest = dedup y ys in if x == y then rest else y ∷ rest

unfoldable pub unique : List ℕ → List ℕ
unfolding dedup
unique [] = []
unique (x ∷ xs) = x ∷ dedup x xs

-- The test whether a number is in a list.
abbrev pub member : ℕ → List ℕ → Bool
member k [] = false
member k (x ∷ xs) = k == x || member k xs

-- Strictly ascending, with every element above `lo`.
abbrev pub Above : ℕ → List ℕ → Type 0
Above lo [] = Unit
Above lo (x ∷ xs) = (lo < x) × Above x xs

abbrev pub StrictlySorted : List ℕ → Type 0
StrictlySorted [] = Unit
StrictlySorted (x ∷ xs) = Above x xs

-- Ascending, with every element at least `lo`.
abbrev From : ℕ → List ℕ → Type 0
From lo [] = Unit
From lo (x ∷ xs) = (lo ≤ x) × From x xs

insert_sorted-From : (lo x : ℕ) (xs : List ℕ) → lo ≤ x → From lo xs → From lo (insert_sorted x xs)
unfolding insert_sorted
insert_sorted-From lo x [] h f = (h, tt)
insert_sorted-From lo x (y ∷ ys) h f = ground (arith, insert_sorted-From y x ys)

sort-From : (xs : List ℕ) → From 0 (sort xs)
unfolding sort
sort-From [] = tt
sort-From (x ∷ xs) = insert_sorted-From 0 x (sort xs) (omega arith) (sort-From xs)

dedup-Above : (x : ℕ) (xs : List ℕ) → From x xs → Above x (dedup x xs)
unfolding dedup
dedup-Above x [] h = tt
dedup-Above x (y ∷ ys) h = elim (Bool-cases (x == y)) [
  | inl e ↦
      rw e
        (let q : y ≡ x = ground arith in subst (λ z. Above z (dedup y ys)) q (dedup-Above y ys h.1))
  | inr e ↦ rw e (ground arith, dedup-Above y ys h.1)
]

member-insert_sorted :
    (k x : ℕ) (xs : List ℕ) → member k (insert_sorted x xs) ≡ (k == x || member k xs)
unfolding insert_sorted
member-insert_sorted k x [] = refl
member-insert_sorted k x (y ∷ ys) = ground (arith, member-insert_sorted k x ys)

member-sort : (k : ℕ) (xs : List ℕ) → member k (sort xs) ≡ member k xs
unfolding sort
member-sort k [] = refl
member-sort k (x ∷ xs) = ground (arith, member-insert_sorted k x (sort xs), member-sort k xs)

member-dedup : (k x : ℕ) (xs : List ℕ) → (k == x || member k (dedup x xs)) ≡ (k == x || member k xs)
unfolding dedup
member-dedup k x [] = refl
member-dedup k x (y ∷ ys) = ground (arith, member-dedup k y ys)

member-unique : (k : ℕ) (xs : List ℕ) → member k (unique xs) ≡ member k xs
unfolding unique
member-unique k [] = refl
member-unique k (x ∷ xs) = member-dedup k x xs

unique-StrictlySorted : (xs : List ℕ) → From 0 xs → StrictlySorted (unique xs)
unfolding unique
unique-StrictlySorted [] h = tt
unique-StrictlySorted (x ∷ xs) h = dedup-Above x xs h.1

-- Sorting and removing repetitions gives a strictly ascending list with the same members.
pub unique-sort :
    (xs : List ℕ)
    → StrictlySorted (unique (sort xs)) × ((k : ℕ) → member k (unique (sort xs)) ≡ member k xs)
unique-sort xs = (
  unique-StrictlySorted (sort xs) (sort-From xs),
  λ k. member-unique k (sort xs) ∙ member-sort k xs,
)

-- A bound that holds of all elements is a fact about membership.
pub All-of_member :
    (n : ℕ) (xs : List ℕ) → ((k : ℕ) → member k xs ≡ true → k < n) → All (λ x. x < n) xs
All-of_member n [] h = tt
All-of_member n (x ∷ xs) h = (h x (ground arith), All-of_member n xs (λ k e. h k (ground arith)))

pub lt_of_member : (n k : ℕ) (xs : List ℕ) → All (λ x. x < n) xs → member k xs ≡ true → k < n
lt_of_member n k [] h e = cc
lt_of_member n k (x ∷ xs) h e = ground (arith, lt_of_member n k xs h.1)
