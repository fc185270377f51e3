-- ===== src/RingBuffer/Wrap.antt =====
-- Indices around the ring of `RingBuffer`: `index n t i` is the slot `i` places behind `t`.
use native.Mathlib.Nat.{mod-add-mod, mod-eq-sub-mod, mod-eq_of_lt, mod-lt}
use cpp_meet.Common.{
  ℕ, ◌+◌, ◌-◌, ◌%◌, ◌≤◌, ◌<◌, ◌≡◌, ◌≢◌, ◌⊎◌, inl, inr, arith, ap, ◌∙◌, sym, Bool-cases, ltb, ltb→lt,
  ltb→le,
}

module _ (n : ℕ) where
  abbrev pub index : ℕ → ℕ → ℕ
  index t i = (t + i) % n

  -- Below twice the size, the remainder is the number or the number less the size.
  pub wrap_cases : (x : ℕ) → x < n + n → ((x < n) × (x % n ≡ x)) ⊎ ((n ≤ x) × (x % n ≡ x - n))
  wrap_cases x h = elim (Bool-cases (ltb x n)) [
    | inl below ↦ inl (ltb→lt x n below, mod-eq_of_lt (ltb→lt x n below))
    | inr above ↦
        let ge : n ≤ x = ltb→le x n above in
        inr (ge, mod-eq-sub-mod ge ∙ mod-eq_of_lt (omega arith))
  ]

  module _ (t : ℕ) (inside : t < n) where
    pub index-zero : index t 0 ≡ t
    index-zero = elim (wrap_cases (t + 0) (omega arith)) [
      | inl (below, e) ↦ omega (arith, e)
      | inr (h, _) ↦ absurd (omega arith)
    ]

    pub index-lt : (i : ℕ) → index t i < n
    index-lt i = mod-lt (t + i) (omega arith)

    pub index-suc : (i : ℕ) → (index t i + 1) % n ≡ index t (i + 1)
    index-suc i = mod-add-mod (t + i) n 1 ∙ ap (λ x. x % n) (omega arith)

    -- The slots from the next index on are those from this one on, but for the first.
    pub index-next : (i : ℕ) → index ((t + 1) % n) i ≡ index t (i + 1)
    index-next i = mod-add-mod (t + 1) n i ∙ ap (λ x. x % n) (omega arith)

    pub index-injective : (i j : ℕ) → i < j → j < n → index t i ≢ index t j
    index-injective i j before last e = elim (wrap_cases (t + i) (omega arith)) [
      | inl (low, ei) ↦ elim (wrap_cases (t + j) (omega arith)) [
        | inl (below, ej) ↦ omega arith
        | inr (above, ej) ↦ omega arith
      ]
      | inr (high, ei) ↦ elim (wrap_cases (t + j) (omega arith)) [
        | inl (below, ej) ↦ omega arith
        | inr (above, ej) ↦ omega arith
      ]
    ]

    -- The next index reaches `t` again exactly behind the last slot.
    pub index_back : (len : ℕ) → len < n → (index t len + 1) % n ≡ t → len + 1 ≡ n
    index_back len fits e = elim (wrap_cases (t + (len + 1)) (omega arith)) [
      | inl (below, w) ↦ omega (arith, sym (index-suc len) ∙ e, w)
      | inr (above, w) ↦ omega (arith, sym (index-suc len) ∙ e, w)
    ]

    pub index_around : (len : ℕ) → len + 1 ≡ n → (index t len + 1) % n ≡ t
    index_around len e = elim (wrap_cases (t + (len + 1)) (omega arith)) [
      | inl (below, w) ↦ absurd (omega arith)
      | inr (above, w) ↦ omega (arith, index-suc len, w)
    ]
