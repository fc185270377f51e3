-- ===== src/RingBuffer/Content.antt =====
-- The slots of a `RingBuffer` that hold a queue, and what a store changes in them.
use cpp_meet.Common.{
  ℕ, suc, ◌+◌, ◌%◌, ◌<◌, ◌≡◌, refl, ap, sym, ◌∙◌, true, false, inl, inr, List, [], ◌∷◌, ◌++◌, ◌==◌,
  arith, length, get_or, set, ==_iff, Bool-cases, length-append, length-set, get_or-append_lt,
  get_or-append_ge, get_or-set_ne, ltb, ltb→lt, ltb→le,
}
use cpp_meet.RingBuffer.{RingBuffer, next_index}
use cpp_meet.RingBuffer.Wrap.{
  index, index-injective, index-lt, index-next, index-suc, index-zero, index_around, index_back,
}

module _ {ℓ} {T : Type ℓ} (n : ℕ) (d : T) where
  -- The slots from `tail` on hold the queue, and `head` stands behind them.
  pub record Holds (r : RingBuffer T) (q : List T) : Type ℓ where
    pub slots : length r.buf ≡ n
    pub tail_inside : r.tail < n
    pub fits : length q < n
    pub head_behind : r.head ≡ index n r.tail (length q)
    pub content : (i : ℕ) → i < length q → get_or r.buf (index n r.tail i) d ≡ get_or q i d

  pub full_at :
      (r : RingBuffer T) (q : List T)
      → Holds r q
      → (next_index n d r.head == r.tail) ≡ true
      → length q + 1 ≡ n
  full_at r q h e =
      index_back n r.tail h.tail_inside (length q) h.fits
        (ap (λ x. (x + 1) % n) (sym h.head_behind) ∙ (==_iff (next_index n d r.head) r.tail).0 e)

  pub room_at :
      (r : RingBuffer T) (q : List T)
      → Holds r q
      → (next_index n d r.head == r.tail) ≡ false
      → length q + 1 < n
  room_at r q h e = elim (Bool-cases (length q + 1 == n)) [
    | inl last ↦
        let around =
          index_around n r.tail h.tail_inside (length q) ((==_iff (length q + 1) n).0 last) in
        absurd (ground (arith, e, ap (λ x. (x + 1) % n) h.head_behind ∙ around))
    | inr more ↦ ground (arith, h.fits, more)
  ]

  -- The slot that `head` names, and what a write there leaves.
  pub head_inside : (r : RingBuffer T) (q : List T) → Holds r q → r.head < length r.buf
  head_inside r q h =
      omega (arith, h.slots, h.head_behind, index-lt n r.tail h.tail_inside (length q))

  pub Holds-set :
      (r : RingBuffer T) (q : List T) (x : T)
      → Holds r q
      → Holds (record { head = r.head; tail = r.tail; buf = set r.buf r.head x }) q
  Holds-set r q x h = record {
    slots = length-set r.buf r.head x ∙ h.slots;
    tail_inside = h.tail_inside;
    fits = h.fits;
    head_behind = h.head_behind;
    content = λ i below.
        get_or-set_ne r.buf r.head (index n r.tail i) x d (λ e.
          index-injective n r.tail h.tail_inside i (length q) below h.fits (sym e ∙ h.head_behind))
        ∙ h.content i below;
  }

  -- The item in the slot of `head` enters the queue.
  pub Holds-append :
      (r : RingBuffer T) (q : List T) (x : T)
      → Holds r q
      → length q + 1 < n
      → get_or r.buf r.head d ≡ x
      → Holds (record { head = next_index n d r.head; tail = r.tail; buf = r.buf }) (q ++ (x ∷ []))
  Holds-append r q x h room stored =
      let longer : length (q ++ (x ∷ [])) ≡ length q + 1 = length-append q (x ∷ []) in
      record {
        slots = h.slots;
        tail_inside = h.tail_inside;
        fits = omega (arith, longer);
        head_behind =
            ap (λ t. (t + 1) % n) h.head_behind
            ∙ index-suc n r.tail h.tail_inside (length q)
            ∙ ap (index n r.tail) (sym longer);
        content = λ i below. elim (Bool-cases (ltb i (length q))) [
          | inl inner ↦
              let inside = ltb→lt i (length q) inner in
              h.content i inside ∙ sym (get_or-append_lt q (x ∷ []) i d inside)
          | inr outer ↦
              let last : i ≡ length q = omega (arith, ltb→le i (length q) outer, longer, below) in
              ap (λ j. get_or r.buf (index n r.tail j) d) last
              ∙ ap (λ t. get_or r.buf t d) (sym h.head_behind)
              ∙ stored
              ∙ sym (get_or-append_ge q (x ∷ []) i 0 d (omega arith))
        ];
      }

  -- The first item of the queue leaves it.
  pub Holds-tail :
      (r : RingBuffer T) (q : List T) (x : T)
      → Holds r (x ∷ q)
      → Holds (record { head = r.head; tail = next_index n d r.tail; buf = r.buf }) q
  Holds-tail r q x h = record {
    slots = h.slots;
    tail_inside = index-lt n r.tail h.tail_inside 1;
    fits = omega (arith, h.fits);
    head_behind =
        h.head_behind
        ∙ ap (index n r.tail) (omega arith)
        ∙ sym (index-next n r.tail h.tail_inside (length q));
    content = λ i below.
        ap (λ t. get_or r.buf t d)
          (index-next n r.tail h.tail_inside i ∙ ap (index n r.tail) (omega arith))
        ∙ h.content (suc i) (omega arith);
  }

  pub empty_at : (r : RingBuffer T) (q : List T) → Holds r q → (r.tail == r.head) ≡ true → q ≡ []
  empty_at r [] h e = refl
  empty_at r (x ∷ q) h e = absurd (
      index-injective n r.tail h.tail_inside 0 (length (x ∷ q)) (omega arith) h.fits
        (index-zero n r.tail h.tail_inside ∙ (==_iff r.tail r.head).0 e ∙ h.head_behind))

  pub some_at :
      (r : RingBuffer T) (q : List T) → Holds r q → (r.tail == r.head) ≡ false → 0 < length q
  some_at r [] h e = absurd (ground (arith, e, h.head_behind ∙ index-zero n r.tail h.tail_inside))
  some_at r (x ∷ q) h e = omega arith
