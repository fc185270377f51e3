-- ===== src/RingBuffer/Simulation.antt =====
-- One step of `push` or of `pop` beside a bounded queue: an item enters the queue when `head_` is stored
-- and leaves it when `tail_` is stored.
use mathlib.Core.Path.{subst}
use cpp_meet.Common.{
  ℕ, ◌+◌, ◌≤◌, ◌<◌, ◌≡◌, refl, ap, sym, ◌∙◌, List, [], ◌∷◌, ◌++◌, ◌==◌, arith, length, get_or, set,
  length-append, get_or-append_lt, get_or-set_self, if_elim,
}
use cpp_meet.RingBuffer.{
  Consumer, Event, Producer, RingBuffer, World, c_checked, c_read, c_ready, next_index, p_checked,
  p_ready, p_written, pop_step, push_step, was_empty, was_full,
}
use cpp_meet.RingBuffer.Content.{
  Holds, Holds-append, Holds-set, Holds-tail, empty_at, full_at, head_inside, room_at, some_at,
}
use cpp_meet.RingBuffer.Queue.{QueueRun, idle, took}
use cpp_meet.RingBuffer.Wrap.{index-zero}

module _ {ℓ} {T : Type ℓ} (n : ℕ) (d : T) where
  -- What a producer in the middle of a call knows of the ring and the queue.
  abbrev KnowsPlace : RingBuffer T → Producer T → List T → Type ℓ
  KnowsPlace r p_ready q = Unit {ℓ}
  KnowsPlace r (p_checked h x) q = (h ≡ r.head) × (length q + 1 < n) × Unit {ℓ}
  KnowsPlace r (p_written h x) q = (h ≡ r.head) × (length q + 1 < n) × (get_or r.buf h d ≡ x)

  abbrev KnowsItem : RingBuffer T → Consumer T → List T → Type ℓ
  KnowsItem r c_ready q = Unit {ℓ}
  KnowsItem r (c_checked t) q = (t ≡ r.tail) × (0 < length q) × Unit {ℓ}
  KnowsItem r (c_read t x) q = (t ≡ r.tail) × (0 < length q) × (x ≡ get_or q 0 d)

  pub record Simulates (w : World T) (q : List T) : Type ℓ where
    pub holds : Holds n d w.ring q
    pub place : KnowsPlace w.ring w.producer q
    pub item : KnowsItem w.ring w.consumer q

  -- What the consumer knows stays true while the producer runs.
  KnowsItem-kept :
      (r r_next : RingBuffer T) (q q_next : List T) (c : Consumer T)
      → r_next.tail ≡ r.tail
      → length q ≤ length q_next
      → (0 < length q → get_or q_next 0 d ≡ get_or q 0 d)
      → KnowsItem r c q
      → KnowsItem r_next c q_next
  KnowsItem-kept r r_next q q_next c_ready e more same i = tt
  KnowsItem-kept r r_next q q_next (c_checked t) e more same (at, left, _) =
      (at ∙ sym e, omega arith, tt)
  KnowsItem-kept r r_next q q_next (c_read t x) e more same (at, left, value) =
      (at ∙ sym e, omega arith, value ∙ sym (same left))

  -- What the producer knows stays true while the consumer runs.
  KnowsPlace-kept :
      (r : RingBuffer T) (t : ℕ) (q q_next : List T) (p : Producer T)
      → length q_next ≤ length q
      → KnowsPlace r p q
      → KnowsPlace (record { head = r.head; tail = t; buf = r.buf }) p q_next
  KnowsPlace-kept r t q q_next p_ready less k = tt
  KnowsPlace-kept r t q q_next (p_checked h x) less (at, room, _) = (at, omega arith, tt)
  KnowsPlace-kept r t q q_next (p_written h x) less (at, room, stored) = (at, omega arith, stored)

  -- A step of the producer: what it returns is a run of the queue, and the consumer notices nothing.
  module _ (r : RingBuffer T) (q : List T) (c : Consumer T) (h : Holds n d r q)
      (i : KnowsItem r c q) where
    abbrev After : RingBuffer T × Producer T × List (Event T) → Type ℓ
    After t =
        (q_next : List T) × (QueueRun n q t.2 q_next)
        × (Simulates (record { ring = t.0; producer = t.1; consumer = c }) q_next)

    pub produce_simulated :
        (p : Producer T) (x : T) → KnowsPlace r p q → After (push_step n d r p x)
    unfolding push_step
    produce_simulated p_ready x k =
        if_elim After (next_index n d r.head == r.tail) (r, p_ready, was_full ∷ [])
          (r, p_checked r.head x, [])
          (λ e.
            (q, took (full_at n d r q h e, refl) idle, record { holds = h; place = tt; item = i }))
          (λ e. (q, idle, record { holds = h; place = (refl, room_at n d r q h e, tt); item = i }))
    produce_simulated (p_checked hd y) x (e, room, _) = (
      q,
      idle,
      record {
        holds =
            subst (λ t. Holds n d (record { head = r.head; tail = r.tail; buf = set r.buf t y }) q)
              (sym e) (Holds-set n d r q y h);
        place = (e, room, get_or-set_self r.buf hd y d (omega (arith, e, head_inside n d r q h)));
        item =
            KnowsItem-kept r (record { head = r.head; tail = r.tail; buf = set r.buf hd y }) q q c
              refl (omega arith) (λ left. refl) i;
      },
    )
    produce_simulated (p_written hd y) x (e, room, stored) = (
      q ++ (y ∷ []),
      took (room, refl) idle,
      record {
        holds =
            subst
              (λ t.
                Holds n d (record { head = next_index n d t; tail = r.tail; buf = r.buf })
                  (q ++ (y ∷ [])))
              (sym e) (Holds-append n d r q y h room (ap (λ t. get_or r.buf t d) (sym e) ∙ stored));
        place = tt;
        item =
            KnowsItem-kept r (record { head = next_index n d hd; tail = r.tail; buf = r.buf }) q
              (q ++ (y ∷ [])) c refl (omega (arith, length-append q (y ∷ [])))
              (λ left. get_or-append_lt q (y ∷ []) 0 d left) i;
      },
    )

  -- A step of the consumer.
  module _ (r : RingBuffer T) (p : Producer T) where
    abbrev AfterPop : List T → RingBuffer T × Consumer T × List (Event T) → Type ℓ
    AfterPop q t =
        (q_next : List T) × (QueueRun n q t.2 q_next)
        × (Simulates (record { ring = t.0; producer = p; consumer = t.1 }) q_next)

    pub consume_simulated :
        (q : List T) (c : Consumer T)
        → Holds n d r q
        → KnowsPlace r p q
        → KnowsItem r c q
        → AfterPop q (pop_step n d r c)
    unfolding pop_step
    consume_simulated q c_ready h k i =
        if_elim (AfterPop q) (r.tail == r.head) (r, c_ready, was_empty ∷ [])
          (r, c_checked r.tail, [])
          (λ e.
            (q, took (empty_at n d r q h e, refl) idle, record { holds = h; place = k; item = tt }))
          (λ e. (q, idle, record { holds = h; place = k; item = (refl, some_at n d r q h e, tt) }))
    consume_simulated q (c_checked t) h k (at, left, _) =
        let value : get_or r.buf t d ≡ get_or q 0 d =
          ap (λ j. get_or r.buf j d) (at ∙ sym (index-zero n r.tail h.tail_inside))
          ∙ h.content 0 left in
        (q, idle, record { holds = h; place = k; item = (at, left, value) })
    consume_simulated [] (c_read t x) h k (at, left, value) = absurd (omega arith)
    consume_simulated (y ∷ q) (c_read t x) h k (at, left, value) = (
      q,
      took (ap (λ z. z ∷ q) (sym value)) idle,
      record {
        holds =
            subst
              (λ j. Holds n d (record { head = r.head; tail = next_index n d j; buf = r.buf }) q)
              (sym at) (Holds-tail n d r q y h);
        place = KnowsPlace-kept r (next_index n d t) (y ∷ q) q p (omega arith) k;
        item = tt;
      },
    )
