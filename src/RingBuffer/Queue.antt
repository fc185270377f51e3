-- ===== src/RingBuffer/Queue.antt =====
-- The bounded queue that `RingBuffer` promises, by what its calls return.
use cpp_meet.Common.{
  ℕ, ◌+◌, ◌<◌, ◌≡◌, ap, sym, ◌∙◌, List, [], ◌∷◌, ◌++◌, length, append-nil, append_assoc,
}
use cpp_meet.RingBuffer.{Event, popped, pushed, was_empty, was_full}

module _ {ℓ} {T : Type ℓ} where
  -- The bounded queue of `n - 1` items: what a call may return, and what it leaves.
  abbrev pub QueueStep : ℕ → List T → Event T → List T → Type ℓ
  QueueStep n q (pushed x) q_next = (length q + 1 < n) × (q_next ≡ q ++ (x ∷ []))
  QueueStep n q was_full q_next = (length q + 1 ≡ n) × (q_next ≡ q)
  QueueStep n q (popped x) q_next = q ≡ x ∷ q_next
  QueueStep n q was_empty q_next = (q ≡ []) × (q_next ≡ q)

  pub data QueueRun (n : ℕ) : List T → List (Event T) → List T → Type ℓ where
    idle : {q : List T} → QueueRun n q [] q
    took :
        {q q_next q_last : List T} {e : Event T} {es : List (Event T)}
        → QueueStep n q e q_next
        → QueueRun n q_next es q_last
        → QueueRun n q (e ∷ es) q_last

  pub QueueRun-append :
      (n : ℕ) {q q_next q_last : List T} {es fs : List (Event T)}
      → QueueRun n q es q_next
      → QueueRun n q_next fs q_last
      → QueueRun n q (es ++ fs) q_last
  QueueRun-append n idle later = later
  QueueRun-append n (took s run) later = took s (QueueRun-append n run later)

  -- The items that went in, and those that came out.
  abbrev pub items_in : List (Event T) → List T
  items_in [] = []
  items_in (pushed x ∷ es) = x ∷ items_in es
  items_in (was_full ∷ es) = items_in es
  items_in (popped x ∷ es) = items_in es
  items_in (was_empty ∷ es) = items_in es

  abbrev pub items_out : List (Event T) → List T
  items_out [] = []
  items_out (pushed x ∷ es) = items_out es
  items_out (was_full ∷ es) = items_out es
  items_out (popped x ∷ es) = x ∷ items_out es
  items_out (was_empty ∷ es) = items_out es

  -- What comes out is what went in, in the same order, and the rest is in the queue.
  pub QueueRun-items :
      (n : ℕ) {q q_last : List T} {es : List (Event T)}
      → QueueRun n q es q_last
      → q ++ items_in es ≡ items_out es ++ q_last
  QueueRun-items n idle = append-nil _
  QueueRun-items n (took {q = q} {e = pushed x} {es = es} s run) =
      sym (append_assoc q (x ∷ []) (items_in es))
      ∙ ap (λ t. t ++ items_in es) (sym s.1)
      ∙ QueueRun-items n run
  QueueRun-items n (took {e = was_full} {es = es} s run) =
      ap (λ t. t ++ items_in es) (sym s.1) ∙ QueueRun-items n run
  QueueRun-items n (took {e = popped x} {es = es} s run) =
      ap (λ t. t ++ items_in es) s ∙ ap (λ t. x ∷ t) (QueueRun-items n run)
  QueueRun-items n (took {e = was_empty} {es = es} s run) =
      ap (λ t. t ++ items_in es) (sym s.1) ∙ QueueRun-items n run
