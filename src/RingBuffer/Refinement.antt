-- ===== src/RingBuffer/Refinement.antt =====
-- Runs of `RingBuffer` under every interleaving of its two threads.
use native.Mathlib.Nat.{add-mod_right, mod-eq_of_lt}
use cpp_meet.Common.{
  ℕ, ◌+◌, ◌-◌, ◌%◌, ◌^◌, ◌≤◌, ◌<◌, ◌≡◌, ap, sym, ◌∙◌, List, [], ◌∷◌, ◌++◌, arith, inl, inr, length,
  length-append, length-replicate,
}
use cpp_meet.RingBuffer.{
  Event, Move, RingBuffer, World, consume, new_world, produce, run, size, step,
}
use cpp_meet.RingBuffer.Content.{Holds}
use cpp_meet.RingBuffer.Queue.{QueueRun, QueueRun-append, QueueRun-items, idle, items_in, items_out}
use cpp_meet.RingBuffer.Simulation.{Simulates, consume_simulated, produce_simulated}
use cpp_meet.RingBuffer.Wrap.{index-zero, wrap_cases}

module _ {ℓ} {T : Type ℓ} (n : ℕ) (d : T) where
  -- Where a run ends, and which run of the queue it is.
  abbrev Ends : List T → World T × List (Event T) → Type ℓ
  Ends q t = (q_next : List T) × (QueueRun n q t.1 q_next) × (Simulates n d t.0 q_next)

  step-Ends : (w : World T) (q : List T) → Simulates n d w q → (m : Move T) → Ends q (step n d w m)
  unfolding step
  step-Ends w q s (produce x) =
      produce_simulated n d w.ring q w.consumer s.holds s.item w.producer x s.place
  step-Ends w q s consume =
      consume_simulated n d w.ring w.producer q w.consumer s.holds s.place s.item

  run-Ends :
      (w : World T) (q : List T) → Simulates n d w q → (ms : List (Move T)) → Ends q (run n d w ms)
  unfolding run
  run-Ends w q s [] = (q, idle, s)
  run-Ends w q s (m ∷ ms) =
      let (q_next, events, s_next) = step-Ends w q s m in
      let (q_last, later, s_last) = run-Ends (step n d w m).0 q_next s_next ms in
      (q_last, QueueRun-append n events later, s_last)

  new_world-Simulates : 0 < n → Simulates n d (new_world n d) []
  new_world-Simulates some_slots = record {
    holds = record {
      slots = length-replicate n d;
      tail_inside = some_slots;
      fits = some_slots;
      head_behind = sym (index-zero n 0 some_slots);
      content = λ i below. absurd (omega arith);
    };
    place = tt;
    item = tt;
  }

  size_of : (r : RingBuffer T) (q : List T) → n + n ≤ 2 ^ 64 → Holds n d r q → size n d r ≡ length q
  size_of r q small h =
      elim (wrap_cases n (r.tail + length q) (omega (arith, h.tail_inside, h.fits))) [
        | inl (low, e) ↦
            let front : r.head ≡ r.tail + length q = h.head_behind ∙ e in
            let sum : ((r.head + (2 ^ 64 - r.tail)) % 2 ^ 64 + n) % 2 ^ 64 ≡ length q + n =
              omega (arith, front, h.fits, h.tail_inside) in
            ap (λ x. x % n) sum ∙ add-mod_right (length q) n ∙ mod-eq_of_lt h.fits
        | inr (high, e) ↦
            let front : r.head ≡ r.tail + length q - n = h.head_behind ∙ e in
            let sum : ((r.head + (2 ^ 64 - r.tail)) % 2 ^ 64 + n) % 2 ^ 64 ≡ length q =
              omega (arith, front, h.fits, h.tail_inside) in
            ap (λ x. x % n) sum ∙ mod-eq_of_lt h.fits
      ]

  module _ (some_slots : 0 < n) (ms : List (Move T)) where
    abbrev last : World T × List (Event T)
    last = run n d (new_world n d) ms

    -- What the calls of `push` and `pop` return, in any interleaving of their steps on a new ring of
    -- at least one slot, is a run of the queue of one item fewer than slots: `push` fails exactly on a
    -- full queue and `pop` on an empty one, and `pop` gives the oldest item.
    pub run-QueueRun : (q : List T) × QueueRun n [] last.1 q
    run-QueueRun =
        let (q, r, _) = run-Ends (new_world n d) [] (new_world-Simulates some_slots) ms in (q, r)

    -- In any interleaving on a new ring of at least one slot, the items pushed so far are those popped
    -- so far followed by fewer items than there are slots.
    pub run_in_order : (q : List T) × (items_in last.1 ≡ items_out last.1 ++ q) × (length q < n)
    run_in_order =
        let (q, r, s) = run-Ends (new_world n d) [] (new_world-Simulates some_slots) ms in
        (q, QueueRun-items n r, s.holds.fits)

    -- Between any two steps, `size` is the number of items pushed and not yet popped, on a ring of at
    -- least one slot and at most 2 ^ 63.
    pub size-run :
        n + n ≤ 2 ^ 64 → length (items_in last.1) ≡ length (items_out last.1) + size n d last.0.ring
    size-run small =
        let (q, r, s) = run-Ends (new_world n d) [] (new_world-Simulates some_slots) ms in
        ap length (QueueRun-items n r)
        ∙ length-append (items_out last.1) q
        ∙ ap (λ k. length (items_out last.1) + k) (sym (size_of last.0.ring q small s.holds))
