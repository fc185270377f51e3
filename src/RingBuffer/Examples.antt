-- ===== src/RingBuffer/Examples.antt =====
-- A ring of four slots under an interleaving in which it fills and wraps.
use cpp_meet.Common.{ℕ, ◌<◌, ◌≡◌, refl, List, [], ◌∷◌, ◌++◌, arith, length}
use cpp_meet.RingBuffer.{
  Event, Move, World, consume, new_world, pop_step, popped, produce, push_step, pushed, run, step,
  was_full,
}
use cpp_meet.RingBuffer.Queue.{QueueRun, items_in, items_out}
use cpp_meet.RingBuffer.Refinement.{run-QueueRun, run_in_order}

abbrev start : World ℕ
start = new_world 4 0

abbrev push_all : ℕ → List (Move ℕ)
push_all x = produce x ∷ produce x ∷ produce x ∷ []

-- Three items go in, a fourth does not; the consumer takes one while the producer tries again.
abbrev moves : List (Move ℕ)
moves =
    push_all 10
    ++ push_all 11
    ++ push_all 12
    ++ (produce 13
        ∷ consume
        ∷ consume
        ∷ produce 13
        ∷ consume
        ∷ produce 13
        ∷ consume
        ∷ produce 13
        ∷ produce 13
        ∷ consume
        ∷ [])

abbrev events : List (Event ℕ)
events = pushed 10 ∷ pushed 11 ∷ pushed 12 ∷ was_full ∷ was_full ∷ popped 10 ∷ pushed 13 ∷ []

run-events : (run 4 0 start moves).1 ≡ events
unfolding run step push_step pop_step
run-events = refl

run-QueueRun_example : (q : List ℕ) × QueueRun 4 [] (run 4 0 start moves).1 q
run-QueueRun_example = run-QueueRun 4 0 (omega arith) moves

run_in_order_example :
    (q : List ℕ) × (items_in (run 4 0 start moves).1 ≡ items_out (run 4 0 start moves).1 ++ q)
    × (length q < 4)
run_in_order_example = run_in_order 4 0 (omega arith) moves
