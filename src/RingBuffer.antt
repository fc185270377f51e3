-- ===== src/RingBuffer.antt =====
-- `RingBuffer` of module01_network_core/include/net/ring_buffer.h: a queue of one producer and one
-- consumer. Each method is cut into the steps between which the other thread can run: the load of the
-- other side's index, the access to the slot, and the store of its own index. Loads see the last store.
-- `& (N - 1)` is `% n`, as N is a power of two.
pub mod Wrap
pub mod Queue
pub mod Content
pub mod Simulation
pub mod Refinement
pub mod Progress
mod Examples
use cpp_meet.Common.{
  ℕ, zero, suc, ◌+◌, ◌-◌, ◌%◌, ◌^◌, Bool, true, false, List, [], ◌∷◌, ◌++◌, ◌==◌, if◌then◌else◌,
  get_or, set, replicate,
}

module _ {ℓ} where
  pub record RingBuffer (T : Type ℓ) : Type ℓ where
    pub head : ℕ
    pub tail : ℕ
    pub buf : List T

  -- Where the producer stands in `push`: outside, behind the test, or behind the write of the slot.
  pub data Producer (T : Type ℓ) : Type ℓ where
    p_ready : Producer T
    p_checked : ℕ → T → Producer T
    p_written : ℕ → T → Producer T

  -- Where the consumer stands in `pop`: outside, behind the test, or behind the read of the slot.
  pub data Consumer (T : Type ℓ) : Type ℓ where
    c_ready : Consumer T
    c_checked : ℕ → Consumer T
    c_read : ℕ → T → Consumer T

  -- What the calls return.
  pub data Event (T : Type ℓ) : Type ℓ where
    pushed : T → Event T
    was_full : Event T
    popped : T → Event T
    was_empty : Event T

  pub record World (T : Type ℓ) : Type ℓ where
    pub ring : RingBuffer T
    pub producer : Producer T
    pub consumer : Consumer T

  -- The next step of a thread; the item is what the producer would push if it starts a call.
  pub data Move (T : Type ℓ) : Type ℓ where
    produce : T → Move T
    consume : Move T

-- The buffer has `n` slots, which hold `d` at first.
module _ {ℓ} {T : Type ℓ} (n : ℕ) (d : T) where
  abbrev pub new_ring : RingBuffer T
  new_ring = record { head = 0; tail = 0; buf = replicate n d }

  abbrev pub new_world : World T
  new_world = record { ring = new_ring; producer = p_ready; consumer = c_ready }

  abbrev pub next_index : ℕ → ℕ
  next_index h = (h + 1) % n

  unfoldable pub push_step :
      RingBuffer T → Producer T → T → RingBuffer T × Producer T × List (Event T)
  push_step r p_ready item =
      if next_index r.head == r.tail
      then (r, p_ready, was_full ∷ [])
      else (r, p_checked r.head item, [])
  push_step r (p_checked h item) _ =
      (record { head = r.head; tail = r.tail; buf = set r.buf h item }, p_written h item, [])
  push_step r (p_written h item) _ =
      (record { head = next_index h; tail = r.tail; buf = r.buf }, p_ready, pushed item ∷ [])

  unfoldable pub pop_step : RingBuffer T → Consumer T → RingBuffer T × Consumer T × List (Event T)
  pop_step r c_ready =
      if r.tail == r.head then (r, c_ready, was_empty ∷ []) else (r, c_checked r.tail, [])
  pop_step r (c_checked t) = (r, c_read t (get_or r.buf t d), [])
  pop_step r (c_read t item) =
      (record { head = r.head; tail = next_index t; buf = r.buf }, c_ready, popped item ∷ [])

  unfoldable pub step : World T → Move T → World T × List (Event T)
  step w (produce item) =
      let (r, p, events) = push_step w.ring w.producer item in
      (record { ring = r; producer = p; consumer = w.consumer }, events)
  step w consume =
      let (r, c, events) = pop_step w.ring w.consumer in
      (record { ring = r; producer = w.producer; consumer = c }, events)

  -- An interleaving, and what its calls return in order.
  unfoldable pub run : World T → List (Move T) → World T × List (Event T)
  run w [] = (w, [])
  run w (m ∷ ms) =
      let (w_next, events) = step w m in
      let (w_last, later) = run w_next ms in (w_last, events ++ later)

  abbrev pub empty : RingBuffer T → Bool
  empty r = r.head == r.tail

  abbrev pub full : RingBuffer T → Bool
  full r = next_index r.head == r.tail

  -- `h - t + N` as a `size_t`.
  abbrev pub size : RingBuffer T → ℕ
  size r = ((r.head + (2 ^ 64 - r.tail)) % 2 ^ 64 + n) % 2 ^ 64 % n
