-- ===== src/Net/IoContext.antt =====
-- `IoContext` of module01_network_core/src/io_context.cpp and include/net/io_context.h. What the kernel's
-- calls give is an argument, a descriptor where they succeed. Callbacks are of any type; what a callback
-- does to the context and to the world around it is the parameter `call`, and callbacks do not throw. A callback that
-- unregisters its own descriptor destroys the function that runs; here it is a value and goes on.
pub mod Dispatch
mod Examples
use cpp_meet.Common.{
  ℕ, Bool, true, false, Option, none, some, List, [], ◌∷◌, ◌++◌, ◌==◌, if◌then◌else◌,
}
use cpp_meet.Common.Keys.{erase, insert, lookup, nat_eq}

pub record IoContext (C : Type 0) : Type 0 where
  pub epoll_fd : ℕ
  pub event_fd : ℕ
  pub running : Bool
  pub callbacks : List (ℕ × C)

-- A result of `epoll_wait`, the pairs being descriptors with their events.
pub data Wait : Type 0 where
  interrupted : Wait
  failed : Wait
  ready : List (ℕ × ℕ) → Wait

-- What happens to a thread in `epoll_wait`: it returns, or another thread calls `stop`.
pub data Happening : Type 0 where
  woken : Wait → Happening
  stopped : Happening

module _ {C : Type 0} where
  -- The constructor with the descriptors that it closes; without a context it throws.
  unfoldable pub new_context : C → Option ℕ → Option ℕ → Bool → Option (IoContext C) × List ℕ
  new_context no_op none event_fd added = (none, [])
  new_context no_op (some epoll_fd) none added = (none, epoll_fd ∷ [])
  new_context no_op (some epoll_fd) (some event_fd) false = (none, event_fd ∷ epoll_fd ∷ [])
  new_context no_op (some epoll_fd) (some event_fd) true = (
    some (record {
      epoll_fd = epoll_fd;
      event_fd = event_fd;
      running = false;
      callbacks = (event_fd, no_op) ∷ [];
    }),
    [],
  )

  -- The descriptors that the destructor closes.
  unfoldable pub destroy : IoContext C → List ℕ
  destroy io = io.event_fd ∷ io.epoll_fd ∷ []

  -- `none` is the exception where `epoll_ctl` fails.
  unfoldable pub register_fd : Bool → ℕ → C → IoContext C → Option (IoContext C)
  register_fd false fd cb io = none
  register_fd true fd cb io = some (record io { callbacks = insert fd cb io.callbacks })

  unfoldable pub unregister_fd : ℕ → IoContext C → IoContext C
  unregister_fd fd io = record io { callbacks = erase fd io.callbacks }

  unfoldable pub stop : IoContext C → IoContext C
  stop io = record io { running = false }

module _ {C W : Type 0} (call : C → ℕ → ℕ → IoContext C × W → IoContext C × W) where
  -- The inner loop of `run`, with the calls that it makes.
  unfoldable pub dispatch : List (ℕ × ℕ) → IoContext C × W → (IoContext C × W) × List (ℕ × ℕ)
  dispatch [] s = (s, [])
  dispatch ((fd, events) ∷ rest) s =
      let skipped = dispatch rest s in
      if fd == s.0.event_fd then skipped else elim (lookup fd s.0.callbacks) [
        | none ↦ skipped
        | some cb ↦
            let (t, calls) = dispatch rest (call cb fd events s) in (t, (fd, events) ∷ calls)
      ]

  -- One round of the outer loop behind `epoll_wait`; `none` leaves the loop.
  unfoldable pub round : Wait → IoContext C × W → Option ((IoContext C × W) × List (ℕ × ℕ))
  round interrupted s = some (s, [])
  round failed s = none
  round (ready events) s = some (dispatch events s)

  -- The thread in `epoll_wait`: whether `run` has returned behind what happens, the state, and the calls.
  unfoldable pub loop : List Happening → IoContext C × W → Bool × ((IoContext C × W) × List (ℕ × ℕ))
  loop [] s = (false, (s, []))
  loop (stopped ∷ later) s = loop later (stop s.0, s.1)
  loop (woken w ∷ later) s = elim (round w s) [
    | none ↦ (true, (s, []))
    | some (t, calls) ↦
        let (finished, (u, more)) = loop later t in
        if t.0.running then (finished, (u, calls ++ more)) else (true, (t, calls))
  ]

  unfoldable pub run : List Happening → IoContext C × W → Bool × ((IoContext C × W) × List (ℕ × ℕ))
  run happenings s = loop happenings (record s.0 { running = true }, s.1)
