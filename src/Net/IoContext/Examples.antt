-- ===== src/Net/IoContext/Examples.antt =====
-- Witnesses on a context with two descriptors; a callback unregisters the descriptor 7, or stops the loop.
use cpp_meet.Common.{ℕ, ◌+◌, ◌≡◌, ◌≢◌, refl, true, false, none, List, [], ◌∷◌, ◌++◌, All, arith}
use cpp_meet.Common.Keys.{erase, lookup, nat_eq, lookup-erase}
use cpp_meet.Net.IoContext.{
  IoContext, ready, interrupted, Happening, woken, stopped, run, unregister_fd, stop, dispatch,
  loop, round,
}
use cpp_meet.Net.IoContext.Dispatch.{run-stop, run-stop_unheard, unregister_silent}

data Callback : Type 0 where
  counts : Callback
  unregisters : ℕ → Callback
  stops : Callback

-- The world is the number of calls.
abbrev call : Callback → ℕ → ℕ → IoContext Callback × ℕ → IoContext Callback × ℕ
call counts fd events (io, n) = (io, n + 1)
call (unregisters k) fd events (io, n) = (unregister_fd k io, n + 1)
call stops fd events (io, n) = (stop io, n + 1)

abbrev context : IoContext Callback
context = record {
  epoll_fd = 3;
  event_fd = 4;
  running = false;
  callbacks = (5, unregisters 7) ∷ (6, stops) ∷ (7, counts) ∷ [];
}

abbrev happenings : List Happening
happenings =
    woken interrupted
    ∷ woken (ready ((7, 1) ∷ (5, 1) ∷ (7, 1) ∷ (4, 1) ∷ []))
    ∷ woken (ready ((6, 1) ∷ (9, 1) ∷ []))
    ∷ woken interrupted
    ∷ []

-- The second event of descriptor 7 finds no callback; behind the stop, nothing is read.
run_calls : (run call happenings (context, 0)).1.1 ≡ (7, 1) ∷ (5, 1) ∷ (6, 1) ∷ []
unfolding run loop round dispatch lookup unregister_fd erase stop
run_calls = refl

call_keeps :
    (cb : Callback) (k events : ℕ) (s : IoContext Callback × ℕ)
    → lookup 7 s.0.callbacks ≡ none
    → lookup 7 (call cb k events s).0.callbacks ≡ none
unfolding unregister_fd stop
call_keeps counts k events s h = h
call_keeps (unregisters j) k events s h = ground (arith, lookup-erase j 7 s.0.callbacks)
call_keeps stops k events s h = h

call_stays :
    (cb : Callback) (k events : ℕ) (s : IoContext Callback × ℕ)
    → s.0.running ≡ false
    → (call cb k events s).0.running ≡ false
unfolding unregister_fd stop
call_stays counts k events s h = h
call_stays (unregisters j) k events s h = h
call_stays stops k events s h = refl

unregister_silent_example :
    All (λ e. e.0 ≢ 7) (run call happenings (unregister_fd 7 context, 0)).1.1
unregister_silent_example = unregister_silent call 7 call_keeps happenings context 0

run-stop_example :
    (run call
      ((woken (ready ((7, 1) ∷ [])) ∷ []) ++ (stopped ∷ woken interrupted ∷ happenings))
      (context, 0)).0
    ≡ true
run-stop_example =
    run-stop call call_stays (woken (ready ((7, 1) ∷ [])) ∷ []) happenings interrupted (context, 0)

-- Callbacks that only count.
abbrev quiet : Callback → ℕ → ℕ → IoContext Callback × ℕ → IoContext Callback × ℕ
quiet cb fd events (io, n) = (io, n + 1)

run-stop_unheard_example :
    (run quiet (woken (ready ((4, 1) ∷ (7, 1) ∷ [])) ∷ woken interrupted ∷ []) (stop context, 0)).0
    ≡ false
run-stop_unheard_example =
    run-stop_unheard quiet (λ cb k events s h. h)
      (woken (ready ((4, 1) ∷ (7, 1) ∷ [])) ∷ woken interrupted ∷ []) context 0 (tt, (tt, tt))
