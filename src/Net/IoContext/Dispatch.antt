-- ===== src/Net/IoContext/Dispatch.antt =====
-- Which callbacks `run` calls, and when it returns.
use cpp_meet.Common.{
  ℕ, ◌≡◌, ◌≢◌, refl, sym, ap, ◌∙◌, Bool, true, false, Option, none, some, List, [], ◌∷◌, ◌++◌, ◌==◌,
  if_elim, All, All-append,
}
use cpp_meet.Common.Keys.{lookup, nat_eq, lookup-erase_self}
use cpp_meet.Net.IoContext.{
  IoContext, Wait, interrupted, failed, ready, Happening, woken, stopped, dispatch, loop, round,
  run, stop, unregister_fd,
}

module _ {C W : Type 0} (call : C → ℕ → ℕ → IoContext C × W → IoContext C × W) where
  -- What every call keeps, a batch keeps.
  dispatch_keeps :
      (P : IoContext C × W → Type 0)
      → ((cb : C) (fd events : ℕ) (s : IoContext C × W) → P s → P (call cb fd events s))
      → (batch : List (ℕ × ℕ)) (s : IoContext C × W) → P s
      → P (dispatch call batch s).0
  unfolding dispatch
  dispatch_keeps P keep [] s h = h
  dispatch_keeps P keep ((fd, events) ∷ rest) s h =
      if_elim (λ r. P r.0) (fd == s.0.event_fd) (dispatch call rest s) _
        (λ e. dispatch_keeps P keep rest s h)
        (λ e.
          found (lookup fd s.0.callbacks) (dispatch_keeps P keep rest s h)
            (λ cb. dispatch_keeps P keep rest (call cb fd events s) (keep cb fd events s h)))
    where
      found :
          (o : Option C)
          → P (dispatch call rest s).0
          → ((cb : C) → P (dispatch call rest (call cb fd events s)).0)
          → P
              (elim o as (λ _. (IoContext C × W) × List (ℕ × ℕ)) [
                | none ↦ dispatch call rest s
                | some cb ↦
                    let (t, calls) = dispatch call rest (call cb fd events s) in
                    (t, (fd, events) ∷ calls)
              ]).0
      found none a b = a
      found (some cb) a b = b cb

  -- A descriptor without a callback.
  abbrev IsAbsent : ℕ → IoContext C × W → Type 0
  IsAbsent fd s = lookup fd s.0.callbacks ≡ none

  abbrev AreOther : ℕ → List (ℕ × ℕ) → Type 0
  AreOther fd calls = All (λ e. e.0 ≢ fd) calls

  dispatch_silent :
      (fd : ℕ)
      → ((cb : C) (k events : ℕ) (s : IoContext C × W)
          → IsAbsent fd s
          → IsAbsent fd (call cb k events s))
      → (batch : List (ℕ × ℕ)) (s : IoContext C × W) → IsAbsent fd s
      → AreOther fd (dispatch call batch s).1
  unfolding dispatch
  dispatch_silent fd keep [] s h = tt
  dispatch_silent fd keep ((k, events) ∷ rest) s h =
      if_elim (λ r. AreOther fd r.1) (k == s.0.event_fd) (dispatch call rest s) _
        (λ e. dispatch_silent fd keep rest s h)
        (λ e.
          found (lookup k s.0.callbacks) refl (dispatch_silent fd keep rest s h)
            (λ cb. dispatch_silent fd keep rest (call cb k events s) (keep cb k events s h)))
    where
      found :
          (o : Option C)
          → lookup k s.0.callbacks ≡ o
          → AreOther fd (dispatch call rest s).1
          → ((cb : C) → AreOther fd (dispatch call rest (call cb k events s)).1)
          → AreOther fd
              (elim o as (λ _. (IoContext C × W) × List (ℕ × ℕ)) [
                | none ↦ dispatch call rest s
                | some cb ↦
                    let (t, calls) = dispatch call rest (call cb k events s) in
                    (t, (k, events) ∷ calls)
              ]).1
      found none e a b = a
      found (some cb) e a b = (
        (λ same.
            let f : none ≡ some cb = sym h ∙ ap (λ i. lookup i s.0.callbacks) (sym same) ∙ e in
            absurd cc),
        b cb,
      )

  abbrev Result : Type 0
  Result = Bool × ((IoContext C × W) × List (ℕ × ℕ))

  loop_silent :
      (fd : ℕ)
      → ((cb : C) (k events : ℕ) (s : IoContext C × W)
          → IsAbsent fd s
          → IsAbsent fd (call cb k events s))
      → (happenings : List Happening) (s : IoContext C × W) → IsAbsent fd s
      → AreOther fd (loop call happenings s).1.1
  unfolding loop round stop
  loop_silent fd keep [] s h = tt
  loop_silent fd keep (stopped ∷ later) s h = loop_silent fd keep later (stop s.0, s.1) h
  loop_silent fd keep (woken failed ∷ later) s h = tt
  loop_silent fd keep (woken interrupted ∷ later) s h =
      if_elim {A = Result} (λ r. AreOther fd r.1.1) s.0.running (loop call later s) (true, (s, []))
        (λ e. loop_silent fd keep later s h) (λ e. tt)
  loop_silent fd keep (woken (ready batch) ∷ later) s h =
      let t = (dispatch call batch s).0 in
      let calls = (dispatch call batch s).1 in
      let now = dispatch_silent fd keep batch s h in
      let rest = loop call later t in
      if_elim {A = Result} (λ r. AreOther fd r.1.1) t.0.running
        (rest.0, (rest.1.0, calls ++ rest.1.1)) (true, (t, calls))
        (λ e.
          All-append (λ i. i.0 ≢ fd) calls rest.1.1 now
            (loop_silent fd keep later t (dispatch_keeps (IsAbsent fd) keep batch s h)))
        (λ e. now)

  -- Behind `unregister_fd` no callback of the descriptor is called by `run`, whatever happens in `epoll_wait`
  -- and also for events that were fetched before: if no callback registers the descriptor again.
  pub unregister_silent :
      (fd : ℕ)
      → ((cb : C) (k events : ℕ) (s : IoContext C × W)
          → lookup fd s.0.callbacks ≡ none
          → lookup fd (call cb k events s).0.callbacks ≡ none)
      → (happenings : List Happening) (io : IoContext C) (w : W)
      → All (λ e. e.0 ≢ fd) (run call happenings (unregister_fd fd io, w)).1.1
  unfolding run unregister_fd
  unregister_silent fd keep happenings io w =
      loop_silent fd keep happenings (record (unregister_fd fd io) { running = true }, w)
        (lookup-erase_self fd io.callbacks)

  stop_last :
      ((cb : C) (k events : ℕ) (s : IoContext C × W)
        → s.0.running ≡ false
        → (call cb k events s).0.running ≡ false)
      → (w : Wait) (later : List Happening) (s : IoContext C × W) → s.0.running ≡ false
      → (loop call (woken w ∷ later) s).0 ≡ true
  unfolding loop round
  stop_last keep failed later s h = refl
  stop_last keep interrupted later s h = rw h refl
  stop_last keep (ready batch) later s h =
      rw (dispatch_keeps (λ t. t.0.running ≡ false) keep batch s h) refl

  stop_ends :
      ((cb : C) (k events : ℕ) (s : IoContext C × W)
        → s.0.running ≡ false
        → (call cb k events s).0.running ≡ false)
      → (before later : List Happening) (w : Wait) (s : IoContext C × W)
      → (loop call (before ++ (stopped ∷ woken w ∷ later)) s).0 ≡ true
  unfolding loop round stop
  stop_ends keep [] later w s = stop_last keep w later (stop s.0, s.1) refl
  stop_ends keep (stopped ∷ before) later w s = stop_ends keep before later w (stop s.0, s.1)
  stop_ends keep (woken failed ∷ before) later w s = refl
  stop_ends keep (woken interrupted ∷ before) later w s =
      if_elim {A = Result} (λ r. r.0 ≡ true) s.0.running
        (loop call (before ++ (stopped ∷ woken w ∷ later)) s) (true, (s, []))
        (λ e. stop_ends keep before later w s) (λ e. refl)
  stop_ends keep (woken (ready batch) ∷ before) later w s =
      let t = (dispatch call batch s).0 in
      let rest = loop call (before ++ (stopped ∷ woken w ∷ later)) t in
      if_elim {A = Result} (λ r. r.0 ≡ true) t.0.running
        (rest.0, (rest.1.0, (dispatch call batch s).1 ++ rest.1.1))
        (true, (t, (dispatch call batch s).1)) (λ e. stop_ends keep before later w t) (λ e. refl)

  -- If no callback sets the flag that `stop` clears, then a `stop` during `run` ends it at the next return of
  -- `epoll_wait` at the latest, whatever that returns and whatever happened before.
  pub run-stop :
      ((cb : C) (k events : ℕ) (s : IoContext C × W)
        → s.0.running ≡ false
        → (call cb k events s).0.running ≡ false)
      → (before later : List Happening) (w : Wait) (s : IoContext C × W)
      → (run call (before ++ (stopped ∷ woken w ∷ later)) s).0 ≡ true
  unfolding run
  run-stop keep before later w s =
      stop_ends keep before later w (record s.0 { running = true }, s.1)

  -- `epoll_wait` returns without an error.
  abbrev pub IsQuiet : Happening → Type 0
  IsQuiet stopped = ⊥
  IsQuiet (woken interrupted) = Unit
  IsQuiet (woken failed) = ⊥
  IsQuiet (woken (ready batch)) = Unit

  still_running :
      ((cb : C) (k events : ℕ) (s : IoContext C × W)
        → s.0.running ≡ true
        → (call cb k events s).0.running ≡ true)
      → (happenings : List Happening) (s : IoContext C × W) → All IsQuiet happenings
      → s.0.running ≡ true
      → (loop call happenings s).0 ≡ false
  unfolding loop round
  still_running keep [] s q h = refl
  still_running keep (stopped ∷ later) s (q, qs) h = absurd q
  still_running keep (woken failed ∷ later) s (q, qs) h = absurd q
  still_running keep (woken interrupted ∷ later) s (q, qs) h =
      if_elim {A = Result} (λ r. r.0 ≡ false) s.0.running (loop call later s) (true, (s, []))
        (λ e. still_running keep later s qs h) (λ e. let f : true ≡ false = sym h ∙ e in absurd cc)
  still_running keep (woken (ready batch) ∷ later) s (q, qs) h =
      let kept = dispatch_keeps (λ t. t.0.running ≡ true) keep batch s h in
      let t = (dispatch call batch s).0 in
      let rest = loop call later t in
      if_elim {A = Result} (λ r. r.0 ≡ false) t.0.running
        (rest.0, (rest.1.0, (dispatch call batch s).1 ++ rest.1.1))
        (true, (t, (dispatch call batch s).1)) (λ e. still_running keep later t qs kept)
        (λ e. let f : true ≡ false = sym kept ∙ e in absurd cc)

  -- A `stop` that comes before the thread is in `run` is not heard: if no callback clears the flag, `epoll_wait`
  -- does not fail and `stop` is not called again, then `run` does not return.
  pub run-stop_unheard :
      ((cb : C) (k events : ℕ) (s : IoContext C × W)
        → s.0.running ≡ true
        → (call cb k events s).0.running ≡ true)
      → (happenings : List Happening) (io : IoContext C) (w : W) → All IsQuiet happenings
      → (run call happenings (stop io, w)).0 ≡ false
  unfolding run stop
  run-stop_unheard keep happenings io w q =
      still_running keep happenings (record (stop io) { running = true }, w) q refl
