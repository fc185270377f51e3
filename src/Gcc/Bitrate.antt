-- ===== src/Gcc/Bitrate.antt =====
-- The window and the estimate of `GccEstimator` over any sequence of packets.
use mathlib.Core.Path.{subst}
use cpp_meet.Common.Double.{Double}
use cpp_meet.Common.{
  ℕ, suc, ◌+◌, ◌-◌, ◌*◌, ◌%◌, ◌^◌, ◌≤◌, ◌<◌, ◌≡◌, refl, ap, List, [], ◌∷◌, ◌++◌, arith, ltb,
  if_elim, length, drop, length-append, length-drop, ltb→le,
}
use cpp_meet.Gcc.{
  GccEstimator, Sample, State, add_sample, arrivals, compute_trendline, decreased, new_estimator,
  next_bps, on_packet_arrival, renumber, state_of,
}

module _ (d : Double) where
  -- The product with 0.85 is at most the number, for every number that is not negative.
  abbrev pub IsDamped : Type 0
  IsDamped = (v : ℕ) → v < 2 ^ 63 → d.to_int64 (d.times (d.of_int64 v) (d.literal "0.85")) ≤ v

  -- The samples have their indices for x, from `i` on.
  abbrev pub IsNumbered : ℕ → List (Sample d) → Type 0
  IsNumbered i [] = Unit
  IsNumbered i ((x, y) ∷ samples) = (x ≡ d.of_int64 i) × IsNumbered (suc i) samples

  pub record IsWindow (samples : List (Sample d)) : Type 0 where
    pub numbered : IsNumbered 0 samples
    pub short : length samples ≤ 20

  renumber-IsNumbered : (i : ℕ) (samples : List (Sample d)) → IsNumbered i (renumber d i samples)
  unfolding renumber
  renumber-IsNumbered i [] = tt
  renumber-IsNumbered i ((x, y) ∷ samples) = (refl, renumber-IsNumbered (suc i) samples)

  length-renumber :
      (i : ℕ) (samples : List (Sample d)) → length (renumber d i samples) ≡ length samples
  unfolding renumber
  length-renumber i [] = refl
  length-renumber i ((x, y) ∷ samples) = ap suc (length-renumber (suc i) samples)

  append-IsNumbered :
      (i k : ℕ) (y : d.F) (samples : List (Sample d))
      → k ≡ i + length samples
      → IsNumbered i samples
      → IsNumbered i (samples ++ ((d.of_int64 k, y) ∷ []))
  append-IsNumbered i k y [] e h = (ap d.of_int64 (omega arith), tt)
  append-IsNumbered i k y ((x, z) ∷ samples) e (at, h) =
      (at, append-IsNumbered (suc i) k y samples (omega arith) h)

  add_sample-IsWindow :
      (samples : List (Sample d)) (send_time recv_time : ℕ)
      → IsWindow samples
      → IsWindow (add_sample d samples send_time recv_time)
  unfolding add_sample
  add_sample-IsWindow samples send_time recv_time h =
      let y = d.of_int64 ((recv_time + (2 ^ 64 - send_time)) % 2 ^ 64) in
      let longer = samples ++ ((d.of_int64 (length samples), y) ∷ []) in
      let size : length longer ≡ length samples + 1 = length-append samples _ in
      if_elim IsWindow (ltb 20 (length longer)) (renumber d 0 (drop 1 longer)) longer
        (λ e. record {
          numbered = renumber-IsNumbered 0 (drop 1 longer);
          short =
              omega (arith, length-renumber 0 (drop 1 longer), length-drop 1 longer, size, h.short);
        })
        (λ e. record {
          numbered = append-IsNumbered 0 (length samples) y samples (omega arith) h.numbered;
          short = ltb→le 20 (length longer) e;
        })

  -- What holds of the estimator after `n` packets.
  pub record IsEstimate (n : ℕ) (e : GccEstimator d) : Type 0 where
    pub window : IsWindow e.trendline_buf
    pub floor : 50000 ≤ e.estimated_bps
    pub ceiling : e.estimated_bps ≤ 1000000 + 100000 * n

  module _ (damped : IsDamped) where
    decreased_bounds :
        (bps : ℕ) → 50000 ≤ bps → bps < 2 ^ 63 → (50000 ≤ decreased d bps) × (decreased d bps ≤ bps)
    unfolding decreased
    decreased_bounds bps low high = ground (arith, damped bps high)

    next_bps_bounds :
        (prev now : State) (bps top : ℕ)
        → 50000 ≤ bps
        → bps ≤ top
        → top < 2 ^ 62
        → (50000 ≤ next_bps d prev now bps) × (next_bps d prev now bps ≤ top + 100000)
    unfolding next_bps
    next_bps_bounds prev now bps top low high small =
        ground (arith, decreased_bounds bps low (omega arith))

    arrival-IsEstimate :
        (n send_time recv_time : ℕ) (e : GccEstimator d)
        → n ≤ 2 ^ 40
        → IsEstimate n e
        → IsEstimate (suc n) (on_packet_arrival d send_time recv_time e)
    unfolding on_packet_arrival
    arrival-IsEstimate n send_time recv_time e few h =
        let samples = add_sample d e.trendline_buf send_time recv_time in
        let now = state_of d (compute_trendline d samples) in
        let (low, high) =
          next_bps_bounds e.state now e.estimated_bps (1000000 + 100000 * n) h.floor h.ceiling
            (omega arith) in
        let window = add_sample-IsWindow e.trendline_buf send_time recv_time h.window in
        if_elim (IsEstimate (suc n)) (ltb (length samples) 4)
          (record { trendline_buf = samples; state = e.state; estimated_bps = e.estimated_bps })
          (record {
            trendline_buf = samples;
            state = now;
            estimated_bps = next_bps d e.state now e.estimated_bps;
          })
          (λ b. record { window = window; floor = h.floor; ceiling = omega (arith, h.ceiling) })
          (λ b. record { window = window; floor = low; ceiling = omega (arith, high) })

    later-IsEstimate :
        (packets : List (ℕ × ℕ)) (n : ℕ) (e : GccEstimator d)
        → n + length packets ≤ 2 ^ 40
        → IsEstimate n e
        → IsEstimate (n + length packets) (arrivals d packets e)
    unfolding arrivals
    later-IsEstimate [] n e few h = subst (λ k. IsEstimate k e) (omega arith) h
    later-IsEstimate ((send_time, recv_time) ∷ packets) n e few h =
        subst (λ k. IsEstimate k (arrivals d packets (on_packet_arrival d send_time recv_time e)))
          (omega arith)
          (later-IsEstimate packets (suc n) (on_packet_arrival d send_time recv_time e)
            (omega arith) (arrival-IsEstimate n send_time recv_time e (omega arith) h))

    -- After any packets, at most 2 ^ 40 of them, the window has at most twenty samples with their indices
    -- for x, and the estimate lies between 50 kbps and the first estimate with 100 kbps more for each
    -- packet, if the product of a number that is not negative with 0.85 is at most the number.
    pub arrivals-IsEstimate :
        (packets : List (ℕ × ℕ))
        → length packets ≤ 2 ^ 40
        → IsEstimate (length packets) (arrivals d packets (new_estimator d))
    arrivals-IsEstimate packets few =
        subst (λ k. IsEstimate k (arrivals d packets (new_estimator d))) (omega arith)
          (later-IsEstimate packets 0 (new_estimator d) (omega arith) (record {
            window = record { numbered = tt; short = omega arith };
            floor = omega arith;
            ceiling = omega arith;
          }))
