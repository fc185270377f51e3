-- ===== src/Gcc/Examples.antt =====
-- An estimator whose `double` counts in hundredths, without signs.
use text.Mathlib.Text.{◌==◌ as text_beq}
use cpp_meet.Common.Double.{Double}
use cpp_meet.Common.{
  ℕ, ◌+◌, ◌-◌, ◌*◌, ◌/◌, ◌≡◌, refl, List, [], ◌∷◌, arith, ltb, leb, if◌then◌else◌,
}
use cpp_meet.Gcc.{
  add_sample, arrivals, compute_trendline, decreased, moments, new_estimator, next_bps,
  on_packet_arrival, renumber, state_of, sums,
}
use cpp_meet.Gcc.Bitrate.{IsDamped, IsEstimate, arrivals-IsEstimate}

abbrev hundredths : Double
hundredths = record {
  F = ℕ;
  literal = λ t. if text_beq t "0.85" then 85 else if text_beq t "0.5" then 50 else 0;
  of_int64 = λ n. n * 100;
  to_int64 = λ x. x / 100;
  plus = λ x y. x + y;
  minus = λ x y. x - y;
  times = λ x y. x * y / 100;
  over = λ x y. x * 100 / y;
  abs = λ x. x;
  less = λ x y. ltb x y;
  at_least = λ x y. leb y x;
  of_int = λ n. n * 100;
  to_int = λ x. x / 100;
}

hundredths-IsDamped : IsDamped hundredths
hundredths-IsDamped v h = omega arith

abbrev packets : List (ℕ × ℕ)
packets = (0, 10) ∷ (20, 32) ∷ (40, 55) ∷ (60, 80) ∷ (80, 107) ∷ []

arrivals-IsEstimate_example :
    IsEstimate hundredths 5 (arrivals hundredths packets (new_estimator hundredths))
arrivals-IsEstimate_example =
    arrivals-IsEstimate hundredths hundredths-IsDamped packets (omega arith)

-- The delay grows by more than half a millisecond a packet, and the estimate goes down once.
falls_once : (arrivals hundredths packets (new_estimator hundredths)).estimated_bps ≡ 850000
unfolding arrivals on_packet_arrival add_sample renumber compute_trendline sums moments state_of
    next_bps decreased
falls_once = refl
