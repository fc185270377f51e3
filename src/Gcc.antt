-- ===== src/Gcc.antt =====
-- `GccEstimator` of module08_weak_network/src/gcc_estimator.cpp and include/weak/gcc_estimator.h. The
-- arithmetic of `double` is a parameter; `last_ref_ms_` is not used. An `int64_t` is the number
-- below 2 ^ 64 with its bits.
pub mod Bitrate
mod Examples
use cpp_meet.Common.Double.{Double}
use cpp_meet.Common.{
  ℕ, zero, suc, ◌+◌, ◌-◌, ◌%◌, ◌^◌, Bool, true, false, List, [], ◌∷◌, ◌++◌, ltb, leb, if◌then◌else◌,
  length, drop,
}

pub data State : Type 0 where
  normal : State
  overuse : State
  underuse : State

abbrev pub is_overuse : State → Bool
is_overuse normal = false
is_overuse overuse = true
is_overuse underuse = false

-- `<` on `int64_t`.
abbrev pub less_int64 : ℕ → ℕ → Bool
less_int64 a b = ltb ((a + 2 ^ 63) % 2 ^ 64) ((b + 2 ^ 63) % 2 ^ 64)

module _ (d : Double) where
  -- A `Sample`: x and y.
  abbrev pub Sample : Type 0
  Sample = d.F × d.F

  pub record GccEstimator : Type 0 where
    pub trendline_buf : List Sample
    pub state : State
    pub estimated_bps : ℕ

  abbrev pub new_estimator : GccEstimator
  new_estimator = record { trendline_buf = []; state = normal; estimated_bps = 1000000 }

  -- `trendline_buf_[i].x = i`, from index `i` on.
  unfoldable pub renumber : ℕ → List Sample → List Sample
  renumber i [] = []
  renumber i ((x, y) ∷ samples) = (d.of_int64 i, y) ∷ renumber (suc i) samples

  unfoldable pub add_sample : List Sample → ℕ → ℕ → List Sample
  add_sample samples send_time recv_time =
      let delay = (recv_time + (2 ^ 64 - send_time)) % 2 ^ 64 in
      let longer = samples ++ ((d.of_int64 (length samples), d.of_int64 delay) ∷ []) in
      if ltb 20 (length longer) then renumber 0 (drop 1 longer) else longer

  unfoldable pub sums : List Sample → d.F × d.F → d.F × d.F
  sums [] acc = acc
  sums ((x, y) ∷ samples) (sum_x, sum_y) = sums samples (d.plus sum_x x, d.plus sum_y y)

  -- The numerator and the denominator.
  unfoldable pub moments : d.F → d.F → List Sample → d.F × d.F → d.F × d.F
  moments mean_x mean_y [] acc = acc
  moments mean_x mean_y ((x, y) ∷ samples) (num, den) =
      let dx = d.minus x mean_x in
      let dy = d.minus y mean_y in
      moments mean_x mean_y samples (d.plus num (d.times dx dy), d.plus den (d.times dx dx))

  unfoldable pub compute_trendline : List Sample → d.F
  compute_trendline samples =
      let n = d.of_int (length samples) in
      let (sum_x, sum_y) = sums samples (d.literal "0", d.literal "0") in
      let (num, den) =
        moments (d.over sum_x n) (d.over sum_y n) samples (d.literal "0", d.literal "0") in
      if ltb (length samples) 2
      then d.literal "0.0"
      else if d.less (d.abs den) (d.literal "1e-9")
      then d.literal "0.0"
      else d.over num den

  unfoldable pub state_of : d.F → State
  state_of slope =
      if d.less (d.literal "0.5") slope
      then overuse
      else if d.less slope (d.literal "-0.5")
      then underuse
      else normal

  -- `estimated_bps_ * 0.85`, but not below 50000.
  unfoldable pub decreased : ℕ → ℕ
  decreased bps =
      let next = d.to_int64 (d.times (d.of_int64 bps) (d.literal "0.85")) in
      if less_int64 next 50000 then 50000 else next

  unfoldable pub next_bps : State → State → ℕ → ℕ
  next_bps prev now bps =
      if is_overuse now
      then (if is_overuse prev then bps else decreased bps)
      else (bps + 100000) % 2 ^ 64

  unfoldable pub on_packet_arrival : ℕ → ℕ → GccEstimator → GccEstimator
  on_packet_arrival send_time recv_time e =
      let samples = add_sample e.trendline_buf send_time recv_time in
      let now = state_of (compute_trendline samples) in
      if ltb (length samples) 4
      then record { trendline_buf = samples; state = e.state; estimated_bps = e.estimated_bps }
      else record {
        trendline_buf = samples;
        state = now;
        estimated_bps = next_bps e.state now e.estimated_bps;
      }

  -- One call a packet, with its times.
  unfoldable pub arrivals : List (ℕ × ℕ) → GccEstimator → GccEstimator
  arrivals [] e = e
  arrivals ((send_time, recv_time) ∷ packets) e =
      arrivals packets (on_packet_arrival send_time recv_time e)
