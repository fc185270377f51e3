-- ===== src/Nack/Examples.antt =====
-- Arrivals with a gap.
use cpp_meet.Common.{ℕ, ◌+◌, ◌*◌, ◌%◌, ◌^◌, ◌<◌, ◌≡◌, refl, true, false, [], ◌∷◌, arith}
use cpp_meet.Nack.{NackManager, is_received, new_manager, on_receive}
use cpp_meet.Nack.Missing.{IsApart, arrivals-IsApart, receive_all}

abbrev ticks : ℕ → ℕ
ticks s = s * 1000

abbrev after_gap : NackManager
after_gap = receive_all new_manager ticks (65534 ∷ 2 ∷ 0 ∷ [])

abbrev at_end : NackManager
at_end = on_receive new_manager ticks 65534

arrivals-IsApart_example : IsApart after_gap.received after_gap.missing
arrivals-IsApart_example = arrivals-IsApart ticks (65534 ∷ 2 ∷ 0 ∷ [])

at_end_started : at_end.started ≡ true
unfolding on_receive new_manager
at_end_started = refl

at_end_small : at_end.max_seen < 2 ^ 16
unfolding on_receive new_manager
at_end_small = omega arith

zero_is_new : is_received ((at_end.max_seen + 1 + 1) % 2 ^ 16) at_end.received ≡ false
unfolding on_receive new_manager is_received
zero_is_new = refl
