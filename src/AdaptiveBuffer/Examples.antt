-- ===== src/AdaptiveBuffer/Examples.antt =====
-- Two packets on both sides of the wrap of the sequence number, with a `double` that is always large
-- enough.
use cpp_meet.Common.{ℕ, ◌+◌, ◌-◌, ◌<◌, refl, true, List, [], ◌∷◌, All}
use cpp_meet.Common.Double.{Double}
use cpp_meet.Wire.{read_u16}
use cpp_meet.Rtp.Packet.{RtpPacket, sequence}
use cpp_meet.AdaptiveBuffer.{emplace, is_due, new_buffer, pop, pop_first, push}
use cpp_meet.AdaptiveBuffer.Order.{Call, after, arrive, pop_least}

abbrev always_due : Double
always_due = record {
  F = ℕ;
  literal = λ t. 0;
  of_int64 = λ n. n;
  to_int64 = λ x. x;
  of_int = λ n. n;
  to_int = λ x. x;
  plus = λ x y. x + y;
  minus = λ x y. x - y;
  times = λ x y. x;
  over = λ x y. x;
  abs = λ x. x;
  less = λ x y. true;
  at_least = λ x y. true;
}

abbrev last_number : RtpPacket
last_number = record {
  buf = 128 ∷ 96 ∷ 255 ∷ 255 ∷ 0 ∷ 0 ∷ 0 ∷ 0 ∷ 0 ∷ 0 ∷ 0 ∷ 1 ∷ [];
  payload_offset = 12;
}

abbrev first_number : RtpPacket
first_number = record {
  buf = 128 ∷ 96 ∷ 0 ∷ 0 ∷ 0 ∷ 0 ∷ 0 ∷ 0 ∷ 0 ∷ 0 ∷ 0 ∷ 1 ∷ [];
  payload_offset = 12;
}

abbrev calls : List Call
calls = arrive 10 last_number ∷ arrive 30 first_number ∷ []

-- Number 0, which was sent after 65535, comes first.
pop_least_example :
    All
      (λ (e : ℕ × RtpPacket). sequence first_number < sequence e.1)
      (pop always_due
        (λ s t. s - t)
        500
        (after always_due (λ s t. s - t) calls (new_buffer always_due (λ s t. s - t) 100 0))).1.buf
unfolding after push pop pop_first is_due emplace sequence read_u16
pop_least_example = pop_least always_due (λ s t. s - t) calls 100 0 500 first_number refl
