-- ===== src/AdaptiveBuffer.antt =====
-- `JitterBuffer` of module08_weak_network/src/jitter_buffer.cpp and include/weak/jitter_buffer.h. The
-- arithmetic of `double` is a parameter, and so is the time between two points of the clock in
-- milliseconds. The clock's reading in `push` is an argument, and a `std::map` is a list in the order of
-- its keys, which are sequence numbers, although the header says timestamps.
pub mod Order
mod Examples
use cpp_meet.Common.{
  ℕ, ◌+◌, ◌%◌, ◌^◌, Bool, true, false, ◌||◌, List, [], ◌∷◌, ◌==◌, ltb, if◌then◌else◌, length,
  Option, none, some,
}
use cpp_meet.Common.Double.{Double}
use cpp_meet.Rtp.Packet.{RtpPacket, sequence}

-- `emplace`: a key that is there keeps its value.
unfoldable pub emplace : ℕ → RtpPacket → List (ℕ × RtpPacket) → List (ℕ × RtpPacket)
emplace k p [] = (k, p) ∷ []
emplace k p ((j, q) ∷ m) =
    let later = emplace k p m in
    if ltb k j then (k, p) ∷ (j, q) ∷ m else if k == j then (j, q) ∷ m else (j, q) ∷ later

module _ (d : Double) (millis : ℕ → ℕ → d.F) where
  pub record JitterBuffer : Type 0 where
    pub target_delay_ms : ℕ
    pub buf : List (ℕ × RtpPacket)
    pub smoothed_jitter_ms : d.F
    pub last_arrival : ℕ
    pub started : Bool

  abbrev pub new_buffer : ℕ → ℕ → JitterBuffer
  new_buffer target_delay_ms epoch = record {
    target_delay_ms = target_delay_ms;
    buf = [];
    smoothed_jitter_ms = d.literal "0.0";
    last_arrival = epoch;
    started = false;
  }

  unfoldable pub smoothed : ℕ → JitterBuffer → d.F
  smoothed now b =
      let diff = d.abs (d.minus (millis now b.last_arrival) (d.literal "20.0")) in
      if b.started
      then d.plus b.smoothed_jitter_ms
          (d.over (d.minus diff b.smoothed_jitter_ms) (d.literal "16.0"))
      else b.smoothed_jitter_ms

  unfoldable pub push : ℕ → RtpPacket → JitterBuffer → JitterBuffer
  push now p b = record {
    target_delay_ms = b.target_delay_ms;
    buf = emplace (sequence p) p b.buf;
    smoothed_jitter_ms = smoothed now b;
    last_arrival = now;
    started = true;
  }

  -- The delay is long enough, or the buffer has more than ten packets.
  unfoldable pub is_due : ℕ → JitterBuffer → Bool
  is_due now b =
      let effective_delay =
        (b.target_delay_ms + d.to_int (d.times b.smoothed_jitter_ms (d.literal "2"))) % 2 ^ 32 in
      d.at_least (millis now b.last_arrival) (d.of_int effective_delay) || ltb 10 (length b.buf)

  abbrev pub without_first : List (ℕ × RtpPacket) → JitterBuffer → JitterBuffer
  without_first m b = record {
    target_delay_ms = b.target_delay_ms;
    buf = m;
    smoothed_jitter_ms = b.smoothed_jitter_ms;
    last_arrival = b.last_arrival;
    started = b.started;
  }

  -- The first packet of the map, if the buffer has started and it is due.
  unfoldable pub pop_first :
      Bool → List (ℕ × RtpPacket) → JitterBuffer → Option RtpPacket × JitterBuffer
  pop_first due [] b = (none, b)
  pop_first due ((k, p) ∷ m) b =
      if b.started then if due then (some p, without_first m b) else (none, b) else (none, b)

  unfoldable pub pop : ℕ → JitterBuffer → Option RtpPacket × JitterBuffer
  pop now b = pop_first (is_due now b) b.buf b
