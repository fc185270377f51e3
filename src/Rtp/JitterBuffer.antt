-- ===== src/Rtp/JitterBuffer.antt =====
-- `RtpJitterBuffer` of module02_rtp_rtcp/src/rtp_jitter_buffer.cpp: packets under their sequence
-- numbers, taken out in order. The map is used by key alone, so its order plays no part.
pub mod Order
pub mod Drain
mod Examples
use cpp_meet.Common.{
  ℕ, ◌+◌, ◌%◌, ◌^◌, Bool, true, false, Option, none, some, List, [], ◌∷◌, length, if◌then◌else◌,
}
use cpp_meet.Common.Keys.{Eq, nat_eq, lookup, erase, emplace}
use cpp_meet.Rtp.Packet.{RtpPacket, sequence}

pub record RtpJitterBuffer : Type 0 where
  pub buf : List (ℕ × RtpPacket)
  pub next_seq : ℕ
  pub started : Bool

abbrev pub fresh : RtpJitterBuffer
fresh = record { buf = []; next_seq = 0; started = false }

-- `push`: a second packet of a sequence number is dropped, and the first packet of all sets the
-- number to start at.
unfoldable pub push : RtpJitterBuffer → RtpPacket → RtpJitterBuffer
push b pkt = record {
  buf = emplace (sequence pkt) pkt b.buf;
  next_seq = if b.started then b.next_seq else sequence pkt;
  started = true;
}

-- `pop_next` past its test for an empty buffer: the packet under `next_seq_`, if it is there.
unfoldable pub pop_found : RtpJitterBuffer → Option RtpPacket → Option RtpPacket × RtpJitterBuffer
pop_found b none = (none, b)
pop_found b (some pkt) =
    (some pkt, record b { buf = erase b.next_seq b.buf; next_seq = (b.next_seq + 1) % 2 ^ 16 })

unfoldable pub pop_next : RtpJitterBuffer → Option RtpPacket × RtpJitterBuffer
pop_next b = elim b.buf [ [] ↦ (none, b) | _ ∷ _ ↦ pop_found b (lookup b.next_seq b.buf) ]

unfoldable pub size : RtpJitterBuffer → ℕ
size b = length b.buf
