-- ===== src/Rtp/JitterBuffer/Examples.antt =====
-- Runs of the jitter buffer, and its theorems at concrete packets.
use cpp_meet.Common.{ℕ, ◌≡◌, refl, true, none, List, [], ◌∷◌}
use mathlib.Core.Path.{subst}
use cpp_meet.Common.Keys.{nat_eq, lookup, insert, erase, emplace}
use cpp_meet.Wire.{read_u16}
use cpp_meet.Rtp.Packet.{RtpPacket, sequence}
use cpp_meet.Rtp.JitterBuffer.{RtpJitterBuffer, fresh, push, pop_next, pop_found}
use cpp_meet.Rtp.JitterBuffer.Order.{
  IsKeyed, push-IsKeyed, Call, put, take, delivered, InSequence, delivered-InSequence,
}
use cpp_meet.Rtp.JitterBuffer.Drain.{HoldsRun}

-- A header with nothing but its sequence number.
abbrev numbered : ℕ → ℕ → RtpPacket
numbered hi lo = record {
  buf = 0x80 ∷ 0 ∷ hi ∷ lo ∷ 0 ∷ 0 ∷ 0 ∷ 0 ∷ 0 ∷ 0 ∷ 0 ∷ 0 ∷ [];
  payload_offset = 12;
}

abbrev last : RtpPacket
last = numbered 255 255

abbrev first : RtpPacket
first = numbered 0 0

abbrev second : RtpPacket
second = numbered 0 1

abbrev started_at_last : RtpJitterBuffer
started_at_last = record { buf = (65535, last) ∷ []; next_seq = 65535; started = true }

abbrev calls : List Call
calls = put second ∷ take ∷ take ∷ put first ∷ take ∷ take ∷ []

fresh-IsKeyed : IsKeyed fresh
unfolding lookup
fresh-IsKeyed k p e = cc

push-fresh : push fresh last ≡ started_at_last
unfolding push emplace lookup insert sequence read_u16
push-fresh = refl

started-IsKeyed : IsKeyed started_at_last
started-IsKeyed = subst (λ b. IsKeyed b) push-fresh (push-IsKeyed fresh last fresh-IsKeyed)

-- Out of order and round the end: 65535, then a wait for 0, then 0 and 1.
delivered_run : delivered started_at_last calls ≡ last ∷ first ∷ second ∷ []
unfolding delivered push pop_next pop_found emplace lookup insert erase sequence read_u16
delivered_run = refl

delivered-InSequence_example : InSequence 65535 (delivered started_at_last calls)
delivered-InSequence_example = delivered-InSequence calls started_at_last started-IsKeyed refl

abbrev filled : RtpJitterBuffer
filled = record {
  buf = (0, first) ∷ (1, second) ∷ (65535, last) ∷ [];
  next_seq = 65535;
  started = true;
}

filled-HoldsRun : HoldsRun filled.buf 65535 (last ∷ first ∷ second ∷ [])
unfolding lookup
filled-HoldsRun = (refl, (refl, (refl, tt)))

nothing_at_7 : lookup 7 filled.buf ≡ none
unfolding lookup
nothing_at_7 = refl
