-- ===== src/Fec/Examples.antt =====
-- A group of three packets of which the second is lost.
use cpp_meet.Common.{ℕ, ◌^◌, ◌<◌, ◌≡◌, refl, [], ◌∷◌, arith, length}
use cpp_meet.Wire.{Bytes, byte_at, read_u16}
use cpp_meet.Rtp.Packet.{RtpPacket, sequence}
use cpp_meet.Fec.Xor.{longest, payload_bytes}
use cpp_meet.Fec.Encoder.{encode_run, new_encoder}
use cpp_meet.Fec.Decoder.{new_decoder}
use cpp_meet.Fec.Decoder.Filling.{Numbered, decode_run}
use cpp_meet.Fec.Decoder.Session.{arrivals, lost_packet}

-- The packet number `seq` with some payload.
abbrev numbered : ℕ → Bytes → RtpPacket
numbered seq body = record {
  buf = 0x80 ∷ 96 ∷ 0 ∷ seq ∷ 0 ∷ 0 ∷ 0 ∷ 1 ∷ 0 ∷ 0 ∷ 0 ∷ 2 ∷ body;
  payload_offset = 12;
}

abbrev sixth : RtpPacket
sixth = numbered 6 (1 ∷ 2 ∷ [])

abbrev seventh : RtpPacket
seventh = numbered 7 (5 ∷ 6 ∷ 7 ∷ [])

abbrev eighth : RtpPacket
eighth = numbered 8 (9 ∷ [])

in_order : Numbered 6 (sixth ∷ seventh ∷ eighth ∷ [])
unfolding sequence read_u16
in_order = (refl, (refl, (refl, tt)))

at_start : (new_encoder 3).count ≡ 0
unfolding new_encoder
at_start = refl

of_three : length (sixth ∷ seventh ∷ eighth ∷ []) ≡ (new_encoder 3).group_size
unfolding new_encoder
of_three = refl

first_fits : sequence sixth < 2 ^ 16
unfolding sequence read_u16
first_fits = omega arith

lost_packet_example :
    (f p : RtpPacket) × ((encode_run (new_encoder 3) (sixth ∷ seventh ∷ eighth ∷ [])).0 ≡ f ∷ [])
    × ((decode_run (new_decoder 3) (arrivals (sixth ∷ []) (eighth ∷ []) f)).0 ≡ p ∷ [])
    × (sequence p ≡ sequence seventh)
    × (byte_at (payload_bytes p) 2 ≡ byte_at (payload_bytes seventh) 2)
    × (length (payload_bytes p) ≡ longest (sixth ∷ seventh ∷ eighth ∷ []))
unfolding new_encoder
lost_packet_example =
    lost_packet 2 (sixth ∷ []) (eighth ∷ []) seventh (new_encoder 3) 2 at_start of_three
      (omega arith) (omega arith) in_order
