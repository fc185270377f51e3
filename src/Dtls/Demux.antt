-- ===== src/Dtls/Demux.antt =====
-- Telling DTLS from the other protocols on the same port.
use cpp_meet.Common.{◌*◌, ◌^◌, ◌<◌, ◌≡◌, refl, true, false, [], ◌∷◌, arith}
use cpp_meet.Wire.{Bytes, byte_at, u16_bytes}
use cpp_meet.Rtp.Packet.{RtpPacket}
use cpp_meet.Rtp.Packet.Parse.{IsRtp, parse_iff}
use cpp_meet.Rtp.Packet as Packet
use cpp_meet.Stun.Message as Message
use cpp_meet.Stun.Message.{StunMessage, with_header}
use cpp_meet.Dtls.{is_dtls}

rtp_first : (d : Bytes) → IsRtp d → is_dtls d ≡ false
unfolding is_dtls
rtp_first [] r = refl
rtp_first (b ∷ bs) r = ground (arith, r.version_lo)

stun_first : (m : StunMessage) → m.kind < 20 * 2 ^ 8 → is_dtls (Message.serialize m) ≡ false
unfolding is_dtls Message.serialize with_header u16_bytes
stun_first m h = ground arith

-- Neither a buffer of bytes that the RTP parser accepts nor what is written of a STUN message, with a type that
-- is less than 20 * 2 ^ 8, is taken for DTLS.
pub other_protocols :
    (p : RtpPacket) (d : Bytes) (m : StunMessage)
    → byte_at d 0 < 256
    → (Packet.parse p d).0 ≡ true
    → m.kind < 20 * 2 ^ 8
    → (is_dtls d ≡ false) × (is_dtls (Message.serialize m) ≡ false)
other_protocols p d m h e k = (rtp_first d ((parse_iff p d h).0 e), stun_first m k)
