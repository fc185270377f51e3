-- ===== src/Video/Packetizer/Fragments.antt =====
-- One FU-A fragment, as a receiver reads it.
use cpp_meet.Common.{
  ℕ, ◌+◌, ◌*◌, ◌/◌, ◌%◌, ◌^◌, ◌<◌, ◌≤◌, ◌≡◌, Bool, true, false, Option, none, some, [], arith,
  length, drop,
}
use cpp_meet.Wire.{Bytes, byte_at}
use cpp_meet.Rtp.Packet.{
  RtpPacket, default, build, payload, payload_size, sequence, timestamp, ssrc, payload_type, marker,
}
use cpp_meet.Rtp.Packet.Build.{Carries, parse-build}
use cpp_meet.Video.Packetizer.{fua_payload}

-- The payload bytes, none if the pointer is null.
abbrev pub bytes_of : Option Bytes → Bytes
bytes_of none = []
bytes_of (some d) = d

abbrev pub fu_indicator : RtpPacket → ℕ
fu_indicator p = byte_at (bytes_of (payload p)) 0

abbrev pub fu_header : RtpPacket → ℕ
fu_header p = byte_at (bytes_of (payload p)) 1

-- The part of the NAL unit in a fragment.
abbrev pub fragment : RtpPacket → Bytes
fragment p = drop 2 (bytes_of (payload p))

abbrev pub bit : Bool → ℕ
bit true = 1
bit false = 0

-- RFC 6184 5.8 for a fragment of the NAL unit whose header is `hdr`, and the RTP fields around it.
pub record IsFragment (hdr pt ts src : ℕ) (first last : Bool) (seq : ℕ) (p : RtpPacket)
    : Type 0 where
  pub pt_eq : payload_type p ≡ pt
  pub ts_eq : timestamp p ≡ ts
  pub ssrc_eq : ssrc p ≡ src
  pub seq_eq : sequence p ≡ seq
  pub marker_eq : marker p ≡ last
  pub indicator : fu_indicator p ≡ hdr / 32 * 32 + 28
  pub start_bit : fu_header p / 128 ≡ bit first
  pub end_bit : fu_header p / 64 % 2 ≡ bit last
  pub nal_type : fu_header p % 32 ≡ hdr % 32
  pub filled : 3 ≤ payload_size p
  pub fits : payload_size p ≤ 1200

module _ (hdr pt ts src seq : ℕ) (first last : Bool) (chunk : Bytes) (hp : pt < 128)
    (hs : seq < 2 ^ 16) (ht : ts < 2 ^ 32) (hr : src < 2 ^ 32) where
  abbrev pub body : Bytes
  body = fua_payload hdr first last chunk

  abbrev pub packet : RtpPacket
  packet = build default pt seq ts src (some body) (length body) last

  packet-Carries : Carries packet pt seq ts src last body
  packet-Carries = (parse-build default default pt seq ts src last body hp hs ht hr).0

  length-body : length body ≡ length chunk + 2
  unfolding fua_payload
  length-body = omega arith

  payload-packet : payload packet ≡ some body
  payload-packet = ground (arith, packet-Carries.payload_eq, length-body)

  pub fragment-packet : fragment packet ≡ chunk
  unfolding fua_payload
  fragment-packet = rw payload-packet

  header_bits :
      (byte_at body 0 ≡ hdr / 32 * 32 + 28)
      × (byte_at body 1 / 128 ≡ bit first)
      × (byte_at body 1 / 64 % 2 ≡ bit last)
      × (byte_at body 1 % 32 ≡ hdr % 32)
  unfolding fua_payload
  header_bits = ground arith

  pub packet-IsFragment :
      1 ≤ length chunk → length chunk ≤ 1198 → IsFragment hdr pt ts src first last seq packet
  packet-IsFragment h k =
      let c = packet-Carries in
      let (i, s, e, t) = header_bits in
      record {
        pt_eq = c.pt_eq;
        ts_eq = c.ts_eq;
        ssrc_eq = c.ssrc_eq;
        seq_eq = c.seq_eq;
        marker_eq = c.marker_eq;
        indicator = rw payload-packet i;
        start_bit = rw payload-packet s;
        end_bit = rw payload-packet e;
        nal_type = rw payload-packet t;
        filled = omega (arith, c.size_eq, length-body);
        fits = omega (arith, c.size_eq, length-body);
      }
