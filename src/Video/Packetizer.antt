-- ===== src/Video/Packetizer.antt =====
-- `RtpVideoPacketizer` of module07_video/src/rtp_video_packetizer.cpp: H.264 NAL units in single
-- packets or FU-A fragments (RFC 6184). `seq` is passed by reference, so it is returned too.
pub mod Fragments
pub mod Reassembly
mod Examples
use cpp_meet.Common.{
  ℕ, zero, suc, ◌+◌, ◌-◌, ◌*◌, ◌/◌, ◌%◌, ◌^◌, Bool, true, false, ◌&&◌, Option, none, some, List, [],
  ◌∷◌, ◌++◌, min, ltb, leb, ◌==◌, if◌then◌else◌, length, take, drop,
}
use cpp_meet.Wire.{Bytes, byte_at}
use cpp_meet.Rtp.Packet.{RtpPacket, default, build}

-- `NalUnit` of module07_video/include/video/h264_encoder.h.
pub record NalUnit : Type 0 where
  pub bytes : Bytes
  pub is_keyframe : Bool

abbrev pub max_rtp_payload : ℕ
max_rtp_payload = 1200

-- `max_payload`, past the two bytes of FU indicator and FU header.
abbrev pub max_payload : ℕ
max_payload = max_rtp_payload - 2

-- The NAL unit behind an Annex B start code of four or three bytes.
unfoldable pub skip_start_code : Bytes → Bytes
skip_start_code d =
    if leb 4 (length d)
      && (byte_at d 0 == 0 && (byte_at d 1 == 0 && (byte_at d 2 == 0 && byte_at d 3 == 1)))
    then drop 4 d
    else if leb 3 (length d) && (byte_at d 0 == 0 && (byte_at d 1 == 0 && byte_at d 2 == 1))
    then drop 3 d
    else d

-- The payload of one fragment; `fu_header` has the S bit on the first and the E bit on the last.
unfoldable pub fua_payload : ℕ → Bool → Bool → Bytes → Bytes
fua_payload nal_header first last chunk =
    (nal_header / 32 * 32 + 28)
    ∷ (nal_header % 32 + (if first then 0x80 else 0) + (if last then 0x40 else 0))
    ∷ chunk

-- `while (remaining > 0)`; each round takes a byte at least, so the length of `src` is fuel enough.
unfoldable pub fua_loop : ℕ → ℕ → ℕ → ℕ → ℕ → Bytes → Bool → ℕ → List RtpPacket × ℕ
fua_loop zero nal_header payload_type timestamp ssrc src first seq = ([], seq)
fua_loop (suc fuel) nal_header payload_type timestamp ssrc [] first seq = ([], seq)
fua_loop (suc fuel) nal_header payload_type timestamp ssrc (b ∷ bs) first seq =
    let remaining = length (b ∷ bs) in
    let chunk = min remaining max_payload in
    let last = chunk == remaining in
    let payload = fua_payload nal_header first last (take chunk (b ∷ bs)) in
    let pkt = build default payload_type seq timestamp ssrc (some payload) (length payload) last in
    let (later, seq') =
      fua_loop fuel nal_header payload_type timestamp ssrc (drop chunk (b ∷ bs)) false
        ((seq + 1) % 2 ^ 16) in
    (pkt ∷ later, seq')

unfoldable pub make_fua_packets : Bytes → ℕ → ℕ → ℕ → ℕ → List RtpPacket × ℕ
make_fua_packets nal_data payload_type seq timestamp ssrc =
    fua_loop (length nal_data) (byte_at nal_data 0) payload_type timestamp ssrc (drop 1 nal_data)
      true seq

unfoldable pub packetize : NalUnit → ℕ → ℕ → ℕ → ℕ → List RtpPacket × ℕ
packetize nal payload_type seq timestamp ssrc =
    let nal_data = skip_start_code nal.bytes in
    if length nal_data == 0
    then ([], seq)
    else if leb (length nal_data) max_rtp_payload
    then (
      build default payload_type seq timestamp ssrc (some nal_data) (length nal_data) true ∷ [],
      (seq + 1) % 2 ^ 16,
    )
    else make_fua_packets nal_data payload_type seq timestamp ssrc
