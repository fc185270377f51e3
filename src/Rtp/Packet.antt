-- ===== src/Rtp/Packet.antt =====
-- `RtpPacket` of module02_rtp_rtcp/src/rtp_packet.cpp and include/rtp/rtp_packet.h.
-- A method that updates the object returns the new packet; a buffer is its list of bytes, so the
-- length that the source passes beside a pointer is the length of the list.
pub mod Seq
pub mod Parse
pub mod Build
mod Examples
use cpp_meet.Common.{
  ℕ, ◌+◌, ◌-◌, ◌*◌, ◌/◌, ◌%◌, ◌^◌, ◌<◌, ◌≤◌, ◌≡◌, Bool, true, false, not, ◌&&◌, Option, none, some,
  List, [], ◌∷◌, ◌++◌, ltb, leb, ◌==◌, if◌then◌else◌, length, take, drop, replicate, resize,
}
use cpp_meet.Wire.{Bytes, byte_at, u16_bytes, u32_bytes, read_u16, read_u32}

-- `buf_` and `payload_offset_`.
pub record RtpPacket : Type 0 where
  pub buf : Bytes
  pub payload_offset : ℕ

-- `kRtpMinHeaderLen`
abbrev pub min_header_len : ℕ
min_header_len = 12

-- `RtpPacket()`
abbrev pub default : RtpPacket
default = record { buf = []; payload_offset = 0 }

-- The fields of the first byte: `(data[0] >> 6) & 0x03`, `data[0] & 0x0F`, `(data[0] >> 4) & 0x01`.
abbrev pub version_bits : Bytes → ℕ
version_bits d = byte_at d 0 / 2 ^ 6 % 4

abbrev pub cc_bits : Bytes → ℕ
cc_bits d = byte_at d 0 % 16

abbrev pub extension_bit : Bytes → ℕ
extension_bit d = byte_at d 0 / 2 ^ 4 % 2

-- `RtpPacket(std::vector<uint8_t> data)`
unfoldable pub of_bytes : Bytes → RtpPacket
of_bytes d =
    if leb min_header_len (length d)
    then record { buf = d; payload_offset = min_header_len + cc_bits d * 4 }
    else record { buf = d; payload_offset = 0 }

-- `header_len`: the fixed header and the contributing sources.
abbrev pub header_len : Bytes → ℕ
header_len d = min_header_len + cc_bits d * 4

-- `offset` past the extension header, whose length in words stands behind its first two bytes.
abbrev pub extension_end : Bytes → ℕ
extension_end d = header_len d + (4 + read_u16 d (header_len d + 2) * 4)

-- `parse`: the result, and the packet, which a refusal leaves as it was.
unfoldable pub parse : RtpPacket → Bytes → Bool × RtpPacket
parse p d =
    if ltb (length d) min_header_len
    then (false, p)
    else if not (version_bits d == 2)
    then (false, p)
    else if ltb (length d) (header_len d)
    then (false, p)
    else if extension_bit d == 1
    then (if ltb (length d) (header_len d + 4)
        then (false, p)
        else if ltb (length d) (extension_end d)
        then (false, p)
        else (true, record { buf = d; payload_offset = extension_end d }))
    else (true, record { buf = d; payload_offset = header_len d })

-- The twelve bytes that `build` assigns.
unfoldable pub fixed_header : ℕ → ℕ → ℕ → ℕ → Bool → Bytes
fixed_header payload_type seq timestamp ssrc marker =
    0x80
    ∷ ((if marker then 0x80 else 0) + payload_type % 128)
    ∷ (u16_bytes seq ++ (u32_bytes timestamp ++ u32_bytes ssrc))

-- What stands behind the header: `memcpy` of a payload, or what `resize` left there.
unfoldable pub built_body : Bytes → Option Bytes → ℕ → Bytes
built_body buf (some payload) payload_len =
    if ltb 0 payload_len
    then take payload_len payload
    else drop min_header_len (resize buf (min_header_len + payload_len) 0)
built_body buf none payload_len = drop min_header_len (resize buf (min_header_len + payload_len) 0)

-- `build`; `none` is a null payload pointer.
unfoldable pub build : RtpPacket → ℕ → ℕ → ℕ → ℕ → Option Bytes → ℕ → Bool → RtpPacket
build p payload_type seq timestamp ssrc payload payload_len marker = record {
  buf = fixed_header payload_type seq timestamp ssrc marker ++ built_body p.buf payload payload_len;
  payload_offset = min_header_len;
}

-- The getters, each with its test on the size.
unfoldable pub version : RtpPacket → ℕ
version p = if ltb (length p.buf) 1 then 0 else version_bits p.buf

unfoldable pub padding : RtpPacket → Bool
padding p = if ltb (length p.buf) 1 then false else byte_at p.buf 0 / 2 ^ 5 % 2 == 1

unfoldable pub extension : RtpPacket → Bool
extension p = if ltb (length p.buf) 1 then false else extension_bit p.buf == 1

unfoldable pub cc : RtpPacket → ℕ
cc p = if ltb (length p.buf) 1 then 0 else cc_bits p.buf

unfoldable pub marker : RtpPacket → Bool
marker p = if ltb (length p.buf) 2 then false else byte_at p.buf 1 / 2 ^ 7 % 2 == 1

unfoldable pub payload_type : RtpPacket → ℕ
payload_type p = if ltb (length p.buf) 2 then 0 else byte_at p.buf 1 % 128

unfoldable pub sequence : RtpPacket → ℕ
sequence p = if ltb (length p.buf) 4 then 0 else read_u16 p.buf 2

unfoldable pub timestamp : RtpPacket → ℕ
timestamp p = if ltb (length p.buf) 8 then 0 else read_u32 p.buf 4

unfoldable pub ssrc : RtpPacket → ℕ
ssrc p = if ltb (length p.buf) 12 then 0 else read_u32 p.buf 8

-- `none` is `nullptr`.
unfoldable pub payload : RtpPacket → Option Bytes
payload p = if leb (length p.buf) p.payload_offset then none else some (drop p.payload_offset p.buf)

unfoldable pub payload_size : RtpPacket → ℕ
payload_size p = if leb (length p.buf) p.payload_offset then 0 else length p.buf - p.payload_offset

-- `(int16_t)(a - b) > 0`: the difference modulo 2 ^ 16 is the pattern of a positive `int16_t`.
unfoldable pub seq_gt : ℕ → ℕ → Bool
seq_gt a b = let w = (a + 2 ^ 16 - b) % 2 ^ 16 in ltb 0 w && ltb w (2 ^ 15)
