-- ===== src/Rtp/Packet/Parse.antt =====
-- Which buffers `parse` accepts, and what it makes of them.
use cpp_meet.Common.{◌+◌, ◌*◌, ◌%◌, ◌<◌, ◌≤◌, ◌≡◌, ◌↔◌, ◌⊎◌, ap, true, false, arith, length}
use cpp_meet.Wire.{Bytes, byte_at, read_u16}
use cpp_meet.Rtp.Packet.{RtpPacket, header_len, parse, payload_size, version}

-- The layout of RFC 3550 5.1, by ranges of the first byte: version 2, room for the CSRC list, and
-- either no extension or room for the extension header and its words.
pub record IsRtp (d : Bytes) : Type 0 where
  pub fixed : 12 ≤ length d
  pub version_lo : 128 ≤ byte_at d 0
  pub version_hi : byte_at d 0 < 192
  pub csrcs : 12 + 4 * (byte_at d 0 % 16) ≤ length d
  pub extended :
      (byte_at d 0 % 32 < 16)
      ⊎ (16 + 4 * (byte_at d 0 % 16) + 4 * read_u16 d (14 + 4 * (byte_at d 0 % 16)) ≤ length d)

ext_index : (d : Bytes) → 14 + 4 * (byte_at d 0 % 16) ≡ header_len d + 2
ext_index d = omega arith

-- `parse` accepts a buffer whose first element is a byte exactly when it has the layout of an RTP packet.
pub parse_iff : (p : RtpPacket) (d : Bytes) → byte_at d 0 < 256 → ((parse p d).0 ≡ true) ↔ IsRtp d
unfolding parse
parse_iff p d h = (
  λ e. ground (arith, ap (read_u16 d) (ext_index d)),
  λ r. ground (
    arith,
    r.fixed,
    r.version_lo,
    r.version_hi,
    r.csrcs,
    r.extended,
    ap (read_u16 d) (ext_index d),
  ),
)

-- A refused buffer leaves the packet as it was.
pub parse_refused : (p : RtpPacket) (d : Bytes) → (parse p d).0 ≡ false → (parse p d).1 ≡ p
unfolding parse
parse_refused p d h = ground arith

-- An accepted buffer is kept whole, its version reads 2, and the payload is what stands behind a
-- header of at least 12 bytes that lies inside the buffer.
pub parse_ok :
    (p : RtpPacket) (d : Bytes) (q : RtpPacket)
    → parse p d ≡ (true, q)
    → (q.buf ≡ d)
      × (version q ≡ 2)
      × (12 ≤ q.payload_offset)
      × (q.payload_offset + payload_size q ≡ length d)
unfolding parse version payload_size
parse_ok p d q h = (ground arith, ground arith, ground arith, ground arith)
