-- ===== src/Rtcp/Sr.antt =====
-- `RtcpSR`: sender reports without report blocks.
use cpp_meet.Common.{
  ℕ, ◌+◌, ◌*◌, ◌/◌, ◌%◌, ◌^◌, ◌<◌, ◌≤◌, ◌≡◌, ◌↔◌, Bool, true, false, not, ◌∷◌, ◌++◌, ltb, ◌==◌,
  if◌then◌else◌, length, All, arith,
}
use cpp_meet.Wire.{Bytes, IsByte, byte_at, u16_bytes, u32_bytes, read_u16, read_u32, read_u32-lt}

pub record RtcpSr : Type 0 where
  pub ssrc : ℕ
  pub ntp_sec : ℕ
  pub ntp_frac : ℕ
  pub rtp_timestamp : ℕ
  pub packet_count : ℕ
  pub octet_count : ℕ

unfoldable pub serialize : RtcpSr → Bytes
serialize r =
    0x80
    ∷ 200
    ∷ (u16_bytes 6
        ++ (u32_bytes r.ssrc
            ++ (u32_bytes r.ntp_sec
                ++ (u32_bytes r.ntp_frac
                    ++ (u32_bytes r.rtp_timestamp
                        ++ (u32_bytes r.packet_count ++ u32_bytes r.octet_count))))))

-- `parse`: the result, and the report, which a refusal leaves as it was.
unfoldable pub parse : RtcpSr → Bytes → Bool × RtcpSr
parse r d =
    if ltb (length d) 28
    then (false, r)
    else if not (byte_at d 0 / 2 ^ 6 % 4 == 2)
    then (false, r)
    else if not (byte_at d 1 == 200)
    then (false, r)
    else if ltb (length d) ((read_u16 d 2 + 1) * 4)
    then (false, r)
    else (
      true,
      record {
        ssrc = read_u32 d 4;
        ntp_sec = read_u32 d 8;
        ntp_frac = read_u32 d 12;
        rtp_timestamp = read_u32 d 16;
        packet_count = read_u32 d 20;
        octet_count = read_u32 d 24;
      },
    )

-- Every field fits its `uint32_t`.
pub record IsSr (r : RtcpSr) : Type 0 where
  pub ssrc_fits : r.ssrc < 2 ^ 32
  pub ntp_sec_fits : r.ntp_sec < 2 ^ 32
  pub ntp_frac_fits : r.ntp_frac < 2 ^ 32
  pub rtp_timestamp_fits : r.rtp_timestamp < 2 ^ 32
  pub packet_count_fits : r.packet_count < 2 ^ 32
  pub octet_count_fits : r.octet_count < 2 ^ 32

-- A report whose fields fit 32 bits is read back from its own bytes, whatever follows them (report
-- blocks, further packets) and whatever the reading object held.
pub parse-serialize_report :
    (q r : RtcpSr) (rest : Bytes) → IsSr r → parse q (serialize r ++ rest) ≡ (true, r)
unfolding parse serialize u16_bytes u32_bytes read_u16 read_u32
parse-serialize_report q r rest h = ground arith

-- A buffer whose first element is a byte is accepted exactly when it has 28 bytes or more, version 2, packet type 200 and as many bytes as
-- its header announces.
pub parse_report_iff :
    (q : RtcpSr) (d : Bytes)
    → byte_at d 0 < 256
    → ((parse q d).0 ≡ true) ↔ (
        (28 ≤ length d)
        × (128 ≤ byte_at d 0)
        × (byte_at d 0 < 192)
        × (byte_at d 1 ≡ 200)
        × (4 + 4 * read_u16 d 2 ≤ length d))
unfolding parse
parse_report_iff q d h = (λ e. ground arith, λ r. ground arith)

-- From bytes, an accepted report has fields of 32 bits; a refused buffer leaves the report as it was.
pub parse_fields :
    (q : RtcpSr) (d : Bytes)
    → All IsByte d
    → ((parse q d).0 ≡ true → IsSr (parse q d).1) × ((parse q d).0 ≡ false → (parse q d).1 ≡ q)
unfolding parse
parse_fields q d h = (
  λ e. ground (
    arith,
    read_u32-lt d 4 h,
    read_u32-lt d 8 h,
    read_u32-lt d 12 h,
    read_u32-lt d 16 h,
    read_u32-lt d 20 h,
    read_u32-lt d 24 h,
  ),
  λ e. ground arith,
)
