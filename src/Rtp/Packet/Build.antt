-- ===== src/Rtp/Packet/Build.antt =====
-- What `build` writes, and that `parse` and the getters read it back.
use cpp_meet.Common.{
  ℕ, ◌+◌, ◌^◌, ◌<◌, ◌≡◌, ap, Bool, true, false, none, some, [], ◌∷◌, ◌++◌, arith, length, take_all,
  drop_all, length-append, if◌then◌else◌, ◌==◌, resize, length-resize, All, All-append,
}
use cpp_meet.Wire.{Bytes, IsByte, read_u16, read_u32, u16_bytes, u32_bytes}
use cpp_meet.Rtp.Packet.{
  RtpPacket, build, built_body, fixed_header, parse, payload, payload_size, version, sequence,
  timestamp, ssrc, payload_type, marker, cc, extension, padding,
}

-- The fields that a getter reads back from a packet.
pub record Carries (p : RtpPacket) (pt seq ts src : ℕ) (m : Bool) (body : Bytes) : Type 0 where
  pub version_two : version p ≡ 2
  pub plain : (padding p ≡ false) × (extension p ≡ false) × (cc p ≡ 0)
  pub pt_eq : payload_type p ≡ pt
  pub seq_eq : sequence p ≡ seq
  pub ts_eq : timestamp p ≡ ts
  pub ssrc_eq : ssrc p ≡ src
  pub marker_eq : marker p ≡ m
  pub size_eq : payload_size p ≡ length body
  pub payload_eq : payload p ≡ (if length body == 0 then none else some body)

module _ (pt seq ts src : ℕ) (m : Bool) (body : Bytes) where
  -- The packet in explicit bytes.
  abbrev pub laid_out : RtpPacket
  laid_out = record { buf = fixed_header pt seq ts src m ++ body; payload_offset = 12 }

  laid_out-Carries :
      pt < 128 → seq < 2 ^ 16 → ts < 2 ^ 32 → src < 2 ^ 32 → Carries laid_out pt seq ts src m body
  unfolding version padding extension cc payload_type sequence timestamp ssrc marker payload_size
      payload fixed_header read_u16 read_u32 u16_bytes u32_bytes
  laid_out-Carries hp hs ht hr = record {
    version_two = ground arith;
    plain = (ground arith, ground arith, ground arith);
    pt_eq = ground arith;
    seq_eq = ground arith;
    ts_eq = ground arith;
    ssrc_eq = ground arith;
    marker_eq = ground arith;
    size_eq = ground arith;
    payload_eq = ground arith;
  }

  parse-laid_out :
      (q : RtpPacket) → parse q (fixed_header pt seq ts src m ++ body) ≡ (true, laid_out)
  unfolding parse fixed_header u16_bytes u32_bytes
  parse-laid_out q = ground arith

built_body-some : (buf body : Bytes) → built_body buf (some body) (length body) ≡ body
unfolding built_body
built_body-some buf [] = drop_all (resize buf 12 0) 12 (omega (arith, length-resize buf 12 0))
built_body-some buf (x ∷ xs) = ground (arith, take_all xs (length xs))

-- With a payload whose length is given right, `build` writes the header and the payload, whatever
-- the packet held before.
pub build-laid_out :
    (p : RtpPacket) (pt seq ts src : ℕ) (m : Bool) (body : Bytes)
    → build p pt seq ts src (some body) (length body) m ≡ laid_out pt seq ts src m body
unfolding build
build-laid_out p pt seq ts src m body =
    ap (λ (t : Bytes). record { buf = fixed_header pt seq ts src m ++ t; payload_offset = 12 })
      (built_body-some p.buf body)

-- A packet that `build` wrote from fields in their ranges reads back every field, and `parse`
-- accepts its bytes and gives the same packet, payload and marker included.
pub parse-build :
    (p q : RtpPacket) (pt seq ts src : ℕ) (m : Bool) (body : Bytes)
    → pt < 128
    → seq < 2 ^ 16
    → ts < 2 ^ 32
    → src < 2 ^ 32
    → let b = build p pt seq ts src (some body) (length body) m in
      Carries b pt seq ts src m body × (parse q b.buf ≡ (true, b))
parse-build p q pt seq ts src m body hp hs ht hr =
    rw (build-laid_out p pt seq ts src m body)
      (laid_out-Carries pt seq ts src m body hp hs ht hr, parse-laid_out pt seq ts src m body q)

fixed_header-IsByte :
    (pt seq ts src : ℕ) (m : Bool)
    → All IsByte (fixed_header pt seq ts src m) × (length (fixed_header pt seq ts src m) ≡ 12)
unfolding fixed_header u16_bytes u32_bytes
fixed_header-IsByte pt seq ts src true = omega arith
fixed_header-IsByte pt seq ts src false = omega arith

-- `build` writes bytes, twelve more than the payload has.
pub build-IsByte :
    (p : RtpPacket) (pt seq ts src : ℕ) (m : Bool) (body : Bytes)
    → All IsByte body
    → let b = build p pt seq ts src (some body) (length body) m in
      All IsByte b.buf × (length b.buf ≡ 12 + length body)
build-IsByte p pt seq ts src m body h =
    let (bytes, len) = fixed_header-IsByte pt seq ts src m in
    rw (build-laid_out p pt seq ts src m body) (
      All-append IsByte (fixed_header pt seq ts src m) body bytes h,
      omega (arith, length-append (fixed_header pt seq ts src m) body),
    )
