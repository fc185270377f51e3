-- ===== src/Fec/Encoder.antt =====
-- `XorFecEncoder` of module08_weak_network/src/fec.cpp and include/weak/fec.h.
use cpp_meet.Common.{
  ℕ, ◌+◌, ◌%◌, ◌^◌, ◌<◌, ◌≡◌, refl, Bool, false, Option, none, some, List, [], ◌∷◌, ◌==◌, arith,
  length, if◌then◌else◌, cons_some,
}
use cpp_meet.Wire.{Bytes, read_u16, read_u32, u16_bytes, u32_bytes}
use cpp_meet.Rtp.Packet.{RtpPacket, build, default, fixed_header, payload, sequence, timestamp}
use cpp_meet.Rtp.Packet.Build.{build-laid_out}
use cpp_meet.Fec.Xor.{payload_bytes, xor_into, xor_all}

pub record XorFecEncoder : Type 0 where
  pub group_size : ℕ
  pub count : ℕ
  pub xor_buf : Bytes
  pub base_seq : ℕ
  pub fec_ssrc : ℕ
  pub fec_seq : ℕ

unfoldable pub new_encoder : ℕ → XorFecEncoder
new_encoder group_size = record {
  group_size = group_size;
  count = 0;
  xor_buf = [];
  base_seq = 0;
  fec_ssrc = 0xFEC00000;
  fec_seq = 0;
}

-- The first branch of `feed`: the packet starts the buffer, or is taken into it.
unfoldable pub absorb : XorFecEncoder → RtpPacket → XorFecEncoder
absorb e pkt =
    if e.count == 0
    then record e { base_seq = sequence pkt; xor_buf = payload_bytes pkt }
    else record e { xor_buf = xor_into e.xor_buf (payload_bytes pkt) }

-- The packet that closes a group.
abbrev pub fec_packet : XorFecEncoder → RtpPacket
fec_packet e =
    build default 127 e.fec_seq e.base_seq e.fec_ssrc (some e.xor_buf) (length e.xor_buf) false

unfoldable pub encode : XorFecEncoder → RtpPacket → Option RtpPacket × XorFecEncoder
encode e pkt =
    let f = absorb e pkt in
    if f.count + 1 == f.group_size
    then (
      some (fec_packet f),
      record f { fec_seq = (f.fec_seq + 1) % 2 ^ 16; count = 0; xor_buf = [] },
    )
    else (none, record f { count = f.count + 1 })

-- `feed` on one packet after another: the FEC packets it returns, and the encoder.
unfoldable pub encode_run : XorFecEncoder → List RtpPacket → List RtpPacket × XorFecEncoder
encode_run e [] = ([], e)
encode_run e (p ∷ ps) =
    let (o, e') = encode e p in let (later, e'') = encode_run e' ps in (cons_some o later, e'')

-- The payload of a packet that `build` wrote.
pub payload_bytes-build :
    (pt seq ts src : ℕ) (m : Bool) (body : Bytes)
    → payload_bytes (build default pt seq ts src (some body) (length body) m) ≡ body
unfolding payload_bytes payload fixed_header u16_bytes u32_bytes
payload_bytes-build pt seq ts src m [] = rw (build-laid_out default pt seq ts src m []) refl
payload_bytes-build pt seq ts src m (b ∷ bs) =
    rw (build-laid_out default pt seq ts src m (b ∷ bs)) (ground arith)

pub sequence-build :
    (pt seq ts src : ℕ) (m : Bool) (body : Bytes)
    → seq < 2 ^ 16
    → sequence (build default pt seq ts src (some body) (length body) m) ≡ seq
unfolding sequence fixed_header u16_bytes u32_bytes read_u16
sequence-build pt seq ts src m body h =
    rw (build-laid_out default pt seq ts src m body) (ground arith)

pub timestamp-build :
    (pt seq ts src : ℕ) (m : Bool) (body : Bytes)
    → ts < 2 ^ 32
    → timestamp (build default pt seq ts src (some body) (length body) m) ≡ ts
unfolding timestamp fixed_header u16_bytes u32_bytes read_u32
timestamp-build pt seq ts src m body h =
    rw (build-laid_out default pt seq ts src m body) (ground arith)

-- The encoder behind a group.
abbrev pub closed : XorFecEncoder → XorFecEncoder
closed e = record e { xor_buf = []; count = 0; fec_seq = (e.fec_seq + 1) % 2 ^ 16 }

-- Past the first packet of a group, the rest of the group gives one FEC packet with it.
rest_of_group :
    (p : RtpPacket) (ps : List RtpPacket) (e : XorFecEncoder)
    → 0 < e.count
    → e.count + length (p ∷ ps) ≡ e.group_size
    → encode_run e (p ∷ ps)
      ≡ (fec_packet (record e { xor_buf = xor_all e.xor_buf (p ∷ ps) }) ∷ [], closed e)
unfolding encode_run encode absorb xor_all
rest_of_group p [] e h k = ground arith
rest_of_group p (q ∷ qs) e h k = ground (
  arith,
  rest_of_group q qs
      (record e { xor_buf = xor_into e.xor_buf (payload_bytes p); count = e.count + 1 })
      (omega arith) (omega arith),
)

-- The encoder behind a group that starts with the packet `p`.
abbrev pub restarted : XorFecEncoder → RtpPacket → XorFecEncoder
restarted e p = closed (record e { base_seq = sequence p })

whole_group :
    (p : RtpPacket) (ps : List RtpPacket) (e : XorFecEncoder)
    → e.count ≡ 0
    → length (p ∷ ps) ≡ e.group_size
    → encode_run e (p ∷ ps) ≡ (
      fec_packet (record e { base_seq = sequence p; xor_buf = xor_all [] (p ∷ ps) }) ∷ [],
      restarted e p,
    )
unfolding encode_run encode absorb xor_all xor_into
whole_group p [] e h k = ground arith
whole_group p (q ∷ qs) e h k = ground (
  arith,
  rest_of_group q qs (record e { base_seq = sequence p; xor_buf = payload_bytes p; count = 1 })
      (omega arith) (omega arith),
)

-- An encoder at the start of a group that is fed as many packets as a group has, at least one, returns
-- one FEC packet: its payload is the exclusive or of theirs, padded to the longest, and its timestamp
-- the sequence number of the first, if that has 16 bits. Then the encoder is at the start again, with
-- the next number for its FEC packets.
pub encode_group :
    (p : RtpPacket) (ps : List RtpPacket) (e : XorFecEncoder)
    → e.count ≡ 0
    → length (p ∷ ps) ≡ e.group_size
    → sequence p < 2 ^ 16
    → (f : RtpPacket) × (encode_run e (p ∷ ps) ≡ (f ∷ [], restarted e p))
      × (payload_bytes f ≡ xor_all [] (p ∷ ps))
      × (timestamp f ≡ sequence p)
encode_group p ps e h k fits =
    let body = xor_all [] (p ∷ ps) in
    (
      fec_packet (record e { base_seq = sequence p; xor_buf = body }),
      whole_group p ps e h k,
      payload_bytes-build 127 e.fec_seq (sequence p) e.fec_ssrc false body,
      timestamp-build 127 e.fec_seq (sequence p) e.fec_ssrc false body (omega arith),
    )
