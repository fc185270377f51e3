-- ===== src/Fec/Decoder/Recovery.antt =====
-- What the decoder makes of a group of which one packet is missing.
use cpp_meet.Common.{
  ℕ, ◌+◌, ◌%◌, ◌^◌, ◌<◌, ◌≡◌, refl, ap, ◌∙◌, false, Option, none, some, List, [], ◌∷◌, ◌++◌, arith,
  length, length-append, bit_xor,
}
use cpp_meet.Wire.{Bytes, byte_at}
use cpp_meet.Rtp.Packet.{RtpPacket, payload_type, sequence, ssrc, timestamp}
use cpp_meet.Fec.Xor.{
  payload_bytes, xor_into, xor_all, column, byte_at-xor_all, column-append, longest, longest-append,
  length-xor_all, cancel_outer, zero_xor,
}
use cpp_meet.Fec.Encoder.{payload_bytes-build, sequence-build}
use cpp_meet.Fec.Decoder.{
  first_present, missing_cnt, missing_idx, rebuilt, recover, recover_at, recover_with, xor_present,
}

-- All of these packets are there.
abbrev pub present : List RtpPacket → List (Option RtpPacket)
present [] = []
present (p ∷ ps) = some p ∷ present ps

-- The places of a group with one hole in it.
abbrev pub with_hole : List RtpPacket → List RtpPacket → List (Option RtpPacket)
with_hole before after = present before ++ (none ∷ present after)

pub length-present : (ps : List RtpPacket) → length (present ps) ≡ length ps
length-present [] = refl
length-present (p ∷ ps) = omega (arith, length-present ps)

missing_cnt-present : (ps : List RtpPacket) → missing_cnt (present ps) ≡ 0
unfolding missing_cnt
missing_cnt-present [] = refl
missing_cnt-present (p ∷ ps) = missing_cnt-present ps

missing_cnt-hole : (before after : List RtpPacket) → missing_cnt (with_hole before after) ≡ 1
unfolding missing_cnt
missing_cnt-hole [] after = omega (arith, missing_cnt-present after)
missing_cnt-hole (p ∷ ps) after = missing_cnt-hole ps after

missing_idx-present :
    (i : ℕ) (o : Option ℕ) (ps : List RtpPacket) → missing_idx i o (present ps) ≡ o
unfolding missing_idx
missing_idx-present i o [] = refl
missing_idx-present i o (p ∷ ps) = missing_idx-present (i + 1) o ps

missing_idx-hole :
    (i : ℕ) (o : Option ℕ) (before after : List RtpPacket)
    → missing_idx i o (with_hole before after) ≡ some (i + length before)
unfolding missing_idx
missing_idx-hole i o [] after = missing_idx-present (i + 1) (some i) after ∙ ap some (omega arith)
missing_idx-hole i o (p ∷ ps) after = missing_idx-hole (i + 1) o ps after ∙ ap some (omega arith)

xor_present-present :
    (acc : Bytes) (ps : List RtpPacket) → xor_present acc (present ps) ≡ xor_all acc ps
unfolding xor_present xor_all
xor_present-present acc [] = refl
xor_present-present acc (p ∷ ps) = xor_present-present (xor_into acc (payload_bytes p)) ps

xor_present-hole :
    (acc : Bytes) (before after : List RtpPacket)
    → xor_present acc (with_hole before after) ≡ xor_all acc (before ++ after)
unfolding xor_present xor_all
xor_present-hole acc [] after = xor_present-present acc after
xor_present-hole acc (p ∷ ps) after = xor_present-hole (xor_into acc (payload_bytes p)) ps after

payload_bytes-rebuilt :
    (seq : ℕ) (body : Bytes) (o : Option RtpPacket) → payload_bytes (rebuilt seq body o) ≡ body
unfolding rebuilt
payload_bytes-rebuilt seq body none = payload_bytes-build 96 seq 0 0 false body
payload_bytes-rebuilt seq body (some p) =
    payload_bytes-build (payload_type p) seq (timestamp p) (ssrc p) false body

sequence-rebuilt :
    (seq : ℕ) (body : Bytes) (o : Option RtpPacket)
    → seq < 2 ^ 16
    → sequence (rebuilt seq body o) ≡ seq
unfolding rebuilt
sequence-rebuilt seq body none h = sequence-build 96 seq 0 0 false body h
sequence-rebuilt seq body (some p) h =
    sequence-build (payload_type p) seq (timestamp p) (ssrc p) false body h

-- The exclusive or of all payloads and of those that are there is the missing one.
pub left_over :
    (before after : List RtpPacket) (m : RtpPacket) (i : ℕ)
    → byte_at (xor_all (xor_all [] (before ++ (m ∷ after))) (before ++ after)) i
      ≡ byte_at (payload_bytes m) i
unfolding column
left_over before after m i =
    byte_at-xor_all (xor_all [] (before ++ (m ∷ after))) (before ++ after) i
    ∙ ap (λ t. bit_xor t (column i (before ++ after)))
        (byte_at-xor_all [] (before ++ (m ∷ after)) i)
    ∙ ap (λ t. bit_xor t (column i (before ++ after))) (zero_xor (column i (before ++ (m ∷ after))))
    ∙ rw (column-append i before (m ∷ after), column-append i before after)
        (cancel_outer (column i before) (byte_at (payload_bytes m) i) (column i after))

-- The packet that is made from a group of which all but the packet `m` are there.
unfoldable pub recovered : ℕ → List RtpPacket → List RtpPacket → RtpPacket → RtpPacket
recovered bs before after m =
    rebuilt ((bs + length before) % 2 ^ 16)
      (xor_all (xor_all [] (before ++ (m ∷ after))) (before ++ after))
      (first_present (with_hole before after))

pub recover-hole :
    (group_size bs received : ℕ) (before after : List RtpPacket) (m fec : RtpPacket)
    → length (before ++ (m ∷ after)) ≡ group_size
    → payload_bytes fec ≡ xor_all [] (before ++ (m ∷ after))
    → recover group_size bs
        (record { pkts = with_hole before after; fec = some fec; received = received })
      ≡ some (recovered bs before after m)
unfolding recover recover_with recover_at recovered
recover-hole group_size bs received before after m fec h e =
    let size : length (with_hole before after) ≡ group_size = omega (
      arith,
      length-append (present before) (none ∷ present after),
      length-append before (m ∷ after),
      length-present before,
      length-present after,
    ) in
    rw
      (
        missing_idx-hole 0 none before after,
        missing_cnt-hole before after,
        xor_present-hole (payload_bytes fec) before after,
        e,
      )
      (ground (arith, size))

-- What is made of the group: the number of the missing packet and its bytes.
pub recovered-sequence :
    (bs : ℕ) (before after : List RtpPacket) (m : RtpPacket)
    → sequence (recovered bs before after m) ≡ (bs + length before) % 2 ^ 16
unfolding recovered
recovered-sequence bs before after m =
    sequence-rebuilt ((bs + length before) % 2 ^ 16) _ _ (omega arith)

pub recovered-byte :
    (bs : ℕ) (before after : List RtpPacket) (m : RtpPacket) (i : ℕ)
    → byte_at (payload_bytes (recovered bs before after m)) i ≡ byte_at (payload_bytes m) i
unfolding recovered
recovered-byte bs before after m i =
    ap (λ d. byte_at d i) (payload_bytes-rebuilt _ _ _) ∙ left_over before after m i

pub recovered-length :
    (bs : ℕ) (before after : List RtpPacket) (m : RtpPacket)
    → length (payload_bytes (recovered bs before after m)) ≡ longest (before ++ (m ∷ after))
unfolding recovered longest
recovered-length bs before after m =
    ap length (payload_bytes-rebuilt _ _ _)
    ∙ omega (
      arith,
      length-xor_all (xor_all [] (before ++ (m ∷ after))) (before ++ after),
      length-xor_all [] (before ++ (m ∷ after)),
      longest-append before (m ∷ after),
      longest-append before after,
    )
