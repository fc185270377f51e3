-- ===== src/Srtp/Crypt.antt =====
-- The header stays, the payload is taken into the key stream, and twice is not at all.
use cpp_meet.Common.{
  ℕ, ◌+◌, ◌*◌, ◌%◌, ◌^◌, ◌<◌, ◌≤◌, ◌≡◌, refl, ap, ap₂, sym, ◌∙◌, ◌++◌, arith, length, take, drop,
  bit_xor, length-append, length-drop, length-take, take-append, drop-append, take-append-drop,
  get_or-append_ge, get_or-drop, get_or-take,
}
use cpp_meet.Wire.{Bytes, byte_at, read_u16, read_u32}
use cpp_meet.Srtp.{Crypto, SrtpSession, aes_cm_xor, build_aes_cm_iv, crypt, pkt_index, xor_bytes}
use cpp_meet.Srtp.KeyStream.{
  IsBlockCipher, byte_at-stream, byte_at-xor_bytes, counter_loop-eq-xor, length-xor_bytes, stream,
  xor_bytes_cancel,
}

byte_at-header : (d : Bytes) (i : ℕ) → i < 12 → byte_at (take 12 d) i ≡ byte_at d i
byte_at-header d i h = get_or-take 12 d i 0 h

-- What is read of a packet stands in its first twelve bytes.
read_u32-header : (d : Bytes) → read_u32 (take 12 d) 8 ≡ read_u32 d 8
unfolding read_u32
read_u32-header d = omega (
  arith,
  byte_at-header d 8 (omega arith),
  byte_at-header d 9 (omega arith),
  byte_at-header d 10 (omega arith),
  byte_at-header d 11 (omega arith),
)

read_u16-header : (d : Bytes) → read_u16 (take 12 d) 2 ≡ read_u16 d 2
unfolding read_u16
read_u16-header d =
    omega (arith, byte_at-header d 2 (omega arith), byte_at-header d 3 (omega arith))

module _ (c : Crypto) (s : SrtpSession) where
  crypt_lem :
      (d : Bytes)
      → crypt c s d ≡ take 12 d ++ aes_cm_xor c s (drop 12 d) (read_u32 d 8) (pkt_index s d)
  unfolding crypt
  crypt_lem d = refl

  -- The key stream for a packet, by its SSRC and its index, for `n` rounds.
  unfoldable pub packet_stream : ℕ → ℕ → ℕ → Bytes
  packet_stream n ssrc index =
      stream c s.master_key n (build_aes_cm_iv s.master_salt ssrc (index % 2 ^ 32))

  module _ (blocks : IsBlockCipher c) where
    aes_cm_xor-eq-xor :
        (buf : Bytes) (ssrc index : ℕ)
        → aes_cm_xor c s buf ssrc index ≡ xor_bytes buf (packet_stream (length buf) ssrc index)
    unfolding aes_cm_xor packet_stream
    aes_cm_xor-eq-xor buf ssrc index =
        counter_loop-eq-xor c s.master_key blocks (length buf) _ buf (omega arith)

    length-aes_cm_xor :
        (buf : Bytes) (ssrc index : ℕ) → length (aes_cm_xor c s buf ssrc index) ≡ length buf
    length-aes_cm_xor buf ssrc index =
        ap length (aes_cm_xor-eq-xor buf ssrc index) ∙ length-xor_bytes buf _

    aes_cm_xor_twice :
        (buf : Bytes) (ssrc index : ℕ)
        → aes_cm_xor c s (aes_cm_xor c s buf ssrc index) ssrc index ≡ buf
    aes_cm_xor_twice buf ssrc index =
        let once = aes_cm_xor c s buf ssrc index in
        let size : length once ≡ length buf = length-aes_cm_xor buf ssrc index in
        aes_cm_xor-eq-xor once ssrc index
        ∙ ap₂ (λ (t : Bytes) (n : ℕ). xor_bytes t (packet_stream n ssrc index))
            (aes_cm_xor-eq-xor buf ssrc index) size
        ∙ xor_bytes_cancel buf _

    module _ (d : Bytes) (enough : 12 ≤ length d) where
      abbrev payload_crypt : Bytes
      payload_crypt = aes_cm_xor c s (drop 12 d) (read_u32 d 8) (pkt_index s d)

      header_size : 12 ≡ length (take 12 d)
      header_size = omega (arith, length-take 12 d, enough)

      pub take-crypt : take 12 (crypt c s d) ≡ take 12 d
      unfolding crypt
      take-crypt = take-append (take 12 d) payload_crypt 12 header_size

      pub drop-crypt : drop 12 (crypt c s d) ≡ payload_crypt
      unfolding crypt
      drop-crypt = drop-append (take 12 d) payload_crypt 12 header_size

      pub length-crypt : length (crypt c s d) ≡ length d
      unfolding crypt
      length-crypt = omega (
        arith,
        length-append (take 12 d) payload_crypt,
        length-aes_cm_xor (drop 12 d) (read_u32 d 8) (pkt_index s d),
        length-drop 12 d,
        header_size,
        enough,
      )

      ssrc_kept : read_u32 (crypt c s d) 8 ≡ read_u32 d 8
      ssrc_kept =
          sym (read_u32-header (crypt c s d))
          ∙ ap (λ t. read_u32 t 8) take-crypt
          ∙ read_u32-header d

      seq_kept : read_u16 (crypt c s d) 2 ≡ read_u16 d 2
      seq_kept =
          sym (read_u16-header (crypt c s d))
          ∙ ap (λ t. read_u16 t 2) take-crypt
          ∙ read_u16-header d

      pub crypt_twice : crypt c s (crypt c s d) ≡ d
      crypt_twice =
          let e = crypt c s d in
          crypt_lem e
          ∙ ap₂ (λ (t u : Bytes). t ++ aes_cm_xor c s u (read_u32 e 8) (pkt_index s e)) take-crypt
              drop-crypt
          ∙ ap₂ (λ (i j : ℕ). take 12 d ++ aes_cm_xor c s payload_crypt i (s.roc * 2 ^ 16 + j))
              ssrc_kept seq_kept
          ∙ ap (λ (t : Bytes). take 12 d ++ t)
              (aes_cm_xor_twice (drop 12 d) (read_u32 d 8) (pkt_index s d))
          ∙ take-append-drop 12 d

      -- Byte `12 + i` of the packet.
      pub crypt_byte :
          (n i : ℕ)
          → i < n
          → 12 + i < length d
          → byte_at (crypt c s d) (12 + i)
            ≡ bit_xor
                (byte_at d (12 + i))
                (byte_at (packet_stream n (read_u32 d 8) (pkt_index s d)) i)
      crypt_byte n i hn hi =
          let body = drop 12 d in
          let inside : i < length body = omega (arith, length-drop 12 d, hi) in
          ap (λ t. byte_at t (12 + i)) (crypt_lem d)
          ∙ get_or-append_ge (take 12 d) payload_crypt (12 + i) i 0 (omega (arith, header_size))
          ∙ ap (λ t. byte_at t i) (aes_cm_xor-eq-xor body (read_u32 d 8) (pkt_index s d))
          ∙ byte_at-xor_bytes body _ i inside
          ∙ ap₂ bit_xor (get_or-drop 12 d i (12 + i) 0 (omega arith)) (
              unfold packet_stream in
              byte_at-stream c s.master_key blocks (length body) n _ i inside hn)
