-- ===== src/Srtp/Reuse.antt =====
-- The key stream of a session's packets, as RFC 3711 has it, and its reuse.
use cpp_meet.Common.{
  ℕ, zero, suc, ◌+◌, ◌/◌, ◌%◌, ◌^◌, ◌<◌, ◌≡◌, refl, ap, ap₂, sym, ◌∙◌, Bool, List, [], ◌∷◌, ◌++◌,
  arith, length, take, take_all, drop, bit_xor, replicate,
}
use cpp_meet.Common.Bits.{bit_xor-zero, zero-bit_xor}
use cpp_meet.Wire.{Bytes, byte_at, read_u16, read_u32, u32_bytes}
use cpp_meet.Srtp.{
  Crypto, SrtpSession, build_aes_cm_iv, index_bytes, init, protect, protect_next, xor_bytes,
}
use cpp_meet.Srtp.KeyStream.{IsBlockCipher, stream}
use cpp_meet.Srtp.Crypt.{packet_stream}
use cpp_meet.Srtp.Protection.{protected_byte}

-- The session behind calls of `protect` on these packets.
abbrev pub after : Crypto → SrtpSession → List Bytes → SrtpSession
after c s [] = s
after c s (d ∷ ds) = after c (protect_next c s d).1 ds

-- Two blocks of sixteen bytes, byte by byte.
abbrev pub xor_blocks : Bytes → Bytes → Bytes
xor_blocks [] bs = []
xor_blocks (a ∷ rest) [] = []
xor_blocks (a ∷ rest) (b ∷ bs) = bit_xor a b ∷ xor_blocks rest bs

-- The first counter of RFC 3711 for a packet with roll-over counter 0, that is, an index that is the sequence
-- number: salt * 2 ^ 16, SSRC * 2 ^ 64 and index * 2 ^ 16, as blocks of sixteen bytes.
abbrev pub rfc_counter : Bytes → ℕ → ℕ → Bytes
rfc_counter salt ssrc seq = xor_blocks (salt ++ (0 ∷ 0 ∷ [])) (
    xor_blocks (0 ∷ 0 ∷ 0 ∷ 0 ∷ (u32_bytes ssrc ++ replicate 8 0))
      (replicate 12 0 ++ ((seq / 2 ^ 8) ∷ (seq % 2 ^ 8) ∷ 0 ∷ 0 ∷ [])))

-- A claim on every list of a length, by its elements.
abbrev Curried : ℕ → (Bytes → Type 0) → Type 0
Curried zero P = P []
Curried (suc n) P = (b : ℕ) → Curried n (λ bs. P (b ∷ bs))

by_length : (n : ℕ) (P : Bytes → Type 0) → Curried n P → (bs : Bytes) → length bs ≡ n → P bs
by_length zero P h [] e = h
by_length zero P h (b ∷ bs) e = absurd (omega arith)
by_length (suc n) P h [] e = absurd (omega arith)
by_length (suc n) P h (b ∷ bs) e = by_length n (λ t. P (b ∷ t)) (h b) bs (omega arith)

-- A sequence number as six bytes.
index_bytes-seq :
    (seq : ℕ)
    → seq < 2 ^ 16
    → index_bytes (seq % 2 ^ 32) ≡ 0 ∷ 0 ∷ 0 ∷ 0 ∷ (seq / 2 ^ 8) ∷ (seq % 2 ^ 8) ∷ []
index_bytes-seq seq h =
    let cons = λ (x : ℕ) (t : Bytes). x ∷ t in
    ap₂ cons (omega arith) (
      ap₂ cons (omega arith) (
        ap₂ cons (omega arith)
          (ap₂ cons (omega arith) (ap₂ cons (omega arith) (ap₂ cons (omega arith) refl)))))

build_aes_cm_iv-rfc :
    (salt : Bytes) (ssrc seq : ℕ)
    → length salt ≡ 14
    → seq < 2 ^ 16
    → build_aes_cm_iv salt ssrc (seq % 2 ^ 32) ≡ rfc_counter salt ssrc seq
unfolding build_aes_cm_iv xor_bytes u32_bytes
build_aes_cm_iv-rfc salt ssrc seq size h =
    ap (λ t. take 4 salt ++ xor_bytes (drop 4 (salt ++ (0 ∷ 0 ∷ []))) (u32_bytes ssrc ++ t))
      (index_bytes-seq seq h)
    ∙ by_length 14
        (λ t.
          take 4 t
            ++ xor_bytes (drop 4 (t ++ (0 ∷ 0 ∷ [])))
                (u32_bytes ssrc ++ (0 ∷ 0 ∷ 0 ∷ 0 ∷ (seq / 2 ^ 8) ∷ (seq % 2 ^ 8) ∷ []))
          ≡ rfc_counter t ssrc seq)
        (λ s0 s1 s2 s3 s4 s5 s6 s7 s8 s9 s10 s11 s12 s13. simp (bit_xor-zero, zero-bit_xor) refl)
        salt size

after_same : (c : Crypto) (s : SrtpSession) (ds : List Bytes) → after c s ds ≡ s
unfolding protect_next
after_same c s [] = refl
after_same c s (d ∷ ds) = after_same c s ds

-- Byte `i` of the key stream of RFC 3711 for a packet, the roll-over counter being 0.
abbrev pub rfc_byte : Crypto → Bytes → Bytes → Bytes → ℕ → ℕ
rfc_byte c key salt d i =
    byte_at (stream c key (i + 1) (rfc_counter salt (read_u32 d 8) (read_u16 d 2))) i

module _ (c : Crypto) (blocks : IsBlockCipher c) (key salt : Bytes) (is_send : Bool) where
  -- A byte of a packet that the session protects behind others, the key stream by the packet alone.
  protected_rfc :
      (before : List Bytes) (d : Bytes) (i : ℕ)
      → length key ≡ 16
      → length salt ≡ 14
      → read_u16 d 2 < 2 ^ 16
      → 12 + i < length d
      → byte_at (protect c (after c (init key salt is_send) before) d).1 (12 + i)
        ≡ bit_xor (byte_at d (12 + i)) (rfc_byte c key salt d i)
  unfolding init packet_stream
  protected_rfc before d i hk hs h16 h =
      let s = init key salt is_send in
      let first : ℕ → Bytes → ℕ = λ index k.
        byte_at
          (stream c k (i + 1) (build_aes_cm_iv (take 14 salt) (read_u32 d 8) (index % 2 ^ 32))) i in
      let salted : Bytes → ℕ = λ t.
        byte_at (stream c key (i + 1) (build_aes_cm_iv t (read_u32 d 8) (read_u16 d 2 % 2 ^ 32)))
          i in
      let started : ℕ → ℕ = λ k. bit_xor (byte_at d (12 + i)) k in
      ap (λ t. byte_at (protect c t d).1 (12 + i)) (after_same c s before)
      ∙ protected_byte c s blocks d i h
      ∙ ap started (
          ap₂ first (omega arith) (take_all key 16 (omega (arith, hk)))
          ∙ ap salted (take_all salt 14 (omega (arith, hs)))
          ∙ ap (λ t. byte_at (stream c key (i + 1) t) i)
              (build_aes_cm_iv-rfc salt (read_u32 d 8) (read_u16 d 2) hs h16))

  -- A session is set up with a key of sixteen bytes and a salt of fourteen, AES gives blocks of sixteen bytes,
  -- and between two packets with the same 16-bit sequence number and the same SSRC it protects any others,
  -- 65535 of them or more too: each payload byte of either one that the other has too goes out as the exclusive
  -- or with one and the same byte of the key stream, which is that of RFC 3711 for a roll-over counter of 0.
  pub same_stream :
      (before between : List Bytes) (d e : Bytes) (i : ℕ)
      → length key ≡ 16
      → length salt ≡ 14
      → read_u16 d 2 < 2 ^ 16
      → read_u16 d 2 ≡ read_u16 e 2
      → read_u32 d 8 ≡ read_u32 e 8
      → 12 + i < length d
      → 12 + i < length e
      → let s = after c (init key salt is_send) before in
        let t = after c s (d ∷ between) in
        let k = rfc_byte c key salt d i in
        (byte_at (protect c s d).1 (12 + i) ≡ bit_xor (byte_at d (12 + i)) k)
        × (byte_at (protect c t e).1 (12 + i) ≡ bit_xor (byte_at e (12 + i)) k)
  same_stream before between d e i hk hs h16 seq ssrc hd he =
      let s = after c (init key salt is_send) before in
      let stream_of : ℕ → ℕ → ℕ =
        λ src n. byte_at (stream c key (i + 1) (rfc_counter salt src n)) i in
      (
        protected_rfc before d i hk hs h16 hd,
        ap (λ u. byte_at (protect c u e).1 (12 + i)) (after_same c s (d ∷ between))
            ∙ protected_rfc before e i hk hs (omega (arith, h16, seq)) he
            ∙ ap (bit_xor (byte_at e (12 + i))) (ap₂ stream_of (sym ssrc) (sym seq)),
      )
