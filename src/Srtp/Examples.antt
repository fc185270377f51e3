-- ===== src/Srtp/Examples.antt =====
-- A packet with a toy cipher and a toy digest in the place of OpenSSL's.
use cpp_meet.Common.{
  ◌+◌, ◌-◌, ◌≤◌, ◌≡◌, ◌↔◌, refl, true, false, [], ◌∷◌, arith, length, take, drop, bit_xor,
  replicate,
}
use cpp_meet.Wire.{Bytes, byte_at, read_u16, read_u32, u32_bytes}
use cpp_meet.Srtp.{
  Crypto, SrtpSession, aes_cm_xor, build_aes_cm_iv, count_up, counter_loop, crypt, hmac_sha1_80,
  init, protect, unprotect, xor_bytes,
}
use cpp_meet.Srtp.KeyStream.{IsBlockCipher}
use cpp_meet.Srtp.Protection.{IsDigest, unprotect-protect, unprotect_iff}
use cpp_meet.Srtp.Reuse.{after, rfc_byte, same_stream}

-- The cipher repeats a byte of its block, and the digest the length.
abbrev toy : Crypto
toy = record {
  aes_encrypt = λ key block. replicate 16 (byte_at block 15 + 100);
  hmac_sha1 = λ key d. replicate 20 (length d);
}

toy-IsBlockCipher : IsBlockCipher toy
toy-IsBlockCipher key block = refl

toy-IsDigest : IsDigest toy
toy-IsDigest key d = refl

abbrev sender : SrtpSession
sender = init (replicate 16 7) (replicate 14 9) true

-- A header and twenty bytes, two rounds of the cipher.
abbrev packet : Bytes
packet = 0x80 ∷ 96 ∷ 0 ∷ 5 ∷ 0 ∷ 0 ∷ 0 ∷ 1 ∷ 1 ∷ 2 ∷ 3 ∷ 4 ∷ replicate 20 3

abbrev other : Bytes
other = 0x80 ∷ 96 ∷ 0 ∷ 6 ∷ 0 ∷ 0 ∷ 0 ∷ 1 ∷ 1 ∷ 2 ∷ 3 ∷ 4 ∷ 3 ∷ []

abbrev later : Bytes
later = 0x80 ∷ 96 ∷ 0 ∷ 5 ∷ 0 ∷ 0 ∷ 9 ∷ 9 ∷ 1 ∷ 2 ∷ 3 ∷ 4 ∷ 8 ∷ 9 ∷ []

protect_run :
    drop 26 (protect toy sender packet).1 ≡ 103 ∷ 103 ∷ 102 ∷ 102 ∷ 102 ∷ 102 ∷ replicate 10 32
unfolding protect crypt aes_cm_xor counter_loop count_up xor_bytes build_aes_cm_iv hmac_sha1_80 init
    read_u16 read_u32 u32_bytes
protect_run = refl

unprotect-protect_example :
    unprotect toy (record sender { is_send = false }) (protect toy sender packet).1 ≡ (true, packet)
unprotect-protect_example =
    unprotect-protect toy sender false packet toy-IsBlockCipher toy-IsDigest (omega arith)

unprotect_iff_example : ((unprotect toy sender packet).0 ≡ true) ↔ (
    (22 ≤ length packet)
    × (drop (length packet - 10) packet
        ≡ take 10 (toy.hmac_sha1 sender.master_key (take (length packet - 10) packet))))
unprotect_iff_example = unprotect_iff toy sender packet toy-IsDigest

same_stream_example :
    let s = after toy sender [] in
    let t = after toy s (packet ∷ other ∷ []) in
    let k = rfc_byte toy (replicate 16 7) (replicate 14 9) packet 1 in
    (byte_at (protect toy s packet).1 (12 + 1) ≡ bit_xor (byte_at packet (12 + 1)) k)
    × (byte_at (protect toy t later).1 (12 + 1) ≡ bit_xor (byte_at later (12 + 1)) k)
unfolding read_u16 read_u32
same_stream_example =
    same_stream toy toy-IsBlockCipher (replicate 16 7) (replicate 14 9) true [] (other ∷ []) packet
      later 1 refl refl (omega arith) refl refl (omega arith) (omega arith)
