-- ===== src/Srtp/Protection.antt =====
-- What `protect` writes and what `unprotect` accepts.
use cpp_meet.Common.{
  ℕ, ◌+◌, ◌-◌, ◌<◌, ◌≤◌, ◌≡◌, ◌↔◌, refl, ap, ap₂, sym, ◌∙◌, Bool, true, false, [], ◌∷◌, ◌++◌,
  ==_iff, arith, ltb, le→ltb, length, take, drop, bit_xor, length-append, length-drop, length-take,
  take-append, take-append_le, drop-append, get_or-append_lt,
}
use cpp_meet.Common.Bits.{bit_xor-eq-zero, bit_xor_self, bit_or-eq-zero}
use cpp_meet.Wire.{Bytes, byte_at, read_u32}
use cpp_meet.Srtp.{
  Crypto, SrtpSession, aes_cm_xor, crypt, hmac_sha1_80, pkt_index, protect, tag_diff, unprotect,
}
use cpp_meet.Srtp.KeyStream.{IsBlockCipher}
use cpp_meet.Srtp.Crypt.{crypt_byte, crypt_twice, length-crypt, packet_stream, take-crypt}

-- SHA-1 gives twenty bytes.
abbrev pub IsDigest : Crypto → Type 0
IsDigest c = (key d : Bytes) → length (c.hmac_sha1 key d) ≡ 20

tag_diff_self : (xs : Bytes) → tag_diff xs xs ≡ 0
unfolding tag_diff
tag_diff_self [] = refl
tag_diff_self (x ∷ xs) = rw (bit_xor_self x, tag_diff_self xs) refl

tag_diff_eq : (xs ys : Bytes) → length xs ≡ length ys → tag_diff xs ys ≡ 0 → xs ≡ ys
unfolding tag_diff
tag_diff_eq [] [] l h = refl
tag_diff_eq [] (y ∷ ys) l h = absurd (omega arith)
tag_diff_eq (x ∷ xs) [] l h = absurd (omega arith)
tag_diff_eq (x ∷ xs) (y ∷ ys) l h =
    let (a, b) = bit_or-eq-zero (bit_xor x y) (tag_diff xs ys) h in
    ap₂ (λ (t : ℕ) (u : Bytes). t ∷ u) (bit_xor-eq-zero x y a) (tag_diff_eq xs ys (omega arith) b)

tag_size : (c : Crypto) (e key : Bytes) → IsDigest c → length (hmac_sha1_80 c e key) ≡ 10
unfolding hmac_sha1_80
tag_size c e key digest = omega (arith, length-take 10 (c.hmac_sha1 key e), digest key e)

protect_lem :
    (c : Crypto) (s : SrtpSession) (d : Bytes)
    → 12 ≤ length d
    → protect c s d ≡ (true, crypt c s d ++ hmac_sha1_80 c (crypt c s d) s.master_key)
unfolding protect
protect_lem c s d enough = ground arith

tagged :
    (c : Crypto) (s : SrtpSession) (e : Bytes)
    → IsDigest c
    → 12 ≤ length e
    → unprotect c s (e ++ hmac_sha1_80 c e s.master_key) ≡ (true, crypt c s e)
unfolding unprotect
tagged c s e digest enough =
    let tag = hmac_sha1_80 c e s.master_key in
    let ten : length tag ≡ 10 = tag_size c e s.master_key digest in
    let size : length (e ++ tag) ≡ length e + 10 = length-append e tag ∙ omega (arith, ten) in
    let back : length (e ++ tag) - 10 ≡ length e = omega (arith, size) in
    let long : ltb (length (e ++ tag)) 22 ≡ false = le→ltb _ 22 (omega (arith, size, enough)) in
    rw
      (
        long,
        take-append e tag (length (e ++ tag) - 10) back,
        drop-append e tag (length (e ++ tag) - 10) back,
        tag_diff_self tag,
      )
      refl

-- `unprotect` of a session with the same key, salt and ROC, of either direction, undoes `protect` on a
-- packet of at least twelve bytes, where AES gives blocks of sixteen bytes and SHA-1 digests of twenty.
pub unprotect-protect :
    (c : Crypto) (s : SrtpSession) (direction : Bool) (d : Bytes)
    → IsBlockCipher c
    → IsDigest c
    → 12 ≤ length d
    → unprotect c (record s { is_send = direction }) (protect c s d).1 ≡ (true, d)
unprotect-protect c s direction d blocks digest enough =
    let t : SrtpSession = record s { is_send = direction } in
    let same : (e : Bytes) → crypt c t e ≡ crypt c s e = λ e. unfold crypt aes_cm_xor in refl in
    let e = crypt c s d in
    ap (λ w. unprotect c t w.1) (protect_lem c s d enough)
    ∙ tagged c t e digest (omega (arith, length-crypt c s blocks d enough, enough))
    ∙ ap (λ w. (true, w)) (same e ∙ crypt_twice c s blocks d enough)

-- A packet is accepted exactly when it has twenty-two bytes or more and its last ten are the first ten
-- of the digest of the others under the key, where digests have twenty bytes.
pub unprotect_iff :
    (c : Crypto) (s : SrtpSession) (d : Bytes)
    → IsDigest c
    → ((unprotect c s d).0 ≡ true) ↔ (
        (22 ≤ length d)
        × (drop (length d - 10) d ≡ take 10 (c.hmac_sha1 s.master_key (take (length d - 10) d))))
unfolding unprotect hmac_sha1_80
unprotect_iff c s d digest =
    let rest = take (length d - 10) d in
    let tag = take 10 (c.hmac_sha1 s.master_key rest) in
    let seen = drop (length d - 10) d in
    let ten : length tag ≡ 10 =
      omega (arith, length-take 10 (c.hmac_sha1 s.master_key rest), digest s.master_key rest) in
    (
      λ h.
          let long : 22 ≤ length d = ground arith in
          let zero_diff : tag_diff tag seen ≡ 0 = ground (arith, ==_iff (tag_diff tag seen) 0) in
          (
            long,
            sym (
                tag_diff_eq tag seen (omega (arith, ten, long, length-drop (length d - 10) d))
                  zero_diff),
          ),
      λ (long, same).
          let zero_diff : tag_diff tag seen ≡ 0 = ap (tag_diff tag) same ∙ tag_diff_self tag in
          ground (arith, long, zero_diff),
    )

-- A refused packet is left as it was.
pub unprotect_refused :
    (c : Crypto) (s : SrtpSession) (d : Bytes)
    → (unprotect c s d).0 ≡ false
    → (unprotect c s d).1 ≡ d
unfolding unprotect
unprotect_refused c s d h = ground arith

-- A protected packet of twelve bytes or more is ten bytes longer, and its header is that of the packet.
pub protect_layout :
    (c : Crypto) (s : SrtpSession) (d : Bytes)
    → IsBlockCipher c
    → IsDigest c
    → 12 ≤ length d
    → (length (protect c s d).1 ≡ length d + 10) × (take 12 (protect c s d).1 ≡ take 12 d)
protect_layout c s d blocks digest enough =
    let e = crypt c s d in
    let tag = hmac_sha1_80 c e s.master_key in
    let size = length-crypt c s blocks d enough in
    rw (protect_lem c s d enough) (
      length-append e tag ∙ omega (arith, size, tag_size c e s.master_key digest),
      take-append_le e tag 12 (omega (arith, size, enough)) ∙ take-crypt c s blocks d enough,
    )

-- A protected payload byte is the plain one with the key stream taken into it.
pub protected_byte :
    (c : Crypto) (s : SrtpSession) (blocks : IsBlockCipher c) (d : Bytes) (i : ℕ)
    → 12 + i < length d
    → byte_at (protect c s d).1 (12 + i)
      ≡ bit_xor
          (byte_at d (12 + i))
          (byte_at (packet_stream c s (i + 1) (read_u32 d 8) (pkt_index s d)) i)
protected_byte c s blocks d i h =
    let enough : 12 ≤ length d = omega (arith, h) in
    let e = crypt c s d in
    ap (λ w. byte_at w.1 (12 + i)) (protect_lem c s d enough)
    ∙ get_or-append_lt e (hmac_sha1_80 c e s.master_key) (12 + i) 0
        (omega (arith, length-crypt c s blocks d enough, h))
    ∙ crypt_byte c s blocks d enough (i + 1) i (omega arith) h
