-- ===== src/Srtp/KeyStream.antt =====
-- Counter mode as an exclusive or with a key stream that does not depend on the data.
use cpp_meet.Common.{
  ℕ, zero, suc, ◌+◌, ◌-◌, ◌<◌, ◌≤◌, ◌≡◌, refl, ap, sym, ◌∙◌, [], ◌∷◌, ◌++◌, arith, length, take,
  drop, bit_xor, length-drop, get_or-append_lt, get_or-append_ge, Bool-cases, ltb, ltb→lt, ltb→le,
  inl, inr,
}
use cpp_meet.Common.Bits.{bit_xor_cancel, bit_xor-zero}
use cpp_meet.Wire.{Bytes, byte_at}
use cpp_meet.Srtp.{Crypto, count_up, counter_loop, xor_bytes}

pub length-xor_bytes : (bs ks : Bytes) → length (xor_bytes bs ks) ≡ length bs
unfolding xor_bytes
length-xor_bytes [] ks = refl
length-xor_bytes (b ∷ bs) [] = refl
length-xor_bytes (b ∷ bs) (k ∷ ks) = ap suc (length-xor_bytes bs ks)

-- The same stream once more takes itself out again.
pub xor_bytes_cancel : (bs ks : Bytes) → xor_bytes (xor_bytes bs ks) ks ≡ bs
unfolding xor_bytes
xor_bytes_cancel [] ks = refl
xor_bytes_cancel (b ∷ bs) [] = refl
xor_bytes_cancel (b ∷ bs) (k ∷ ks) = rw (bit_xor_cancel b k, xor_bytes_cancel bs ks)

nothing_taken : (bs : Bytes) → xor_bytes bs [] ≡ bs
unfolding xor_bytes
nothing_taken [] = refl
nothing_taken (b ∷ bs) = refl

xor_bytes-append :
    (bs ks more : Bytes) (n : ℕ)
    → n ≡ length ks
    → xor_bytes (take n bs) ks ++ xor_bytes (drop n bs) more ≡ xor_bytes bs (ks ++ more)
unfolding xor_bytes
xor_bytes-append bs [] more zero h = refl
xor_bytes-append bs [] more (suc n) h = absurd (omega arith)
xor_bytes-append bs (k ∷ ks) more zero h = absurd (omega arith)
xor_bytes-append [] (k ∷ ks) more (suc n) h = refl
xor_bytes-append (b ∷ bs) (k ∷ ks) more (suc n) h =
    ap (λ (t : Bytes). bit_xor b k ∷ t) (xor_bytes-append bs ks more n (omega arith))

-- Byte `i` of the result, within both.
pub byte_at-xor_bytes :
    (bs ks : Bytes) (i : ℕ)
    → i < length bs
    → byte_at (xor_bytes bs ks) i ≡ bit_xor (byte_at bs i) (byte_at ks i)
unfolding xor_bytes
byte_at-xor_bytes [] ks i h = absurd (omega arith)
byte_at-xor_bytes (b ∷ bs) [] i h = sym (bit_xor-zero (byte_at (b ∷ bs) i))
byte_at-xor_bytes (b ∷ bs) (k ∷ ks) zero h = refl
byte_at-xor_bytes (b ∷ bs) (k ∷ ks) (suc i) h = byte_at-xor_bytes bs ks i (omega arith)

-- What AES is relied on for: blocks of sixteen bytes.
abbrev pub IsBlockCipher : Crypto → Type 0
IsBlockCipher c = (key block : Bytes) → length (c.aes_encrypt key block) ≡ 16

module _ (c : Crypto) (key : Bytes) where
  -- The blocks for `n` rounds from a counter on.
  unfoldable pub stream : ℕ → Bytes → Bytes
  stream zero counter = []
  stream (suc n) counter = c.aes_encrypt key counter ++ stream n (count_up counter).0

  module _ (blocks : IsBlockCipher c) where
    pub counter_loop-eq-xor :
        (n : ℕ) (counter buf : Bytes)
        → length buf ≤ n
        → counter_loop n c key counter buf ≡ xor_bytes buf (stream n counter)
    unfolding counter_loop stream
    counter_loop-eq-xor zero counter [] h = unfold xor_bytes in refl
    counter_loop-eq-xor zero counter (b ∷ bs) h = absurd (omega arith)
    counter_loop-eq-xor (suc n) counter [] h = unfold xor_bytes in refl
    counter_loop-eq-xor (suc n) counter (b ∷ bs) h =
        let rest = stream n (count_up counter).0 in
        let block = c.aes_encrypt key counter in
        ap (λ t. xor_bytes (take 16 (b ∷ bs)) block ++ t)
          (counter_loop-eq-xor n (count_up counter).0 (drop 16 (b ∷ bs))
            (omega (arith, length-drop 16 (b ∷ bs))))
        ∙ xor_bytes-append (b ∷ bs) block rest 16 (sym (blocks key counter))

    -- A longer stream starts with the shorter one.
    pub byte_at-stream :
        (m n : ℕ) (counter : Bytes) (i : ℕ)
        → i < m
        → i < n
        → byte_at (stream m counter) i ≡ byte_at (stream n counter) i
    unfolding stream
    byte_at-stream zero n counter i hm hn = absurd (omega arith)
    byte_at-stream (suc m) zero counter i hm hn = absurd (omega arith)
    byte_at-stream (suc m) (suc n) counter i hm hn =
        let block = c.aes_encrypt key counter in
        let next = (count_up counter).0 in
        let whole : length block ≡ 16 = blocks key counter in
        elim (Bool-cases (ltb i 16)) [
          | inl e ↦
              let inside : i < length block = omega (arith, whole, ltb→lt i 16 e) in
              get_or-append_lt block (stream m next) i 0 inside
              ∙ sym (get_or-append_lt block (stream n next) i 0 inside)
          | inr e ↦
              let beyond : i ≡ length block + (i - 16) = omega (arith, whole, ltb→le i 16 e) in
              get_or-append_ge block (stream m next) i (i - 16) 0 beyond
              ∙ byte_at-stream m n next (i - 16) (omega (arith, ltb→le i 16 e))
                  (omega (arith, ltb→le i 16 e))
              ∙ sym (get_or-append_ge block (stream n next) i (i - 16) 0 beyond)
        ]
