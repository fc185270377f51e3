-- ===== src/Dtls/Fingerprint.antt =====
-- The text of a certificate's digest.
use cpp_meet.Common.{
  ℕ, ◌/◌, ◌%◌, ◌<◌, ◌≡◌, refl, sym, ap, ap₂, ◌∙◌, none, some, [], ◌∷◌, arith, All,
}
use mathlib.Core.List.{head-eq_of_cons-eq, tail-eq_of_cons-eq}
use cpp_meet.Wire.{Bytes}
use cpp_meet.Dtls.{
  DtlsTransport, OpenSsl, hex_byte, hex_digit, hex_rest, hex_text, local_fingerprint,
}

hex_digit_inj : (m n : ℕ) → m < 16 → n < 16 → hex_digit m ≡ hex_digit n → m ≡ n
unfolding hex_digit
hex_digit_inj m n h k e = ground arith

hex_byte_inj :
    (a b : ℕ) (xs ys : Bytes)
    → a < 256
    → b < 256
    → hex_byte a xs ≡ hex_byte b ys
    → (a ≡ b) × (xs ≡ ys)
hex_byte_inj a b xs ys h k e =
    let high = hex_digit_inj (a / 16) (b / 16) (omega arith) (omega arith) (head-eq_of_cons-eq e) in
    let low =
      hex_digit_inj (a % 16) (b % 16) (omega arith) (omega arith)
        (head-eq_of_cons-eq (tail-eq_of_cons-eq e)) in
    (omega arith, tail-eq_of_cons-eq (tail-eq_of_cons-eq e))

-- Every element is a byte.
abbrev pub AreBytes : Bytes → Type 0
AreBytes d = All (λ b. b < 256) d

hex_rest_inj : (xs ys : Bytes) → AreBytes xs → AreBytes ys → hex_rest xs ≡ hex_rest ys → xs ≡ ys
unfolding hex_rest
hex_rest_inj [] [] h k e = refl
hex_rest_inj [] (y ∷ ys) h k e = absurd cc
hex_rest_inj (x ∷ xs) [] h k e = absurd cc
hex_rest_inj (x ∷ xs) (y ∷ ys) (h, hs) (k, ks) e =
    let (first, rest) = hex_byte_inj x y (hex_rest xs) (hex_rest ys) h k (tail-eq_of_cons-eq e) in
    ap₂ (λ b bs. b ∷ bs) first (hex_rest_inj xs ys hs ks rest)

hex_text_inj : (xs ys : Bytes) → AreBytes xs → AreBytes ys → hex_text xs ≡ hex_text ys → xs ≡ ys
unfolding hex_text
hex_text_inj [] [] h k e = refl
hex_text_inj [] (y ∷ ys) h k e = absurd cc
hex_text_inj (x ∷ xs) [] h k e = absurd cc
hex_text_inj (x ∷ xs) (y ∷ ys) (h, hs) (k, ks) e =
    let (first, rest) = hex_byte_inj x y (hex_rest xs) (hex_rest ys) h k e in
    ap₂ (λ b bs. b ∷ bs) first (hex_rest_inj xs ys hs ks rest)

-- If two transports have certificates, whose digests are bytes, and show the same fingerprint, then the digests
-- are the same.
pub local_fingerprint_inj :
    (O : OpenSsl) (t u : DtlsTransport O.Ssl) (c d : Bytes)
    → O.certificate_sha256 t.ssl ≡ some c
    → O.certificate_sha256 u.ssl ≡ some d
    → AreBytes c
    → AreBytes d
    → local_fingerprint O t ≡ local_fingerprint O u
    → c ≡ d
unfolding local_fingerprint
local_fingerprint_inj O t u c d e f h k g = hex_text_inj c d h k (
    ap (λ o. elim o [ none ↦ [] | some digest ↦ hex_text digest ]) (sym e)
    ∙ g
    ∙ ap (λ o. elim o [ none ↦ [] | some digest ↦ hex_text digest ]) f)
