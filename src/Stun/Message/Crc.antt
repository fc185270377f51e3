-- ===== src/Stun/Message/Crc.antt =====
-- The FINGERPRINT and MESSAGE-INTEGRITY attributes cover the message in front of them, with the
-- length field that counts them (RFC 5389 15.4 and 15.5).
use native.Mathlib.Nat.{mod-eq_of_lt}
use cpp_meet.Common.{
  ℕ, ◌+◌, ◌/◌, ◌%◌, ◌^◌, ◌<◌, ◌≡◌, refl, ap, ◌∙◌, [], ◌∷◌, ◌++◌, arith, length, bit_xor,
  append_assoc, append-nil, length-append,
}
use cpp_meet.Common.Bits.{bit_xor-lt}
use cpp_meet.Wire.{Bytes, u16_bytes, u32_bytes, length-u32_bytes}
use cpp_meet.Stun.StunAttr
use cpp_meet.Stun.Message.{
  Attrs, StunMessage, add_fingerprint, add_message_integrity, crc32, crc32_loop, crc_step,
  fingerprint_of, make_crc32_table_entry, padding, serialize, serialize_attrs, with_header,
}

serialize_attrs-append :
    (xs ys : Attrs) → serialize_attrs (xs ++ ys) ≡ serialize_attrs xs ++ serialize_attrs ys
unfolding serialize_attrs
serialize_attrs-append [] ys = refl
serialize_attrs-append ((t, v) ∷ xs) ys = simp (serialize_attrs-append xs ys, append_assoc)

with_header-append :
    (m : StunMessage) (len : ℕ) (a b : Bytes)
    → with_header m len (a ++ b) ≡ with_header m len a ++ b
unfolding with_header
with_header-append m len a b = simp append_assoc

one_attr :
    (attr : ℕ) (value : Bytes) (n : ℕ)
    → length value ≡ n
    → padding n ≡ 0
    → n < 2 ^ 16
    → serialize_attrs ((attr, value) ∷ []) ≡ u16_bytes attr ++ (u16_bytes n ++ value)
unfolding serialize_attrs
one_attr attr value n hn hp hs = rw (hn, hp, mod-eq_of_lt hs, append-nil)

-- The header does not depend on the attributes of the record.
with_header-attrs :
    (m : StunMessage) (attrs : Attrs) (len : ℕ) (rest : Bytes)
    → with_header (record m { attrs = attrs }) len rest ≡ with_header m len rest
unfolding with_header
with_header-attrs m attrs len rest = refl

length-field :
    (attr n : ℕ) (value : Bytes)
    → length value ≡ n
    → length (u16_bytes attr ++ (u16_bytes n ++ value)) ≡ n + 4
unfolding u16_bytes
length-field attr n value h = omega arith

-- A serialized message whose last attribute is `value`, padded by nothing.
last_attr :
    (m : StunMessage) (attr : ℕ) (value : Bytes) (n : ℕ)
    → length value ≡ n
    → padding n ≡ 0
    → n < 2 ^ 16
    → serialize (record m { attrs = m.attrs ++ ((attr, value) ∷ []) })
      ≡ with_header m (length (serialize_attrs m.attrs) + (n + 4)) (serialize_attrs m.attrs)
        ++ (u16_bytes attr ++ (u16_bytes n ++ value))
unfolding serialize
last_attr m attr value n hn hp hs =
    let field = u16_bytes attr ++ (u16_bytes n ++ value) in
    let bytes = serialize_attrs m.attrs in
    let joined : serialize_attrs (m.attrs ++ ((attr, value) ∷ [])) ≡ bytes ++ field =
      serialize_attrs-append m.attrs ((attr, value) ∷ [])
      ∙ ap (λ (t : Bytes). bytes ++ t) (one_attr attr value n hn hp hs) in
    let size : length (bytes ++ field) ≡ length bytes + (n + 4) =
      omega (arith, length-append bytes field, length-field attr n value hn) in
    rw joined (
      with_header-attrs m (m.attrs ++ ((attr, value) ∷ [])) (length (bytes ++ field))
        (bytes ++ field)
      ∙ ap (λ (t : ℕ). with_header m t (bytes ++ field)) size
      ∙ with_header-append m (length bytes + (n + 4)) bytes field)

-- The bytes of a message with FINGERPRINT are the bytes that its CRC was taken of, with the length
-- that counts the attribute, and then the attribute: type, length 4 and CRC32 xor 0x5354554e.
pub serialize-add_fingerprint :
    (m : StunMessage)
    → let covered =
        with_header m (length (serialize_attrs m.attrs) + 8) (serialize_attrs m.attrs) in
      serialize (add_fingerprint m)
      ≡ covered
        ++ (u16_bytes 0x8028 ++ (u16_bytes 4 ++ u32_bytes (bit_xor (crc32 covered) 0x5354554e)))
unfolding add_fingerprint fingerprint_of
serialize-add_fingerprint m =
    last_attr m StunAttr.fingerprint (u32_bytes (fingerprint_of m)) 4
      (length-u32_bytes (fingerprint_of m)) refl (omega arith)

-- With a digest of twenty bytes, the bytes of a message with MESSAGE-INTEGRITY are the bytes that the
-- HMAC was taken of, with the length that counts the attribute, and then the attribute.
pub serialize-add_message_integrity :
    (hmac : Bytes → Bytes → Bytes) (m : StunMessage) (password : Bytes)
    → ((key input : Bytes) → length (hmac key input) ≡ 20)
    → let covered =
        with_header m (length (serialize_attrs m.attrs) + 24) (serialize_attrs m.attrs) in
      serialize (add_message_integrity hmac m password)
      ≡ covered ++ (u16_bytes 0x0008 ++ (u16_bytes 20 ++ hmac password covered))
unfolding add_message_integrity
serialize-add_message_integrity hmac m password h =
    last_attr m StunAttr.message_integrity _ 20 (h _ _) refl (omega arith)

crc_step-lt : (c : ℕ) → c < 2 ^ 32 → crc_step c < 2 ^ 32
crc_step-lt c h = ground (arith, bit_xor-lt 32 0xEDB88320 (c / 2) (omega arith) (omega arith))

entry-lt : (i : ℕ) → i < 2 ^ 32 → make_crc32_table_entry i < 2 ^ 32
unfolding make_crc32_table_entry
entry-lt i h = crc_step-lt _ (
    crc_step-lt _ (
      crc_step-lt _
        (crc_step-lt _ (crc_step-lt _ (crc_step-lt _ (crc_step-lt _ (crc_step-lt i h)))))))

crc32_loop-lt : (d : Bytes) (crc : ℕ) → crc < 2 ^ 32 → crc32_loop d crc < 2 ^ 32
unfolding crc32_loop
crc32_loop-lt [] crc h = h
crc32_loop-lt (b ∷ bs) crc h =
    crc32_loop-lt bs _
      (bit_xor-lt 32 (crc / 2 ^ 8) _ (omega arith) (entry-lt (bit_xor crc b % 256) (omega arith)))

-- The CRC is a 32-bit number.
pub crc32-lt : (d : Bytes) → crc32 d < 2 ^ 32
unfolding crc32
crc32-lt d = bit_xor-lt 32 _ 0xFFFFFFFF (crc32_loop-lt d 0xFFFFFFFF (omega arith)) (omega arith)
