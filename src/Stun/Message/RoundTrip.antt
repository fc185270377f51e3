-- ===== src/Stun/Message/RoundTrip.antt =====
-- What `serialize` writes, `parse` reads back, and `parse` ends on every input.
use cpp_meet.Common.{
  ℕ, zero, suc, ◌+◌, ◌*◌, ◌/◌, ◌%◌, ◌^◌, ◌<◌, ◌≤◌, ◌≡◌, ◌≢◌, refl, sym, ap, ◌∙◌, Bool, true, none,
  some, [], ◌∷◌, ◌++◌, arith, length, take, drop, replicate, All, append-nil, append_assoc,
  length-append, length-take, length-drop, length-replicate, take-append, drop-append,
}
use cpp_meet.Wire.{
  Bytes, byte_at, u16_bytes, u32_bytes, read_u16, read_u32, read_u16_first, read_u16_second,
}
use cpp_meet.Stun.Message.{
  Attrs, StunMessage, magic_cookie, padding, ParsedAttrs, is_stun, parsed, parse, parse_attrs,
  serialize, serialize_attrs, with_header,
}

-- The length of an attribute list on the wire.
abbrev pub wire_length : Attrs → ℕ
wire_length [] = 0
wire_length ((type, value) ∷ rest) = 4 + length value + padding (length value) + wire_length rest

pub length-serialize_attrs : (attrs : Attrs) → length (serialize_attrs attrs) ≡ wire_length attrs
unfolding serialize_attrs u16_bytes
length-serialize_attrs [] = refl
length-serialize_attrs ((t, v) ∷ rest) = omega (
  arith,
  length-append v (replicate (padding (length v)) 0 ++ serialize_attrs rest),
  length-append (replicate (padding (length v)) 0) (serialize_attrs rest),
  length-replicate {A = ℕ} (padding (length v)) 0,
  length-serialize_attrs rest,
)

-- Types and value lengths fit their 16-bit fields.
abbrev pub AttrsFit : Attrs → Type 0
AttrsFit = All (λ (a : ℕ × Bytes). (a.0 < 2 ^ 16) × (length a.1 < 2 ^ 16))

module _ (front rest v more : Bytes) (t : ℕ) where
  abbrev head : Bytes
  head = front ++ (u16_bytes t ++ u16_bytes (length v % 2 ^ 16))

  abbrev pad : Bytes
  pad = replicate (padding (length v)) 0

  -- An attribute in the middle of a buffer: as it is read, cut behind its header, and cut behind
  -- its padding.
  abbrev whole : Bytes
  whole =
      front ++ ((u16_bytes t ++ (u16_bytes (length v % 2 ^ 16) ++ (v ++ (pad ++ more)))) ++ rest)

  at_fields :
      whole
      ≡ front ++ (u16_bytes t ++ (u16_bytes (length v % 2 ^ 16) ++ (v ++ (pad ++ (more ++ rest)))))
  at_fields = simp append_assoc

  at_value : whole ≡ head ++ (v ++ (pad ++ (more ++ rest)))
  at_value = simp append_assoc

  at_next : whole ≡ (head ++ (v ++ pad)) ++ (more ++ rest)
  at_next = simp append_assoc

  length-head : length head ≡ length front + 4
  unfolding u16_bytes
  length-head = length-append front (u16_bytes t ++ u16_bytes (length v % 2 ^ 16))

  length-next : length (head ++ (v ++ pad)) ≡ length front + 4 + length v + padding (length v)
  length-next = omega (
    arith,
    length-head,
    length-append head (v ++ pad),
    length-append v pad,
    length-replicate {A = ℕ} (padding (length v)) 0,
  )

  module _ (t_fits : t < 2 ^ 16) (v_fits : length v < 2 ^ 16) (i : ℕ)
      (at_i : i ≡ length front) where
    read_type : read_u16 whole i ≡ t
    read_type =
        ap (λ d. read_u16 d i) at_fields
        ∙ read_u16_first front (v ++ (pad ++ (more ++ rest))) t (length v % 2 ^ 16) t_fits
            (omega arith) i at_i

    read_len : read_u16 whole (i + 2) ≡ length v
    read_len =
        ap (λ d. read_u16 d (i + 2)) at_fields
        ∙ read_u16_second front (v ++ (pad ++ (more ++ rest))) t (length v % 2 ^ 16) t_fits
            (omega arith) (i + 2) (omega arith)
        ∙ omega arith

    read_value : take (length v) (drop (i + 4) whole) ≡ v
    read_value =
        ap (λ d. take (length v) (drop (i + 4) d)) at_value
        ∙ ap (λ d. take (length v) d)
            (drop-append head (v ++ (pad ++ (more ++ rest))) (i + 4) (omega (arith, length-head)))
        ∙ take-append v (pad ++ (more ++ rest)) (length v) refl

parse_attrs-serialize :
    (attrs : Attrs) (fuel : ℕ) (front rest : Bytes) (i end : ℕ) (acc : Attrs)
    → length attrs < fuel
    → AttrsFit attrs
    → i ≡ length front
    → end ≡ i + wire_length attrs
    → parse_attrs fuel (front ++ (serialize_attrs attrs ++ rest)) i end acc
      ≡ some (true, acc ++ attrs)
unfolding parse_attrs serialize_attrs
parse_attrs-serialize attrs zero front rest i end acc hf fit hi he = absurd (omega arith)
parse_attrs-serialize [] (suc fuel) front rest i end acc hf fit hi he =
    ground (arith, append-nil acc)
parse_attrs-serialize ((t, v) ∷ attrs) (suc fuel) front rest i end acc hf fit hi he =
    let more = serialize_attrs attrs in
    let next = i + 4 + length v + padding (length v) in
    let acc' = acc ++ ((t, v) ∷ []) in
    let ih =
      parse_attrs-serialize attrs fuel (head front rest v more t ++ (v ++ pad front rest v more t))
        rest next end acc' (omega arith) fit.1 (omega (arith, length-next front rest v more t))
        (omega arith) in
    let later =
      ap (λ d. parse_attrs fuel d next end acc') (at_next front rest v more t)
      ∙ ih
      ∙ ap (λ a. some (true, a)) (append_assoc acc ((t, v) ∷ []) attrs) in
    rw
      (
        read_type front rest v more t fit.0.0 fit.0.1 i hi,
        read_len front rest v more t fit.0.0 fit.0.1 i hi,
        read_value front rest v more t fit.0.0 fit.0.1 i hi,
      )
      (ground (arith, later))

-- The loop over the attributes ends before its fuel does.
parse_attrs-ends :
    (fuel : ℕ) (d : Bytes) (i end : ℕ) (acc : Attrs)
    → 0 < fuel
    → end < i + 4 * fuel
    → parse_attrs fuel d i end acc ≢ none
unfolding parse_attrs
parse_attrs-ends zero d i end acc pos h = absurd (omega arith)
parse_attrs-ends (suc fuel) d i end acc pos h =
    let len = read_u16 d (i + 2) in
    ground (
      arith,
      parse_attrs-ends fuel d (i + 4 + len + padding len) end
          (acc ++ ((read_u16 d i, take len (drop (i + 4) d)) ∷ [])),
    )

-- `parse` gives an answer on every input.
pub parse_total : (m : StunMessage) (d : Bytes) → parse m d ≢ none
unfolding parse
parse_total m d = ground (arith, parse_attrs-ends (length d) d 20 (20 + read_u16 d 2) [])

-- A message as the setters build it: two zero bits in front, an id of twelve bytes, attributes that
-- fit their fields, and a total length that fits its own.
pub record IsMessage (m : StunMessage) : Type 0 where
  pub kind_fits : m.kind < 2 ^ 14
  pub id_length : length m.transaction_id ≡ 12
  pub attrs_fit : AttrsFit m.attrs
  pub total_fits : wire_length m.attrs < 2 ^ 16

head_of : StunMessage → ℕ → Bytes
head_of m len = u16_bytes m.kind ++ (u16_bytes len ++ u32_bytes magic_cookie)

-- The header read back, whatever stands behind the id.
header_back :
    (m : StunMessage) (len : ℕ) (rest : Bytes)
    → m.kind < 2 ^ 14
    → len < 2 ^ 16
    → let d = with_header m len rest in
      (read_u16 d 0 ≡ m.kind)
      × (read_u16 d 2 ≡ len)
      × (read_u32 d 4 ≡ magic_cookie)
      × (byte_at d 0 / 64 ≡ 0)
      × (drop 8 d ≡ m.transaction_id ++ rest)
unfolding with_header u16_bytes u32_bytes read_u16 read_u32
header_back m len rest hk hl = (omega arith, omega arith, omega arith, omega arith, refl)

length-le-wire : (attrs : Attrs) → length attrs ≤ wire_length attrs
length-le-wire [] = omega arith
length-le-wire ((t, v) ∷ rest) = omega (arith, length-le-wire rest)

length-with_header :
    (m : StunMessage) (len : ℕ) (rest : Bytes)
    → length m.transaction_id ≡ 12
    → length (with_header m len rest) ≡ 20 + length rest
unfolding with_header u16_bytes u32_bytes
length-with_header m len rest h = omega (arith, length-append m.transaction_id rest)

split :
    (m : StunMessage) (len : ℕ) (rest : Bytes)
    → with_header m len rest ≡ with_header m len [] ++ (rest ++ [])
unfolding with_header
split m len rest = simp (append_assoc, append-nil)

-- The loop over a serialized message finds its attributes.
attrs_back :
    (m : StunMessage) (len fuel : ℕ)
    → length m.transaction_id ≡ 12
    → length m.attrs < fuel
    → AttrsFit m.attrs
    → parse_attrs fuel
        (with_header m len (serialize_attrs m.attrs))
        20
        (20 + wire_length m.attrs)
        []
      ≡ some (true, m.attrs)
attrs_back m len fuel hid hf fit =
    let front = with_header m len [] in
    ap (λ d. parse_attrs fuel d 20 (20 + wire_length m.attrs) [])
      (split m len (serialize_attrs m.attrs))
    ∙ parse_attrs-serialize m.attrs fuel front [] 20 (20 + wire_length m.attrs) [] hf fit
        (omega (arith, length-with_header m len [] hid)) refl

parse_of_facts :
    (q m : StunMessage) (d : Bytes) (w : ℕ)
    → 20 + w ≤ length d
    → read_u32 d 4 ≡ magic_cookie
    → byte_at d 0 / 64 ≡ 0
    → read_u16 d 0 ≡ m.kind
    → read_u16 d 2 ≡ w
    → take 12 (drop 8 d) ≡ m.transaction_id
    → parse_attrs (length d) d 20 (20 + w) [] ≡ some (true, m.attrs)
    → parse q d ≡ some (true, m)
unfolding parse
parse_of_facts q m d w hl hc ht hk hw hid found =
    let end : parse_attrs (length d) d 20 (20 + read_u16 d 2) [] ≡ some (true, m.attrs) =
      ap (λ (t : ℕ). parse_attrs (length d) d 20 (20 + t) []) hw ∙ found in
    ground (arith, end)

-- A message that fits the wire format (type, id of twelve bytes, lengths) is read back from its own bytes, whatever the reading object
-- held: type, transaction id and every attribute in order, padding removed.
pub parse-serialize_message :
    (q m : StunMessage) → IsMessage m → parse q (serialize m) ≡ some (true, m)
unfolding serialize
parse-serialize_message q m h =
    let bytes = serialize_attrs m.attrs in
    let d = with_header m (length bytes) bytes in
    let len = length-serialize_attrs m.attrs in
    let (kind, words, cookie, top, cut) =
      header_back m (length bytes) bytes h.kind_fits (omega (arith, len)) in
    let size = length-with_header m (length bytes) bytes h.id_length in
    let id = ap (λ d. take 12 d) cut ∙ take-append m.transaction_id bytes 12 (sym h.id_length) in
    let found =
      attrs_back m (length bytes) (length d) h.id_length
        (omega (arith, size, len, length-le-wire m.attrs)) h.attrs_fit in
    let small : length bytes % 2 ^ 16 ≡ length bytes = omega (arith, len) in
    parse_of_facts q m d (wire_length m.attrs) (omega (arith, size, len)) cookie top kind
      (words ∙ len) id found

-- The bytes of a message as the setters build it pass the test for STUN.
pub is_stun-serialize : (m : StunMessage) → IsMessage m → is_stun (serialize m) ≡ true
unfolding is_stun serialize
is_stun-serialize m h =
    let bytes = serialize_attrs m.attrs in
    let (kind, words, cookie, top, cut) =
      header_back m (length bytes) bytes h.kind_fits
        (omega (arith, length-serialize_attrs m.attrs)) in
    ground (arith, cookie, top, length-with_header m (length bytes) bytes h.id_length)

parsed-id :
    (m n : StunMessage) (r : ParsedAttrs) (good : Bool)
    → parsed m r ≡ some (good, n)
    → m.transaction_id ≡ n.transaction_id
unfolding parsed
parsed-id m n none good h = cc
parsed-id m n (some (b, attrs)) good h = ground arith

-- What `parse` accepts has a transaction id of twelve bytes.
pub parse-id :
    (q m : StunMessage) (d : Bytes) → parse q d ≡ some (true, m) → length m.transaction_id ≡ 12
unfolding parse
parse-id q m d h =
    let first : StunMessage = record {
      kind = read_u16 d 0;
      transaction_id = take 12 (drop 8 d);
      attrs = [];
    } in
    let loop = parse_attrs (length d) d 20 (20 + read_u16 d 2) [] in
    ground (arith, parsed-id first m loop true, length-take 12 (drop 8 d), length-drop 8 d)
