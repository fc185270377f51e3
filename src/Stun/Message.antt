-- ===== src/Stun/Message.antt =====
-- `StunMessage` of module03_stun_ice/src/stun_message.cpp and include/ice/stun_message.h.
-- `StunType` and `StunAttr` are enumerations over `uint16_t` that `static_cast` fills with any value,
-- so a type is its number. HMAC-SHA1 is OpenSSL's: a parameter of what uses it.
pub mod Crc
pub mod Address
pub mod RoundTrip
mod Examples
use cpp_meet.Common.{
  ℕ, zero, suc, ◌+◌, ◌-◌, ◌*◌, ◌/◌, ◌%◌, ◌^◌, Bool, true, false, not, ◌&&◌, ◌||◌, Option, none,
  some, List, [], ◌∷◌, ◌++◌, bit_xor, ltb, leb, ◌==◌, if◌then◌else◌, length, take, drop, replicate,
}
use cpp_meet.Stun.StunAttr
use cpp_meet.Wire.{Bytes, byte_at, u16_bytes, u32_bytes, read_u16, read_u32}

abbrev pub magic_cookie : ℕ
magic_cookie = 0x2112A442

-- `attrs_`: types and raw values.
abbrev pub Attrs : Type 0
Attrs = List (ℕ × Bytes)

pub record StunMessage : Type 0 where
  pub kind : ℕ
  pub transaction_id : Bytes
  pub attrs : Attrs

-- `StunMessage(StunType type)`; `random_id` is what `rand` gave for the twelve bytes.
unfoldable pub new_message : ℕ → Bytes → StunMessage
new_message kind random_id = record { kind = kind; transaction_id = random_id; attrs = [] }

-- `set_transaction_id`: a copy of twelve bytes.
unfoldable pub set_transaction_id : StunMessage → Bytes → StunMessage
set_transaction_id m tid = record m { transaction_id = take 12 tid }

-- `attrs_.push_back`
abbrev pub push_attr : StunMessage → ℕ → Bytes → StunMessage
push_attr m attr value = record m { attrs = m.attrs ++ ((attr, value) ∷ []) }

unfoldable pub add_string_attr : StunMessage → ℕ → Bytes → StunMessage
add_string_attr m attr value = push_attr m attr value

unfoldable pub add_uint32_attr : StunMessage → ℕ → ℕ → StunMessage
add_uint32_attr m attr value = push_attr m attr (u32_bytes value)

-- The eight value bytes; `ip` is the address after `ntohl`.
unfoldable pub xor_address_bytes : ℕ → ℕ → Bytes
xor_address_bytes ip port =
    0x00
    ∷ 0x01
    ∷ (u16_bytes (bit_xor port (magic_cookie / 2 ^ 16)) ++ u32_bytes (bit_xor ip magic_cookie))

-- The byte order functions are the C library's, so they are arguments.
unfoldable pub add_xor_mapped_address : (ℕ → ℕ) → StunMessage → ℕ → ℕ → StunMessage
add_xor_mapped_address ntohl m ip port =
    push_attr m StunAttr.xor_mapped_address (xor_address_bytes (ntohl ip) port)

-- The zero bytes that bring a value to a multiple of four.
abbrev pub padding : ℕ → ℕ
padding len = (4 - len % 4) % 4

unfoldable pub serialize_attrs : Attrs → Bytes
serialize_attrs [] = []
serialize_attrs ((type, value) ∷ rest) =
    u16_bytes type
    ++ (u16_bytes (length value % 2 ^ 16)
        ++ (value ++ (replicate (padding (length value)) 0 ++ serialize_attrs rest)))

-- The twenty header bytes with a given length field, and attribute bytes behind them.
unfoldable pub with_header : StunMessage → ℕ → Bytes → Bytes
with_header m len attr_bytes =
    u16_bytes m.kind
    ++ (u16_bytes (len % 2 ^ 16) ++ (u32_bytes magic_cookie ++ (m.transaction_id ++ attr_bytes)))

unfoldable pub serialize : StunMessage → Bytes
serialize m =
    let attr_bytes = serialize_attrs m.attrs in with_header m (length attr_bytes) attr_bytes

-- `hmac key input` is `HMAC(EVP_sha1(), key, input)`.
unfoldable pub add_message_integrity : (Bytes → Bytes → Bytes) → StunMessage → Bytes → StunMessage
add_message_integrity hmac m password =
    let attr_bytes = serialize_attrs m.attrs in
    push_attr m StunAttr.message_integrity
      (hmac password (with_header m (length attr_bytes + 24) attr_bytes))

-- One of the eight steps of `make_crc32_table_entry`.
abbrev pub crc_step : ℕ → ℕ
crc_step c = if c % 2 == 1 then bit_xor 0xEDB88320 (c / 2) else c / 2

unfoldable pub make_crc32_table_entry : ℕ → ℕ
make_crc32_table_entry i =
    crc_step (crc_step (crc_step (crc_step (crc_step (crc_step (crc_step (crc_step i)))))))

-- The loop of `crc32` over the bytes; the table holds `make_crc32_table_entry` at each index.
unfoldable pub crc32_loop : Bytes → ℕ → ℕ
crc32_loop [] crc = crc
crc32_loop (b ∷ bs) crc =
    crc32_loop bs (bit_xor (crc / 2 ^ 8) (make_crc32_table_entry (bit_xor crc b % 256)))

unfoldable pub crc32 : Bytes → ℕ
crc32 d = bit_xor (crc32_loop d 0xFFFFFFFF) 0xFFFFFFFF

unfoldable pub fingerprint_of : StunMessage → ℕ
fingerprint_of m =
    let attr_bytes = serialize_attrs m.attrs in
    bit_xor (crc32 (with_header m (length attr_bytes + 8) attr_bytes)) 0x5354554e

unfoldable pub add_fingerprint : StunMessage → StunMessage
add_fingerprint m = push_attr m StunAttr.fingerprint (u32_bytes (fingerprint_of m))

-- The attributes read so far, and whether the loop of `parse` ended well. `none` would be a loop that
-- is cut off by its fuel.
abbrev pub ParsedAttrs : Type 0
ParsedAttrs = Option (Bool × Attrs)

-- `while (offset + 4 <= end)`
unfoldable pub parse_attrs : ℕ → Bytes → ℕ → ℕ → Attrs → ParsedAttrs
parse_attrs zero d offset end acc = none
parse_attrs (suc fuel) d offset end acc =
    let attr_len = read_u16 d (offset + 2) in
    let value = take attr_len (drop (offset + 4) d) in
    let rest =
      parse_attrs fuel d (offset + 4 + attr_len + padding attr_len) end
        (acc ++ ((read_u16 d offset, value) ∷ [])) in
    if leb (offset + 4) end
    then (if ltb end (offset + 4 + attr_len) then some (false, acc) else rest)
    else some (true, acc)

-- The message that `parse` leaves, by how the loop over the attributes ended.
unfoldable pub parsed : StunMessage → ParsedAttrs → Option (Bool × StunMessage)
parsed m none = none
parsed m (some (good, attrs)) = some (good, record m { attrs = attrs })

-- `parse`: the result, and the message, which a late refusal leaves half read. Every round moves the
-- offset on by four at least, so `len` rounds are enough.
unfoldable pub parse : StunMessage → Bytes → Option (Bool × StunMessage)
unfolding parsed
parse m d =
    if ltb (length d) 20
    then some (false, m)
    else if not (read_u32 d 4 == magic_cookie)
    then some (false, m)
    else if not (byte_at d 0 / 64 == 0)
    then some (false, m)
    else (let m' : StunMessage = record {
      kind = read_u16 d 0;
      transaction_id = take 12 (drop 8 d);
      attrs = [];
    } in
        if ltb (length d) (20 + read_u16 d 2)
        then some (false, m')
        else parsed m' (parse_attrs (length d) d 20 (20 + read_u16 d 2) []))

unfoldable pub get_string_attr : Attrs → ℕ → Option Bytes
get_string_attr [] attr = none
get_string_attr ((type, value) ∷ rest) attr =
    if type == attr then some value else get_string_attr rest attr

unfoldable pub get_uint32_attr : Attrs → ℕ → Option ℕ
get_uint32_attr [] attr = none
get_uint32_attr ((type, value) ∷ rest) attr =
    if (type == attr) && leb 4 (length value)
    then some (read_u32 value 0)
    else get_uint32_attr rest attr

-- The address and the port.
unfoldable pub get_xor_mapped_address : (ℕ → ℕ) → Attrs → Option (ℕ × ℕ)
get_xor_mapped_address htonl [] = none
get_xor_mapped_address htonl ((type, value) ∷ rest) =
    if (type == StunAttr.xor_mapped_address) && leb 8 (length value)
    then some (
      htonl (bit_xor (read_u32 value 4) magic_cookie),
      bit_xor (read_u16 value 2) (magic_cookie / 2 ^ 16),
    )
    else get_xor_mapped_address htonl rest

unfoldable pub is_stun : Bytes → Bool
is_stun d =
    if ltb (length d) 20
    then false
    else if not (byte_at d 0 / 64 == 0)
    then false
    else read_u32 d 4 == magic_cookie
