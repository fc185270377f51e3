-- ===== src/Stun/Message/Examples.antt =====
-- Runs of STUN messages, and their theorems at concrete messages.
use cpp_meet.Common.{◌≡◌, refl, true, some, [], ◌∷◌, arith}
use cpp_meet.Wire.{Bytes}
use cpp_meet.Stun.StunType
use cpp_meet.Stun.StunAttr
use cpp_meet.Stun.Message.{StunMessage, crc32, crc32_loop, make_crc32_table_entry, parse, serialize}
use cpp_meet.Stun.Message.RoundTrip.{parse-serialize_message}

abbrev id : Bytes
id = 1 ∷ 2 ∷ 3 ∷ 4 ∷ 5 ∷ 6 ∷ 7 ∷ 8 ∷ 9 ∷ 10 ∷ 11 ∷ 12 ∷ []

-- A request with a user name of three bytes, which takes one byte of padding.
abbrev request : StunMessage
request = record {
  kind = StunType.binding_request;
  transaction_id = id;
  attrs = (StunAttr.username, b'a' ∷ b':' ∷ b'b' ∷ []) ∷ [];
}

abbrev other : StunMessage
other = record request { kind = StunType.binding_error }

-- The CRC32 of "123456789".
crc_check : crc32 (0x31 ∷ 0x32 ∷ 0x33 ∷ 0x34 ∷ 0x35 ∷ 0x36 ∷ 0x37 ∷ 0x38 ∷ 0x39 ∷ []) ≡ 0xCBF43926
unfolding crc32 crc32_loop make_crc32_table_entry
crc_check = refl

parse-serialize_message_example : parse other (serialize request) ≡ some (true, request)
parse-serialize_message_example = parse-serialize_message other request (omega arith)
