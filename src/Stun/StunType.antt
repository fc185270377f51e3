-- ===== src/Stun/StunType.antt =====
-- `enum class StunType` of module03_stun_ice/include/ice/stun_message.h: message types by number.
use cpp_meet.Common.{ℕ}

abbrev pub binding_request : ℕ
binding_request = 0x0001

abbrev pub binding_response : ℕ
binding_response = 0x0101

abbrev pub binding_error : ℕ
binding_error = 0x0111
