-- ===== src/Stun/StunAttr.antt =====
-- `enum class StunAttr` of module03_stun_ice/include/ice/stun_message.h: attribute types by number.
use cpp_meet.Common.{ℕ}

abbrev pub mapped_address : ℕ
mapped_address = 0x0001

abbrev pub error_code : ℕ
error_code = 0x0009

abbrev pub use_candidate : ℕ
use_candidate = 0x0025

abbrev pub username : ℕ
username = 0x0006

abbrev pub message_integrity : ℕ
message_integrity = 0x0008

abbrev pub xor_mapped_address : ℕ
xor_mapped_address = 0x0020

abbrev pub priority : ℕ
priority = 0x0024

abbrev pub ice_controlled : ℕ
ice_controlled = 0x8029

abbrev pub ice_controlling : ℕ
ice_controlling = 0x802A

abbrev pub fingerprint : ℕ
fingerprint = 0x8028
