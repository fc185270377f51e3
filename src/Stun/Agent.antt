-- ===== src/Stun/Agent.antt =====
-- `IceAgent` of module03_stun_ice/src/ice_agent.cpp and include/ice/ice_agent.h. What it takes from
-- outside is an argument: HMAC-SHA1, the C library's byte order functions and `rand`.
pub mod Reply
pub mod Handshake
mod Examples
use cpp_meet.Common.{
  ℕ, ◌+◌, ◌*◌, ◌/◌, ◌%◌, ◌^◌, Bool, true, false, not, Option, none, some, List, [], ◌∷◌, ◌++◌, ◌==◌,
  if◌then◌else◌,
}
use cpp_meet.Common.Keys.{bytes_beq}
use cpp_meet.Wire.{Bytes, u32_bytes}
use cpp_meet.Stun.StunType
use cpp_meet.Stun.StunAttr
use cpp_meet.Stun.Message.{
  StunMessage, add_fingerprint, add_message_integrity, add_string_attr, add_uint32_attr,
  add_xor_mapped_address, get_string_attr, is_stun, new_message, parse, serialize,
  set_transaction_id,
}

pub data IceRole : Type 0 where
  controlling controlled : IceRole

pub record IceCandidate : Type 0 where
  pub foundation : Bytes
  pub priority : ℕ
  pub ip : ℕ
  pub port : ℕ
  pub kind : Bytes

pub record IceAgent : Type 0 where
  pub role : IceRole
  pub local_ufrag : Bytes
  pub local_pwd : Bytes
  pub remote_ufrag : Bytes
  pub remote_pwd : Bytes
  pub remote_candidates : List IceCandidate
  pub connected : Bool

-- `sin_addr.s_addr` and `sin_port`, both in network order.
pub record SockAddr : Type 0 where
  pub s_addr : ℕ
  pub sin_port : ℕ

-- What the agent calls and does not implement.
pub record Platform : Type 0 where
  pub hmac : Bytes → Bytes → Bytes
  pub ntohl : ℕ → ℕ
  pub htonl : ℕ → ℕ
  pub ntohs : ℕ → ℕ

unfoldable pub new_agent : IceRole → Bytes → Bytes → IceAgent
new_agent role ufrag pwd = record {
  role = role;
  local_ufrag = ufrag;
  local_pwd = pwd;
  remote_ufrag = [];
  remote_pwd = [];
  remote_candidates = [];
  connected = false;
}

unfoldable pub set_remote_credentials : IceAgent → Bytes → Bytes → IceAgent
set_remote_credentials a ufrag pwd = record a { remote_ufrag = ufrag; remote_pwd = pwd }

unfoldable pub add_remote_candidate : IceAgent → IceCandidate → IceAgent
add_remote_candidate a c = record a { remote_candidates = a.remote_candidates ++ (c ∷ []) }

-- `ufrag + ":" + ufrag`
abbrev pub user_name : Bytes → Bytes → Bytes
user_name first second = first ++ (b':' ∷ second)

-- A datagram that `on_send` is called with.
abbrev pub Sent : Type 0
Sent = List (Bytes × SockAddr)

-- What `StunMessage req;` holds before it is parsed.
abbrev pub blank_message : StunMessage
blank_message = record {
  kind = StunType.binding_request;
  transaction_id = 0 ∷ 0 ∷ 0 ∷ 0 ∷ 0 ∷ 0 ∷ 0 ∷ 0 ∷ 0 ∷ 0 ∷ 0 ∷ 0 ∷ [];
  attrs = [];
}

-- The binding response; `random_id` is overwritten by the request's transaction id.
unfoldable pub response : Platform → IceAgent → StunMessage → SockAddr → Bytes → StunMessage
response env a req from random_id = add_fingerprint (
    add_message_integrity env.hmac
      (add_xor_mapped_address env.ntohl
        (set_transaction_id (new_message StunType.binding_response random_id) req.transaction_id)
        from.s_addr (env.ntohs from.sin_port))
      a.local_pwd)

-- The test of USERNAME: an absent one passes.
unfoldable pub username_passes : IceAgent → Option Bytes → Bool
username_passes a none = true
username_passes a (some username) = bytes_beq username (user_name a.local_ufrag a.remote_ufrag)

-- `on_packet` on a message that `parse` accepted.
unfoldable pub on_message : Platform → IceAgent → StunMessage → SockAddr → Bytes → IceAgent × Sent
on_message env a req from random_id =
    if req.kind == StunType.binding_request
    then (if not (username_passes a (get_string_attr req.attrs StunAttr.username))
        then (a, [])
        else (
          record a { connected = true },
          (serialize (response env a req from random_id), from) ∷ [],
        ))
    else if req.kind == StunType.binding_response
    then (record a { connected = true }, [])
    else (a, [])

-- By the result of `parse`, which always gives one.
unfoldable pub on_parsed :
    Platform → IceAgent → Option (Bool × StunMessage) → SockAddr → Bytes → IceAgent × Sent
on_parsed env a (some (true, req)) from random_id = on_message env a req from random_id
on_parsed env a (some (false, req)) from random_id = (a, [])
on_parsed env a none from random_id = (a, [])

unfoldable pub on_packet : Platform → IceAgent → Bytes → SockAddr → Bytes → IceAgent × Sent
on_packet env a d from random_id =
    if not (is_stun d) then (a, []) else on_parsed env a (parse blank_message d) from random_id

-- `(110 << 24) | (65535 << 8) | 255`
abbrev pub host_priority : ℕ
host_priority = 110 * 2 ^ 24 + 65535 * 2 ^ 8 + 255

-- ICE-CONTROLLING or ICE-CONTROLLED
abbrev pub role_attr : IceRole → ℕ
role_attr controlling = StunAttr.ice_controlling
role_attr controlled = StunAttr.ice_controlled

-- The request of `send_binding_request`; `tiebreaker` is the eight bytes from `rand`.
unfoldable pub binding_request : Platform → IceAgent → Bytes → Bytes → StunMessage
binding_request env a random_id tiebreaker =
    let named =
      add_uint32_attr
        (add_string_attr (new_message StunType.binding_request random_id) StunAttr.username
          (user_name a.remote_ufrag a.local_ufrag))
        StunAttr.priority host_priority in
    add_fingerprint (
      add_message_integrity env.hmac (add_string_attr named (role_attr a.role) tiebreaker)
        a.remote_pwd)

unfoldable pub send_binding_request : Platform → IceAgent → SockAddr → Bytes → Bytes → Sent
send_binding_request env a to random_id tiebreaker =
    (serialize (binding_request env a random_id tiebreaker), to) ∷ []
