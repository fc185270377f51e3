-- ===== src/Stun/Agent/Reply.antt =====
-- What the agent answers, and when it counts as connected.
use cpp_meet.Common.{
  ℕ, ◌^◌, ◌<◌, ◌≡◌, ◌≢◌, ◌⊎◌, refl, ap, Bool, true, false, Option, none, some, [], ◌∷◌, arith,
  length, take, drop, length-take, take_all, Bool-cases, inl, inr,
}
use cpp_meet.Common.Keys.{bytes_beq_iff}
use cpp_meet.Wire.{Bytes, length-u32_bytes}
use cpp_meet.Stun.StunType
use cpp_meet.Stun.StunAttr
use cpp_meet.Stun.Message.{
  StunMessage, add_fingerprint, add_message_integrity, add_xor_mapped_address, get_string_attr,
  get_xor_mapped_address, is_stun, new_message, parse, serialize, set_transaction_id,
}
use cpp_meet.Stun.Message.RoundTrip.{IsMessage, parse-serialize_message, parse-id}
use cpp_meet.Stun.Message.Address.{length-xor_address_bytes, get-add_xor_mapped_address}
use cpp_meet.Stun.Agent.{
  IceAgent, Platform, SockAddr, blank_message, on_message, on_packet, on_parsed, response,
  user_name, username_passes,
}

-- What the agent relies on: a digest of twenty bytes, and byte orders that undo one another.
pub record IsPlatform (env : Platform) : Type 0 where
  pub digest : (key input : Bytes) → length (env.hmac key input) ≡ 20
  pub address_fits : (x : ℕ) → x < 2 ^ 32 → env.ntohl x < 2 ^ 32
  pub inverse : (x : ℕ) → x < 2 ^ 32 → env.htonl (env.ntohl x) ≡ x
  pub port_fits : (x : ℕ) → x < 2 ^ 16 → env.ntohs x < 2 ^ 16

pub response-IsMessage :
    (env : Platform) (a : IceAgent) (req : StunMessage) (from : SockAddr) (random_id : Bytes)
    → IsPlatform env
    → length req.transaction_id ≡ 12
    → IsMessage (response env a req from random_id)
unfolding response add_fingerprint add_message_integrity add_xor_mapped_address set_transaction_id
    new_message
response-IsMessage env a req from random_id p h = record {
  kind_fits = omega arith;
  id_length = omega (arith, length-take 12 req.transaction_id);
  attrs_fit = omega (arith, p.digest, length-xor_address_bytes, length-u32_bytes);
  total_fits = omega (arith, p.digest, length-xor_address_bytes, length-u32_bytes);
}

-- The packets that the agent answers: a binding request whose USERNAME, if there is one, is right.
pub record IsGoodRequest (a : IceAgent) (d : Bytes) (req : StunMessage) : Type 0 where
  pub stun : is_stun d ≡ true
  pub accepted : parse blank_message d ≡ some (true, req)
  pub asks : req.kind ≡ StunType.binding_request
  pub name_passes : username_passes a (get_string_attr req.attrs StunAttr.username) ≡ true

-- The address in a response is the sender's.
address_found :
    (env : Platform) (a : IceAgent) (req : StunMessage) (from : SockAddr) (random_id : Bytes)
    → IsPlatform env
    → from.s_addr < 2 ^ 32
    → from.sin_port < 2 ^ 16
    → get_xor_mapped_address env.htonl (response env a req from random_id).attrs
      ≡ some (from.s_addr, env.ntohs from.sin_port)
unfolding response add_fingerprint add_message_integrity set_transaction_id new_message
    add_xor_mapped_address
address_found env a req from random_id p hs hp =
    get-add_xor_mapped_address env.ntohl env.htonl
      (record {
        kind = StunType.binding_response;
        transaction_id = take 12 req.transaction_id;
        attrs = [];
      })
      from.s_addr (env.ntohs from.sin_port) (drop 1 (response env a req from random_id).attrs)
      (p.address_fits from.s_addr hs) (p.inverse from.s_addr hs) (p.port_fits from.sin_port hp) tt

pub answered :
    (env : Platform) (a : IceAgent) (d : Bytes) (req : StunMessage) (from : SockAddr)
    (random_id : Bytes)
    → IsGoodRequest a d req
    → on_packet env a d from random_id
      ≡ (record a { connected = true }, (serialize (response env a req from random_id), from) ∷ [])
unfolding on_packet on_parsed on_message
answered env a d req from random_id g =
    ground
      (arith, g.stun, ap (λ r. on_parsed env a r from random_id) g.accepted, g.asks, g.name_passes)

-- On a platform as documented, to a good request from an IPv4 address and port the agent sends one packet, back to the sender, and is connected. The packet
-- parses, as a binding response with the request's transaction id, and the address and port found in
-- it are the sender's.
pub on_packet_answers :
    (env : Platform) (a : IceAgent) (d : Bytes) (req q : StunMessage) (from : SockAddr)
    (random_id : Bytes)
    → IsPlatform env
    → from.s_addr < 2 ^ 32
    → from.sin_port < 2 ^ 16
    → IsGoodRequest a d req
    → (m : StunMessage) × (on_packet env a d from random_id
        ≡ (record a { connected = true }, (serialize m, from) ∷ []))
      × (parse q (serialize m) ≡ some (true, m))
      × (m.kind ≡ StunType.binding_response)
      × (m.transaction_id ≡ req.transaction_id)
      × (get_xor_mapped_address env.htonl m.attrs ≡ some (from.s_addr, env.ntohs from.sin_port))
on_packet_answers env a d req q from random_id p hs hp g =
    let id = parse-id blank_message req d g.accepted in
    (
      response env a req from random_id,
      answered env a d req from random_id g,
      parse-serialize_message q (response env a req from random_id)
          (response-IsMessage env a req from random_id p id),
      unfold response add_fingerprint add_message_integrity add_xor_mapped_address
            set_transaction_id new_message in
          refl,
      unfold response add_fingerprint add_message_integrity add_xor_mapped_address
            set_transaction_id new_message in
          take_all req.transaction_id 12 (omega (arith, id)),
      address_found env a req from random_id p hs hp,
    )

-- A request with another USERNAME than the local and the remote fragment is not answered, and leaves
-- the agent as it was.
pub on_packet_wrong_name :
    (env : Platform) (a : IceAgent) (d : Bytes) (req : StunMessage) (from : SockAddr)
    (random_id name : Bytes)
    → parse blank_message d ≡ some (true, req)
    → req.kind ≡ StunType.binding_request
    → get_string_attr req.attrs StunAttr.username ≡ some name
    → name ≢ user_name a.local_ufrag a.remote_ufrag
    → on_packet env a d from random_id ≡ (a, [])
unfolding on_packet on_parsed on_message username_passes
on_packet_wrong_name env a d req from random_id name e k u ne = ground (
  arith,
  ap (λ r. on_parsed env a r from random_id) e,
  bytes_beq_iff name (user_name a.local_ufrag a.remote_ufrag),
)

connected_parsed :
    (env : Platform) (a : IceAgent) (r : Option (Bool × StunMessage)) (from : SockAddr)
    (random_id : Bytes)
    → a.connected ≡ false
    → (on_parsed env a r from random_id).0.connected ≡ true
    → (req : StunMessage) × (r ≡ some (true, req))
      × ((req.kind ≡ StunType.binding_request) ⊎ (req.kind ≡ StunType.binding_response))
unfolding on_parsed on_message
connected_parsed env a none from random_id h c = cc
connected_parsed env a (some (false, req)) from random_id h c = cc
connected_parsed env a (some (true, req)) from random_id h c = (req, refl, ground arith)

-- Only a STUN message of type binding request or response connects an agent that was not.
pub connected_by :
    (env : Platform) (a : IceAgent) (d : Bytes) (from : SockAddr) (random_id : Bytes)
    → a.connected ≡ false
    → (on_packet env a d from random_id).0.connected ≡ true
    → (is_stun d ≡ true)
      × ((req : StunMessage) × (parse blank_message d ≡ some (true, req))
          × ((req.kind ≡ StunType.binding_request) ⊎ (req.kind ≡ StunType.binding_response)))
unfolding on_packet
connected_by env a d from random_id h c = elim (Bool-cases (is_stun d)) [
  | inl e ↦ (e, connected_parsed env a (parse blank_message d) from random_id h (rw (e) at c))
  | inr e ↦ cc
]
