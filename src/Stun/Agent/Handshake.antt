-- ===== src/Stun/Agent/Handshake.antt =====
-- Two agents that hold each other's credentials connect in one exchange.
use cpp_meet.Common.{
  ◌+◌, ◌^◌, ◌<◌, ◌≡◌, refl, sym, ap, ap₂, ◌∙◌, true, some, [], ◌∷◌, arith, length, length-append,
}
use cpp_meet.Common.Keys.{bytes_beq_iff}
use cpp_meet.Wire.{Bytes, length-u32_bytes}
use cpp_meet.Stun.StunType
use cpp_meet.Stun.StunAttr
use cpp_meet.Stun.Message.{
  StunMessage, add_fingerprint, add_message_integrity, add_string_attr, add_uint32_attr,
  add_xor_mapped_address, set_transaction_id, get_string_attr, is_stun, new_message, parse,
  serialize,
}
use cpp_meet.Stun.Message.RoundTrip.{IsMessage, parse-serialize_message, is_stun-serialize}
use cpp_meet.Stun.Agent.{
  IceAgent, IceRole, controlling, controlled, Platform, SockAddr, blank_message, binding_request,
  on_message, on_packet, on_parsed, response, role_attr, user_name, username_passes,
}
use cpp_meet.Stun.Agent.Reply.{IsPlatform, IsGoodRequest, answered, response-IsMessage}

-- Each agent's remote fragment is the other's local one.
pub record ArePeers (a b : IceAgent) : Type 0 where
  pub name_to : a.remote_ufrag ≡ b.local_ufrag
  pub name_from : b.remote_ufrag ≡ a.local_ufrag
  pub short : length a.local_ufrag + length a.remote_ufrag < 2 ^ 15

role_attr-lt : (r : IceRole) → role_attr r < 2 ^ 16
role_attr-lt controlling = omega arith
role_attr-lt controlled = omega arith

request-IsMessage :
    (env : Platform) (a : IceAgent) (random_id tiebreaker : Bytes)
    → IsPlatform env
    → length random_id ≡ 12
    → length tiebreaker ≡ 8
    → length a.local_ufrag + length a.remote_ufrag < 2 ^ 15
    → IsMessage (binding_request env a random_id tiebreaker)
unfolding binding_request add_fingerprint add_message_integrity add_string_attr add_uint32_attr
    new_message
request-IsMessage env a random_id tiebreaker p hi ht short =
    let name = length-append a.remote_ufrag (b':' ∷ a.local_ufrag) in
    record {
      kind_fits = omega arith;
      id_length = hi;
      attrs_fit = omega (arith, p.digest, length-u32_bytes, role_attr-lt a.role, name);
      total_fits = omega (arith, p.digest, length-u32_bytes, name);
    }

request-name :
    (env : Platform) (a : IceAgent) (random_id tiebreaker : Bytes)
    → get_string_attr (binding_request env a random_id tiebreaker).attrs StunAttr.username
      ≡ some (user_name a.remote_ufrag a.local_ufrag)
unfolding binding_request add_fingerprint add_message_integrity add_string_attr add_uint32_attr
    new_message get_string_attr
request-name env a random_id tiebreaker = refl

request-kind :
    (env : Platform) (a : IceAgent) (random_id tiebreaker : Bytes)
    → (binding_request env a random_id tiebreaker).kind ≡ StunType.binding_request
unfolding binding_request add_fingerprint add_message_integrity add_string_attr add_uint32_attr
    new_message
request-kind env a random_id tiebreaker = refl

name_passes :
    (a b : IceAgent)
    → ArePeers a b
    → username_passes b (some (user_name a.remote_ufrag a.local_ufrag)) ≡ true
unfolding username_passes
name_passes a b peers = (bytes_beq_iff _ _).1 (ap₂ user_name peers.name_to (sym peers.name_from))

-- A request that `a` sends is a good one for its peer `b`.
pub request-IsGoodRequest :
    (env : Platform) (a b : IceAgent) (random_id tiebreaker : Bytes)
    → IsPlatform env
    → ArePeers a b
    → length random_id ≡ 12
    → length tiebreaker ≡ 8
    → IsGoodRequest b
        (serialize (binding_request env a random_id tiebreaker))
        (binding_request env a random_id tiebreaker)
request-IsGoodRequest env a b random_id tiebreaker p peers hi ht =
    let message = request-IsMessage env a random_id tiebreaker p hi ht peers.short in
    record {
      stun = is_stun-serialize _ message;
      accepted = parse-serialize_message blank_message _ message;
      asks = request-kind env a random_id tiebreaker;
      name_passes =
          ap (username_passes b) (request-name env a random_id tiebreaker) ∙ name_passes a b peers;
    }

on_response :
    (env : Platform) (a : IceAgent) (d : Bytes) (m : StunMessage) (from : SockAddr)
    (random_id : Bytes)
    → is_stun d ≡ true
    → parse blank_message d ≡ some (true, m)
    → m.kind ≡ StunType.binding_response
    → on_packet env a d from random_id ≡ (record a { connected = true }, [])
unfolding on_packet on_parsed on_message
on_response env a d m from random_id s e k =
    ground (arith, s, k, ap (λ r. on_parsed env a r from random_id) e)

response-kind :
    (env : Platform) (a : IceAgent) (req : StunMessage) (from : SockAddr) (random_id : Bytes)
    → (response env a req from random_id).kind ≡ StunType.binding_response
unfolding response add_fingerprint add_message_integrity add_xor_mapped_address set_transaction_id
    new_message
response-kind env a req from random_id = refl

-- On a platform as documented, for two agents that hold each other's names, which are not too long, and
-- with random values of twelve and eight bytes, the request that `a` sends connects `b`, which sends one
-- packet back to where it came from, and that packet connects `a`, which sends nothing more.
pub handshake :
    (env : Platform) (a b : IceAgent) (at_a at_b : SockAddr)
    (random_a tiebreaker random_b random_c : Bytes)
    → IsPlatform env
    → ArePeers a b
    → length random_a ≡ 12
    → length tiebreaker ≡ 8
    → let request = serialize (binding_request env a random_a tiebreaker) in
      (reply : Bytes) × (on_packet env b request at_a random_b
        ≡ (record b { connected = true }, (reply, at_a) ∷ []))
      × (on_packet env a reply at_b random_c ≡ (record a { connected = true }, []))
handshake env a b at_a at_b random_a tiebreaker random_b random_c p peers hi ht =
    let req = binding_request env a random_a tiebreaker in
    let good = request-IsGoodRequest env a b random_a tiebreaker p peers hi ht in
    let id = (request-IsMessage env a random_a tiebreaker p hi ht peers.short).id_length in
    let message = response-IsMessage env b req at_a random_b p id in
    (
      serialize (response env b req at_a random_b),
      answered env b (serialize req) req at_a random_b good,
      on_response env a _ _ at_b random_c (is_stun-serialize _ message)
          (parse-serialize_message blank_message _ message) (response-kind env b req at_a random_b),
    )
