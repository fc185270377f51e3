-- ===== src/Stun/Agent/Examples.antt =====
-- The agent's theorems at two concrete agents.
use cpp_meet.Common.{ℕ, ◌≡◌, refl, ap, true, false, some, [], ◌∷◌, arith, replicate}
use cpp_meet.Wire.{Bytes}
use cpp_meet.Stun.StunType
use cpp_meet.Stun.StunAttr
use cpp_meet.Stun.Message.{StunMessage, get_string_attr, get_xor_mapped_address, parse, serialize}
use cpp_meet.Stun.Agent.{
  IceAgent, Sent, controlling, controlled, Platform, SockAddr, blank_message, binding_request,
  on_packet,
}
use cpp_meet.Stun.Agent.Reply.{IsPlatform, IsGoodRequest, on_packet_answers}
use cpp_meet.Stun.Agent.Handshake.{ArePeers, handshake, request-IsGoodRequest}

abbrev env : Platform
env = record { hmac = λ k d. replicate 20 0; ntohl = λ x. x; htonl = λ x. x; ntohs = λ x. x }

env-IsPlatform : IsPlatform env
env-IsPlatform = record {
  digest = λ k d. refl;
  address_fits = λ x h. h;
  inverse = λ x h. refl;
  port_fits = λ x h. h;
}

abbrev alice : IceAgent
alice = record {
  role = controlling;
  local_ufrag = b'a' ∷ [];
  local_pwd = b'p' ∷ [];
  remote_ufrag = b'b' ∷ [];
  remote_pwd = b'q' ∷ [];
  remote_candidates = [];
  connected = false;
}

abbrev bob : IceAgent
bob = record {
  role = controlled;
  local_ufrag = b'b' ∷ [];
  local_pwd = b'q' ∷ [];
  remote_ufrag = b'a' ∷ [];
  remote_pwd = b'p' ∷ [];
  remote_candidates = [];
  connected = false;
}

are_peers : ArePeers alice bob
are_peers = record { name_to = refl; name_from = refl; short = omega arith }

abbrev home : SockAddr
home = record { s_addr = 0x7F000001; sin_port = 4000 }

abbrev zeros : ℕ → Bytes
zeros n = replicate n 0

abbrev from_alice : StunMessage
from_alice = binding_request env alice (zeros 12) (zeros 8)

good : IsGoodRequest bob (serialize from_alice) from_alice
good = request-IsGoodRequest env alice bob (zeros 12) (zeros 8) env-IsPlatform are_peers refl refl

handshake_example :
    (reply : Bytes) × (on_packet env bob (serialize from_alice) home (zeros 12)
      ≡ (record bob { connected = true }, (reply, home) ∷ []))
    × (on_packet env alice reply home (zeros 12) ≡ (record alice { connected = true }, []))
handshake_example =
    handshake env alice bob home home (zeros 12) (zeros 8) (zeros 12) (zeros 12) env-IsPlatform
      are_peers refl refl

on_packet_answers_example :
    (m : StunMessage) × (on_packet env bob (serialize from_alice) home (zeros 12)
      ≡ (record bob { connected = true }, (serialize m, home) ∷ []))
    × (parse blank_message (serialize m) ≡ some (true, m))
    × (m.kind ≡ StunType.binding_response)
    × (m.transaction_id ≡ from_alice.transaction_id)
    × (get_xor_mapped_address (λ x. x) m.attrs ≡ some (0x7F000001, 4000))
on_packet_answers_example =
    on_packet_answers env bob (serialize from_alice) from_alice blank_message home (zeros 12)
      env-IsPlatform (omega arith) (omega arith) good

connects : (on_packet env bob (serialize from_alice) home (zeros 12)).0.connected ≡ true
connects =
    ap (λ (r : IceAgent × Sent). r.0.connected)
      (handshake env alice bob home home (zeros 12) (zeros 8) (zeros 12) (zeros 12) env-IsPlatform
        are_peers refl refl).1

-- A request to bob that names other fragments.
abbrev stranger : StunMessage
stranger = record {
  kind = StunType.binding_request;
  transaction_id = zeros 12;
  attrs = (StunAttr.username, b'x' ∷ []) ∷ [];
}

stranger_name : get_string_attr stranger.attrs StunAttr.username ≡ some (b'x' ∷ [])
unfolding get_string_attr
stranger_name = refl
