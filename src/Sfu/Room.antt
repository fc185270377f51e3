-- ===== src/Sfu/Room.antt =====
-- `SfuRoom` of module09_sfu/src/sfu_room.cpp and include/sfu/sfu_room.h. Each method holds the mutex
-- for its whole body, so a method is one step. `send_fn_` is the caller's: a method returns the calls
-- of it, in order. `peer_ssrc_map_` is used by key alone.
pub mod Peers
pub mod Routing
mod Examples
use cpp_meet.Common.{
  ℕ, ◌+◌, ◌*◌, ◌/◌, ◌%◌, ◌^◌, Bool, true, false, not, Option, none, some, List, [], ◌∷◌, ◌++◌, ◌==◌,
  ltb, if◌then◌else◌, length, take, drop,
}
use cpp_meet.Common.Keys.{Eq, nat_eq, lookup, insert, erase}
use cpp_meet.Wire.{Bytes, u32_bytes}

pub record SfuRoom : Type 0 where
  pub room_id : Bytes
  pub peer_ssrc_map : List (ℕ × ℕ)
  pub peers : List ℕ
  pub next_ssrc : ℕ

unfoldable pub new_room : Bytes → SfuRoom
new_room room_id = record {
  room_id = room_id;
  peer_ssrc_map = [];
  peers = [];
  next_ssrc = 0x10000000;
}

-- `add_peer` by what the map holds of the peer.
unfoldable pub add_unless : SfuRoom → ℕ → Option ℕ → SfuRoom
add_unless r peer_id (some ssrc) = r
add_unless r peer_id none = record r {
  peer_ssrc_map = insert peer_id r.next_ssrc r.peer_ssrc_map;
  peers = r.peers ++ (peer_id ∷ []);
  next_ssrc = (r.next_ssrc + 1) % 2 ^ 32;
}

unfoldable pub add_peer : SfuRoom → ℕ → SfuRoom
unfolding add_unless
add_peer r peer_id = add_unless r peer_id (lookup peer_id r.peer_ssrc_map)

-- `erase(remove(...))`: every occurrence goes.
unfoldable pub remove_id : ℕ → List ℕ → List ℕ
remove_id peer_id [] = []
remove_id peer_id (p ∷ ps) =
    let rest = remove_id peer_id ps in if p == peer_id then rest else p ∷ rest

unfoldable pub remove_peer : SfuRoom → ℕ → SfuRoom
remove_peer r peer_id = record r {
  peer_ssrc_map = erase peer_id r.peer_ssrc_map;
  peers = remove_id peer_id r.peers;
}

-- A call of `send_fn_`: the peer, and the bytes.
abbrev pub Sends : Type 0
Sends = List (ℕ × Bytes)

-- The loop over `peers_` that leaves one out.
unfoldable pub send_to_others : ℕ → Bytes → List ℕ → Sends
send_to_others from_peer_id d [] = []
send_to_others from_peer_id d (p ∷ ps) =
    let rest = send_to_others from_peer_id d ps in if p == from_peer_id then rest else (p, d) ∷ rest

-- A copy of the packet with bytes 8 to 11 overwritten.
unfoldable pub rewrite_ssrc : Bytes → ℕ → Bytes
rewrite_ssrc d ssrc = take 8 d ++ (u32_bytes ssrc ++ drop 12 d)

-- `route_rtp` by what the map holds of the sender.
unfoldable pub route_from : SfuRoom → ℕ → Bytes → Option ℕ → Sends
route_from r from_peer_id d none = []
route_from r from_peer_id d (some out_ssrc) =
    send_to_others from_peer_id (rewrite_ssrc d out_ssrc) r.peers

unfoldable pub route_rtp : SfuRoom → ℕ → Bytes → Sends
unfolding route_from
route_rtp r from_peer_id d =
    if ltb (length d) 12
    then []
    else route_from r from_peer_id d (lookup from_peer_id r.peer_ssrc_map)

unfoldable pub route_rtcp : SfuRoom → ℕ → Bytes → Sends
route_rtcp r from_peer_id d = if ltb (length d) 4 then [] else send_to_others from_peer_id d r.peers
