-- ===== src/Sfu/Room/Examples.antt =====
-- A room with two peers.
use cpp_meet.Common.{◌^◌, ◌<◌, ◌≡◌, refl, some, List, [], ◌∷◌, arith}
use cpp_meet.Common.Keys.{nat_eq, lookup, insert, erase}
use cpp_meet.Wire.{Bytes, u32_bytes}
use cpp_meet.Sfu.Room.{
  SfuRoom, add_peer, add_unless, new_room, remove_id, remove_peer, rewrite_ssrc, route_from,
  route_rtp, send_to_others,
}
use cpp_meet.Sfu.Room.Peers.{IsValid}
use cpp_meet.Sfu.Room.Routing.{
  Call, add, remove, run, IsRewritten, Reaches, room-IsValid, route_rtp-Reaches,
}

abbrev calls : List Call
calls = add 7 ∷ add 9 ∷ add 8 ∷ remove 9 ∷ []

abbrev room : SfuRoom
room = run calls (new_room [])

abbrev packet : Bytes
packet = 0x80 ∷ 96 ∷ 0 ∷ 1 ∷ 0 ∷ 0 ∷ 0 ∷ 9 ∷ 1 ∷ 2 ∷ 3 ∷ 4 ∷ 255 ∷ []

route_rtp_run :
    route_rtp room 7 packet
    ≡ (8, 0x80 ∷ 96 ∷ 0 ∷ 1 ∷ 0 ∷ 0 ∷ 0 ∷ 9 ∷ 16 ∷ 0 ∷ 0 ∷ 0 ∷ 255 ∷ []) ∷ []
unfolding route_rtp route_from send_to_others rewrite_ssrc add_peer add_unless remove_peer remove_id
    new_room lookup insert erase u32_bytes
route_rtp_run = refl

room-IsValid_example : IsValid (run calls (new_room []))
room-IsValid_example = room-IsValid [] calls (omega arith)

room_by_calls-IsValid : IsValid room
room_by_calls-IsValid = room-IsValid [] calls (omega arith)

below : room.next_ssrc < 2 ^ 32
unfolding add_peer add_unless remove_peer new_room lookup insert erase
below = omega arith

ssrc_of_7 : lookup 7 room.peer_ssrc_map ≡ some 0x10000000
unfolding add_peer add_unless remove_peer new_room lookup insert erase
ssrc_of_7 = refl

route_rtp-Reaches_example :
    (e : Bytes) × IsRewritten packet e 0x10000000 × Reaches room 7 e (route_rtp room 7 packet)
route_rtp-Reaches_example =
    route_rtp-Reaches room 7 packet 0x10000000 room_by_calls-IsValid below (omega arith) ssrc_of_7
