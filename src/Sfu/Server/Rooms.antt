-- ===== src/Sfu/Server/Rooms.antt =====
-- The table of rooms.
use cpp_meet.Common.{◌≡◌, ◌≢◌, refl, Option, none, some}
use cpp_meet.Common.Keys.{bytes_eq, lookup, lookup-insert_self, lookup-insert_ne}
use cpp_meet.Wire.{Bytes}
use cpp_meet.Sfu.Room.{SfuRoom, new_room}
use cpp_meet.Sfu.Server.{SfuServer, create_room, get_or_create_room}

-- A room that was asked for is found again as it is, and the table stays; every other room is untouched.
pub record IsFound (room_id : Bytes) (s t : SfuServer) (room : SfuRoom) : Type 0 where
  pub again : get_or_create_room room_id t ≡ (t, room)
  pub others : (j : Bytes) → room_id ≢ j → lookup j t.rooms ≡ lookup j s.rooms

create_room-IsFound :
    (room_id : Bytes) (s : SfuServer) (o : Option SfuRoom)
    → lookup room_id s.rooms ≡ o
    → IsFound room_id s (create_room room_id s o).0 (create_room room_id s o).1
unfolding get_or_create_room create_room
create_room-IsFound room_id s (some room) e = record { again = rw e refl; others = λ j n. refl }
create_room-IsFound room_id s none e = record {
  again = rw (lookup-insert_self room_id (new_room room_id) s.rooms) refl;
  others = λ j n. lookup-insert_ne room_id j (new_room room_id) s.rooms n;
}

-- A room that was asked for is the one that every later request for its id gives, with the table of rooms as
-- it is, and no request touches the room of another id.
pub get_or_create_room-IsFound :
    (room_id : Bytes) (s : SfuServer)
    → IsFound room_id s (get_or_create_room room_id s).0 (get_or_create_room room_id s).1
unfolding get_or_create_room
get_or_create_room-IsFound room_id s = create_room-IsFound room_id s (lookup room_id s.rooms) refl
