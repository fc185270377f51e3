-- ===== src/Rooms/Examples.antt =====
-- Three connections in two rooms, with a toy format in the place of JSON: a message is its bytes, of
-- which the first, if there is one, is the addressee.
use cpp_meet.Common.Text.{codes}
use cpp_meet.Common.{◌≡◌, refl, true, false, List, [], ◌∷◌, some, none, ℕ, Option}
use cpp_meet.Common.Keys.{bytes_beq, erase, insert, lookup, bytes_eq, nat_eq}
use cpp_meet.Wire.{Bytes}
use cpp_meet.Rooms.{
  Json, RoomManager, Value, addressees, relay_parsed, target, tell_doc, add, contains, join, leave,
  leave_old, leave_room, members, new_manager, number, numbers, relay, remove, store, text,
}
use cpp_meet.Rooms.Membership.{IsConsistent, Reached, Reached-IsConsistent, joined, started}
use cpp_meet.Rooms.Notices.{join_unheard, told}

-- The member that a message has, whatever its key.
abbrev first_byte : Bytes → Option Bytes
first_byte [] = none
first_byte (b ∷ bs) = some (b ∷ [])

abbrev as_number : Bytes → Option ℕ
as_number [] = none
as_number (b ∷ bs) = some b

abbrev shown : List (Bytes × Value) → Bytes
shown [] = []
shown ((key, text t) ∷ fields) = t
shown ((key, number n) ∷ fields) = n ∷ []
shown ((key, numbers ns) ∷ fields) = ns

abbrev toy_json : Json
toy_json = record {
  Doc = Bytes;
  parse = λ bytes. some bytes;
  dump = λ doc. doc;
  object = shown;
  member = λ key doc. first_byte doc;
  is_null = λ doc. false;
  get_int = as_number;
  with_from = λ c doc. some (c ∷ doc);
}

abbrev red : Bytes
red = codes "red"

abbrev blue : Bytes
blue = codes "blue"

abbrev two_in_red : RoomManager
two_in_red = (join toy_json 2 red (join toy_json 1 red new_manager).0).0

abbrev third_in_blue : RoomManager
third_in_blue = (join toy_json 3 blue two_in_red).0

third_in_blue-Reached : Reached toy_json third_in_blue
third_in_blue-Reached = joined 3 blue (joined 2 red (joined 1 red started))

Reached-IsConsistent_example : IsConsistent third_in_blue
Reached-IsConsistent_example = Reached-IsConsistent toy_json third_in_blue third_in_blue-Reached

-- Connection 1 goes from red to blue, and 2, who stays in red, is told nothing.
join_unheard_example : told 2 (join toy_json 1 blue third_in_blue).2 ≡ false
unfolding join leave_old members store add contains remove lookup insert erase bytes_beq
join_unheard_example =
    join_unheard toy_json 1 third_in_blue Reached-IsConsistent_example blue red 2 (λ e. cc) refl

-- What 1 sends to 3, who is in another room.
abbrev stamped : Bytes
stamped = 1 ∷ 3 ∷ []

-- An empty message of 1 goes to 2, who is in the same room, and to nobody else.
room_run : relay toy_json 1 [] third_in_blue ≡ (2, 1 ∷ []) ∷ []
unfolding relay relay_parsed tell_doc addressees target join leave_old members store add contains
    remove lookup insert erase bytes_beq
room_run = refl

-- Leaving tells the one who stays.
leave_tells : told 1 (leave toy_json 2 third_in_blue).1 ≡ true
unfolding join leave_old members store add contains remove lookup insert erase leave leave_room
    bytes_beq
leave_tells = refl
