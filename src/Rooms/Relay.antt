-- ===== src/Rooms/Relay.antt =====
-- What `RoomManager` passes on, to whom, and how often.
use cpp_meet.Common.{
  ℕ, ◌+◌, ◌≡◌, Bool, true, false, ◌&&◌, not, List, [], ◌∷◌, ◌==◌, Option, none, some,
}
use cpp_meet.Common.Keys.{◌=?◌, lookup, bytes_eq, nat_eq}
use cpp_meet.Wire.{Bytes}
use cpp_meet.Rooms.{RoomManager, Target, contains, members, nobody, peer, throws}
use cpp_meet.Rooms.Members.{is_in}

abbrev pub one_if : Bool → ℕ
one_if true = 1
one_if false = 0

abbrev count : ℕ → List ℕ → ℕ
count x [] = 0
count x (c ∷ cs) = one_if (c == x) + count x cs

-- How often a connection is sent a text.
abbrev pub times : ℕ → Bytes → List (ℕ × Bytes) → ℕ
times x m [] = 0
times x m ((c, msg) ∷ calls) = one_if ((c == x) && (msg =? m)) + times x m calls

-- No connection is there twice.
abbrev HasNoRepeats : List ℕ → Type 0
HasNoRepeats cs = (x : ℕ) → count x cs ≡ one_if (contains x cs)

abbrev AllHaveNoRepeats : List (Bytes × List ℕ) → Type 0
AllHaveNoRepeats rooms = (r : Bytes) → HasNoRepeats (members r rooms)

-- Whether the two connections are in one room, by the room that each one has.
abbrev pub meets : Option Bytes → Option Bytes → Bool
meets none o = false
meets (some room) o = is_in o room

-- Whether a message of `c` is for `x`.
abbrev pub is_for : ℕ → ℕ → RoomManager → Target → Bool
is_for c x s nobody = not (c == x) && meets (lookup c s.conn_room) (lookup x s.conn_room)
is_for c x s (peer to) = to == x
is_for c x s throws = false
