-- ===== src/Rooms.antt =====
-- `RoomManager` of module05_signaling/src/room_manager.cpp and include/sig/room_manager.h. Each method is
-- one step under its mutex, and gives the calls of `notify_`, which is taken to be set, in order. The
-- JSON library is a parameter; texts are taken to be UTF-8, so that `dump` does not throw. A room's set
-- of connections is a list without repetition, whose order plays no part. A connection number is an `int`,
-- given as the number below 2 ^ 32 with its bits.
pub mod Members
pub mod Membership
pub mod Notices
pub mod Relay
mod Examples
use Prim.Native.Char.{code}
use Prim.Native.String.{String}
use cpp_meet.Common.Text.{codes}
use cpp_meet.Common.{
  ℕ, Bool, true, false, List, [], ◌∷◌, ◌++◌, ◌==◌, if◌then◌else◌, map, Option, none, some,
}
use cpp_meet.Common.Keys.{erase, insert, lookup, nat_eq, bytes_eq}
use cpp_meet.Wire.{Bytes}

-- The values that the code puts in an object.
pub data Value : Type 0 where
  text : Bytes → Value
  number : ℕ → Value
  numbers : List ℕ → Value

-- nlohmann/json: `parse`, `dump`, an object literal, the member of an object under a key, `is_null`, `get<int>`,
-- which converts numbers and booleans and throws for anything else, and the assignment of "from", which
-- throws for what is neither an object nor null.
pub record Json : Type 1 where
  pub Doc : Type 0
  pub parse : Bytes → Option Doc
  pub dump : Doc → Bytes
  pub object : List (Bytes × Value) → Doc
  pub member : Bytes → Doc → Option Doc
  pub is_null : Doc → Bool
  pub get_int : Doc → Option ℕ
  pub with_from : ℕ → Doc → Option Doc

-- For whom a message is: "to" is absent or null, is converted to an `int`, or makes `get` throw.
pub data Target : Type 0 where
  nobody : Target
  peer : ℕ → Target
  throws : Target

unfoldable pub target_of : Bool → Option ℕ → Target
target_of true to = nobody
target_of false none = throws
target_of false (some to) = peer to

unfoldable pub target : (json : Json) → json.Doc → Target
target json doc = elim (json.member (codes "to") doc) [
  | none ↦ nobody
  | some v ↦ target_of (json.is_null v) (json.get_int v)
]

pub record RoomManager : Type 0 where
  pub rooms : List (Bytes × List ℕ)
  pub conn_room : List (ℕ × Bytes)

abbrev pub new_manager : RoomManager
new_manager = record { rooms = []; conn_room = [] }

unfoldable pub contains : ℕ → List ℕ → Bool
contains c [] = false
contains c (x ∷ xs) = let later = contains c xs in if x == c then true else later

-- `insert` and `erase` of a set.
unfoldable pub add : ℕ → List ℕ → List ℕ
add c xs = if contains c xs then xs else c ∷ xs

unfoldable pub remove : ℕ → List ℕ → List ℕ
remove c [] = []
remove c (x ∷ xs) = let later = remove c xs in if x == c then later else x ∷ later

-- `rooms_[room_id]`, empty where there is none.
unfoldable pub members : Bytes → List (Bytes × List ℕ) → List ℕ
members room rooms = elim (lookup room rooms) [ none ↦ [] | some ms ↦ ms ]

-- The set without the connection; a set that becomes empty goes.
unfoldable pub store : Bytes → List ℕ → List (Bytes × List ℕ) → List (Bytes × List ℕ)
store room [] rooms = erase room rooms
store room (m ∷ ms) rooms = insert room (m ∷ ms) rooms

abbrev pub vacate : ℕ → Bytes → List (Bytes × List ℕ) → List (Bytes × List ℕ)
vacate c room rooms = store room (remove c (members room rooms)) rooms

-- The rooms without the connection, if it was in one.
unfoldable pub leave_old : ℕ → Option Bytes → List (Bytes × List ℕ) → List (Bytes × List ℕ)
leave_old c none rooms = rooms
leave_old c (some old) rooms = vacate c old rooms

abbrev pub notice : Json → String → ℕ → Bytes → Bytes
notice json kind c room = json.dump (
    json.object (
      (codes "type", text (codes kind))
      ∷ (codes "peer_id", number c)
      ∷ (codes "room_id", text room)
      ∷ []))

-- One call of `notify_` each, with the same text.
abbrev pub tell : Bytes → List ℕ → List (ℕ × Bytes)
tell msg cs = map (λ c. (c, msg)) cs

-- The state, the reply, and the calls of `notify_`.
unfoldable pub join : Json → ℕ → Bytes → RoomManager → RoomManager × Bytes × List (ℕ × Bytes)
join json c room s =
    let rooms = leave_old c (lookup c s.conn_room) s.rooms in
    let joined = insert room (add c (members room rooms)) rooms in
    let peers = remove c (members room joined) in
    (
      record { rooms = joined; conn_room = insert c room s.conn_room },
      json.dump (
          json.object (
            (codes "type", text (codes "room_info"))
            ∷ (codes "room_id", text room)
            ∷ (codes "peers", numbers peers)
            ∷ [])),
      tell (notice json "peer_joined" c room) peers,
    )

unfoldable pub leave_room : Json → ℕ → RoomManager → Option Bytes → RoomManager × List (ℕ × Bytes)
leave_room json c s none = (s, [])
leave_room json c s (some room) = (
  record { rooms = vacate c room s.rooms; conn_room = erase c s.conn_room },
  tell (notice json "peer_left" c room) (remove c (members room s.rooms)),
)

unfoldable pub leave : Json → ℕ → RoomManager → RoomManager × List (ℕ × Bytes)
leave json c s = leave_room json c s (lookup c s.conn_room)

-- The document with the sender in it, to each of these connections, unless the assignment throws.
unfoldable pub tell_doc : (json : Json) → Option json.Doc → List ℕ → List (ℕ × Bytes)
tell_doc json none cs = []
tell_doc json (some doc) cs = tell (json.dump doc) cs

-- Who gets a message for this target, if `get` does not throw.
unfoldable pub addressees : ℕ → RoomManager → Target → List ℕ
addressees from s (peer to) = to ∷ []
addressees from s nobody = elim (lookup from s.conn_room) [
  | none ↦ []
  | some room ↦ remove from (members room s.rooms)
]
addressees from s throws = []

-- Every exception is caught, and nothing is sent then. `rooms_[room_id]` is there when it is read.
unfoldable pub relay_parsed : (json : Json) → ℕ → RoomManager → Option json.Doc → List (ℕ × Bytes)
relay_parsed json from s none = []
relay_parsed json from s (some doc) =
    tell_doc json (json.with_from from doc) (addressees from s (target json doc))

unfoldable pub relay : Json → ℕ → Bytes → RoomManager → List (ℕ × Bytes)
relay json from msg s = relay_parsed json from s (json.parse msg)
