-- ===== src/Whiteboard/Json.antt =====
-- `serialize_json` and `parse_json` of module11_whiteboard/src/crdt_whiteboard.cpp. The JSON library is a
-- parameter. Where it throws, its functions give `none`: `parse` of a text that is not JSON, `dump` of a
-- string that is not UTF-8, `at` without the key, `get` of another type.
pub mod Entries
pub mod RoundTrip
pub mod Failure
mod Examples
use cpp_meet.Common.{ℕ, Bool, true, false, not, Option, none, some, List, [], ◌∷◌, ◌++◌, ◌==◌, map}
use cpp_meet.Common.Keys.{bytes_eq, insert}
use cpp_meet.Common.Options.{◌>>=◌}
use cpp_meet.Common.Text.{codes}
use cpp_meet.Wire.{Bytes}
use cpp_meet.Whiteboard.{AddEntry, CrdtWhiteboard, Point, RemoveEntry, Stroke}

-- nlohmann/json. `object` holds what was assigned to its keys; `elements` is what a loop over a value sees.
pub record JsonLibrary : Type 1 where
  pub Json : Type 0
  pub parse : Bytes → Option Json
  pub dump : Json → Option Bytes
  pub string : Bytes → Json
  pub unsigned : ℕ → Json
  pub real : ℕ → Json
  pub array : List Json → Json
  pub object : List (Bytes × Json) → Json
  pub at : Bytes → Json → Option Json
  pub elements : Json → List Json
  pub get_string : Json → Option Bytes
  pub get_u64 : Json → Option ℕ
  pub get_u32 : Json → Option ℕ
  pub get_float : Json → Option ℕ

-- What is caught ends the parse with the board as it is.
abbrev pub attempt :
    {A : Type 0} → Option A → CrdtWhiteboard → (A → CrdtWhiteboard × Bool) → CrdtWhiteboard × Bool
attempt none b f = (b, false)
attempt (some a) b f = f a

-- What follows where nothing was thrown.
abbrev pub behind :
    CrdtWhiteboard × Bool → (CrdtWhiteboard → CrdtWhiteboard × Bool) → CrdtWhiteboard × Bool
behind (b, false) f = (b, false)
behind (b, true) f = f b

module _ (J : JsonLibrary) where
  unfoldable pub point_json : Point → J.Json
  point_json p = J.object ((codes "x", J.real p.x) ∷ (codes "y", J.real p.y) ∷ [])

  unfoldable pub add_json : Bytes × AddEntry → J.Json
  add_json (uuid, e) = J.object (
      (codes "uuid", J.string e.stroke.uuid)
      ∷ (codes "color", J.unsigned e.stroke.color)
      ∷ (codes "width", J.real e.stroke.width)
      ∷ (codes "ts", J.unsigned e.ts)
      ∷ (codes "peer_id", J.string e.peer_id)
      ∷ (codes "points", J.array (map point_json e.stroke.points))
      ∷ [])

  unfoldable pub remove_json : Bytes × RemoveEntry → J.Json
  remove_json (uuid, e) = J.object (
      (codes "uuid", J.string uuid)
      ∷ (codes "ts", J.unsigned e.ts)
      ∷ (codes "peer_id", J.string e.peer_id)
      ∷ [])

  unfoldable pub board_json : CrdtWhiteboard → J.Json
  board_json b = J.object (
      (codes "peer_id", J.string b.peer_id)
      ∷ (codes "lamport_ts", J.unsigned b.lamport_ts)
      ∷ (codes "added", J.array (map add_json b.added))
      ∷ (codes "removed", J.array (map remove_json b.removed))
      ∷ [])

  -- `none` is an exception of `dump`.
  unfoldable pub serialize_json : CrdtWhiteboard → Option Bytes
  serialize_json b = J.dump (board_json b)

  unfoldable pub string_at : Bytes → J.Json → Option Bytes
  string_at key j = do v ← J.at key j; J.get_string v

  unfoldable pub u64_at : Bytes → J.Json → Option ℕ
  u64_at key j = do v ← J.at key j; J.get_u64 v

  unfoldable pub u32_at : Bytes → J.Json → Option ℕ
  u32_at key j = do v ← J.at key j; J.get_u32 v

  unfoldable pub float_at : Bytes → J.Json → Option ℕ
  float_at key j = do v ← J.at key j; J.get_float v

  unfoldable pub parse_points : List J.Json → Option (List Point)
  parse_points [] = some []
  parse_points (p ∷ ps) = do
    x ← float_at (codes "x") p
    y ← float_at (codes "y") p
    points ← parse_points ps
    some (record { x = x; y = y } ∷ points)

  unfoldable pub parse_add : J.Json → Option AddEntry
  parse_add e = do
    uuid ← string_at (codes "uuid") e
    color ← u32_at (codes "color") e
    width ← float_at (codes "width") e
    pts ← J.at (codes "points") e
    points ← parse_points (J.elements pts)
    ts ← u64_at (codes "ts") e
    peer_id ← string_at (codes "peer_id") e
    some (record {
      stroke = record { uuid = uuid; points = points; color = color; width = width };
      ts = ts;
      peer_id = peer_id;
    })

  unfoldable pub parse_remove : J.Json → Option (Bytes × RemoveEntry)
  parse_remove e = do
    uuid ← string_at (codes "uuid") e
    ts ← u64_at (codes "ts") e
    peer_id ← string_at (codes "peer_id") e
    some (uuid, record { ts = ts; peer_id = peer_id })

  unfoldable pub parse_added : List J.Json → CrdtWhiteboard → CrdtWhiteboard × Bool
  parse_added [] b = (b, true)
  parse_added (e ∷ es) b =
      attempt (parse_add e) b
        (λ a. parse_added es (record b { added = insert a.stroke.uuid a b.added }))

  unfoldable pub parse_removed : List J.Json → CrdtWhiteboard → CrdtWhiteboard × Bool
  parse_removed [] b = (b, true)
  parse_removed (e ∷ es) b =
      attempt (parse_remove e) b
        (λ r. parse_removed es (record b { removed = insert r.0 r.1 b.removed }))

  -- Behind the peer's name and its clock, in which the board is as the code has it by then.
  unfoldable pub parse_maps : J.Json → CrdtWhiteboard → CrdtWhiteboard × Bool
  parse_maps j b =
      let cleared = record b { added = [] } in
      attempt (J.at (codes "added") j) cleared (λ added.
        behind (parse_added (J.elements added) cleared) (λ c.
          let emptied = record c { removed = [] } in
          attempt (J.at (codes "removed") j) emptied
            (λ removed. parse_removed (J.elements removed) emptied)))

  unfoldable pub parse_fields : J.Json → CrdtWhiteboard → CrdtWhiteboard × Bool
  parse_fields j b = attempt (string_at (codes "peer_id") j) b (λ peer_id.
      let named = record b { peer_id = peer_id } in
      attempt (u64_at (codes "lamport_ts") j) named
        (λ ts. parse_maps j (record named { lamport_ts = ts })))

  -- The board behind the call, which an exception leaves half-way, and the result.
  unfoldable pub parse_json : CrdtWhiteboard → Bytes → CrdtWhiteboard × Bool
  parse_json b s = attempt (J.parse s) b (λ j. parse_fields j b)
