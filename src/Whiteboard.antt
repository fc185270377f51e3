-- ===== src/Whiteboard.antt =====
-- `CrdtWhiteboard` of module11_whiteboard/src/crdt_whiteboard.cpp and include/wb/crdt_whiteboard.h.
-- Strings are lists of bytes. The maps are used by key, and `merge` goes over the other board's maps in
-- the order of their lists, which stands for any order. Floats are only moved: a coordinate or a width
-- is its 32-bit pattern.
pub mod Order
pub mod Merge
pub mod Convergence
pub mod Boards
pub mod Clock
pub mod Json
mod Examples
use cpp_meet.Common.{
  ℕ, ◌+◌, ◌*◌, ◌%◌, ◌^◌, Bool, true, false, not, Option, none, some, List, [], ◌∷◌, ◌++◌, ◌==◌, ltb,
  leb, if◌then◌else◌, cons_some,
}
use cpp_meet.Common.Keys.{Eq, bytes_eq, lookup, insert}
use cpp_meet.Wire.{Bytes}

pub record Point : Type 0 where
  pub x : ℕ
  pub y : ℕ

pub record Stroke : Type 0 where
  pub uuid : Bytes
  pub points : List Point
  pub color : ℕ
  pub width : ℕ

pub record AddEntry : Type 0 where
  pub stroke : Stroke
  pub ts : ℕ
  pub peer_id : Bytes

pub record RemoveEntry : Type 0 where
  pub ts : ℕ
  pub peer_id : Bytes

pub record CrdtWhiteboard : Type 0 where
  pub peer_id : Bytes
  pub lamport_ts : ℕ
  pub added : List (Bytes × AddEntry)
  pub removed : List (Bytes × RemoveEntry)

unfoldable pub new_board : Bytes → CrdtWhiteboard
new_board peer_id = record { peer_id = peer_id; lamport_ts = 0; added = []; removed = [] }

-- `a > b` on strings: the first difference decides, and a proper prefix is smaller.
unfoldable pub string_gt : Bytes → Bytes → Bool
string_gt [] ys = false
string_gt (x ∷ xs) [] = true
string_gt (x ∷ xs) (y ∷ ys) = let rest = string_gt xs ys in if x == y then rest else ltb y x

unfoldable pub lww_wins : ℕ → Bytes → ℕ → Bytes → Bool
lww_wins ts_a pid_a ts_b pid_b = if not (ts_a == ts_b) then ltb ts_b ts_a else string_gt pid_a pid_b

-- `++lamport_ts_` and `remote_ts + 1` in `uint64_t`.
abbrev pub next_ts : ℕ → ℕ
next_ts ts = (ts + 1) % 2 ^ 64

-- The entry goes into the map if there is none or if it wins over the one that is there.
unfoldable pub write_add :
    AddEntry → Option AddEntry → List (Bytes × AddEntry) → List (Bytes × AddEntry)
write_add e none m = insert e.stroke.uuid e m
write_add e (some old) m =
    if lww_wins e.ts e.peer_id old.ts old.peer_id then insert e.stroke.uuid e m else m

unfoldable pub write_remove :
    Bytes
    → RemoveEntry
    → Option RemoveEntry
    → List (Bytes × RemoveEntry)
    → List (Bytes × RemoveEntry)
write_remove uuid e none m = insert uuid e m
write_remove uuid e (some old) m =
    if lww_wins e.ts e.peer_id old.ts old.peer_id then insert uuid e m else m

-- `local_add`: `tick`, then the write.
unfoldable pub local_add : CrdtWhiteboard → Stroke → CrdtWhiteboard
local_add b s =
    let e : AddEntry = record { stroke = s; ts = next_ts b.lamport_ts; peer_id = b.peer_id } in
    record b {
      lamport_ts = next_ts b.lamport_ts;
      added = write_add e (lookup s.uuid b.added) b.added;
    }

unfoldable pub local_remove : CrdtWhiteboard → Bytes → CrdtWhiteboard
local_remove b uuid =
    let e : RemoveEntry = record { ts = next_ts b.lamport_ts; peer_id = b.peer_id } in
    record b {
      lamport_ts = next_ts b.lamport_ts;
      removed = write_remove uuid e (lookup uuid b.removed) b.removed;
    }

unfoldable pub update_clock : ℕ → ℕ → ℕ
update_clock lamport_ts remote_ts =
    if leb lamport_ts remote_ts then next_ts remote_ts else lamport_ts

unfoldable pub remote_add : CrdtWhiteboard → Stroke → ℕ → Bytes → CrdtWhiteboard
remote_add b s ts peer_id =
    let e : AddEntry = record { stroke = s; ts = ts; peer_id = peer_id } in
    record b {
      lamport_ts = update_clock b.lamport_ts ts;
      added = write_add e (lookup s.uuid b.added) b.added;
    }

unfoldable pub remote_remove : CrdtWhiteboard → Bytes → ℕ → Bytes → CrdtWhiteboard
remote_remove b uuid ts peer_id =
    let e : RemoveEntry = record { ts = ts; peer_id = peer_id } in
    record b {
      lamport_ts = update_clock b.lamport_ts ts;
      removed = write_remove uuid e (lookup uuid b.removed) b.removed;
    }

-- The two loops of `merge`.
unfoldable pub merge_added : CrdtWhiteboard → List (Bytes × AddEntry) → CrdtWhiteboard
merge_added b [] = b
merge_added b ((uuid, e) ∷ rest) = merge_added (remote_add b e.stroke e.ts e.peer_id) rest

unfoldable pub merge_removed : CrdtWhiteboard → List (Bytes × RemoveEntry) → CrdtWhiteboard
merge_removed b [] = b
merge_removed b ((uuid, e) ∷ rest) = merge_removed (remote_remove b uuid e.ts e.peer_id) rest

unfoldable pub merge : CrdtWhiteboard → CrdtWhiteboard → CrdtWhiteboard
merge b other = merge_removed (merge_added b other.added) other.removed

-- By what the maps hold under the id.
unfoldable pub wins_over : Option AddEntry → Option RemoveEntry → Bool
wins_over none r = false
wins_over (some a) none = true
wins_over (some a) (some r) = lww_wins a.ts a.peer_id r.ts r.peer_id

unfoldable pub is_visible : CrdtWhiteboard → Bytes → Bool
is_visible b uuid = wins_over (lookup uuid b.added) (lookup uuid b.removed)

-- The loop of `visible_strokes` over the entries of the map.
unfoldable pub visible_among : CrdtWhiteboard → List (Bytes × AddEntry) → List Stroke
visible_among b [] = []
visible_among b ((uuid, e) ∷ rest) =
    let more = visible_among b rest in if is_visible b uuid then e.stroke ∷ more else more

unfoldable pub visible_strokes : CrdtWhiteboard → List Stroke
unfolding visible_among
visible_strokes b = visible_among b b.added
