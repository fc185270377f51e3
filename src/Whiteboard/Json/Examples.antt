-- ===== src/Whiteboard/Json/Examples.antt =====
-- Witnesses: a library of trees, and a board with a stroke and a removal.
use cpp_meet.Common.{ℕ, ◌≡◌, refl, ap, true, false, Option, none, some, List, [], ◌∷◌, arith}
use cpp_meet.Common.Keys.{bytes_eq, bytes_beq, lookup, insert}
use cpp_meet.Common.Text.{codes}
use cpp_meet.Wire.{Bytes}
use cpp_meet.Whiteboard.{
  CrdtWhiteboard, Stroke, local_add, local_remove, new_board, write_add, write_remove,
}
use cpp_meet.Whiteboard.Json.{
  JsonLibrary, add_json, board_json, parse_fields, parse_json, parse_maps, point_json, remove_json,
  serialize_json, string_at, u64_at,
}
use cpp_meet.Whiteboard.Json.Failure.{AreAlike, parse_json_forgets}
use cpp_meet.Whiteboard.Json.Entries.{IsJson, IsStored}
use cpp_meet.Whiteboard.Json.RoundTrip.{parse_json-serialize_json}

mutual
  data Tree : Type 0 where
    text : Bytes → Tree
    natural : ℕ → Tree
    float : ℕ → Tree
    items : Forest → Tree

  data Forest : Type 0 where
    nothing : Forest
    item : Bytes → Tree → Forest → Forest

abbrev forest : List (Bytes × Tree) → Forest
forest [] = nothing
forest ((k, t) ∷ m) = item k t (forest m)

abbrev fields : Forest → List (Bytes × Tree)
fields nothing = []
fields (item k t f) = (k, t) ∷ fields f

abbrev unnamed : List Tree → Forest
unnamed [] = nothing
unnamed (t ∷ ts) = item [] t (unnamed ts)

abbrev trees : Forest → List Tree
trees nothing = []
trees (item k t f) = t ∷ trees f

fields-forest : (m : List (Bytes × Tree)) → fields (forest m) ≡ m
fields-forest [] = refl
fields-forest ((k, t) ∷ m) = ap (λ r. (k, t) ∷ r) (fields-forest m)

trees-unnamed : (ts : List Tree) → trees (unnamed ts) ≡ ts
trees-unnamed [] = refl
trees-unnamed (t ∷ ts) = ap (λ r. t ∷ r) (trees-unnamed ts)

abbrev at : Bytes → Tree → Option Tree
at k (items f) = lookup k (fields f)
at k (text s) = none
at k (natural n) = none
at k (float w) = none

abbrev elements : Tree → List Tree
elements (items f) = trees f
elements (text s) = text s ∷ []
elements (natural n) = natural n ∷ []
elements (float w) = float w ∷ []

abbrev get_text : Tree → Option Bytes
get_text (text s) = some s
get_text (natural n) = none
get_text (float w) = none
get_text (items f) = none

abbrev get_natural : Tree → Option ℕ
get_natural (natural n) = some n
get_natural (text s) = none
get_natural (float w) = none
get_natural (items f) = none

abbrev get_float : Tree → Option ℕ
get_float (float w) = some w
get_float (text s) = none
get_float (natural n) = none
get_float (items f) = none

-- A library that reads every text as the tree.
abbrev reading : Tree → JsonLibrary
reading t = record {
  Json = Tree;
  parse = λ s. some t;
  dump = λ j. some (codes "{}");
  string = text;
  unsigned = natural;
  real = float;
  array = λ ts. items (unnamed ts);
  object = λ m. items (forest m);
  at = at;
  elements = elements;
  get_string = get_text;
  get_u64 = get_natural;
  get_u32 = get_natural;
  get_float = get_float;
}

reading-IsJson : (t : Tree) → IsJson (reading t)
reading-IsJson t = record {
  at-object = λ k m. ap (lookup k) (fields-forest m);
  elements-array = trees-unnamed;
  get_string-string = λ s. refl;
  get_u64-unsigned = λ n h. refl;
  get_u32-unsigned = λ n h. refl;
  get_float-real = λ w h. refl;
}

abbrev line : Stroke
line = record {
  uuid = codes "s";
  points = record { x = 0; y = 1065353216 } ∷ [];
  color = 255;
  width = 1073741824;
}

abbrev board : CrdtWhiteboard
board = local_remove (local_add (new_board (codes "a")) line) (codes "r")

abbrev library : JsonLibrary
library = reading (board_json (reading (natural 0)) board)

board-IsStored : IsStored board
unfolding local_add local_remove new_board write_add write_remove lookup insert
board-IsStored = record {
  board = record { added_once = (refl, tt); removed_once = (refl, tt); keyed = (refl, tt) };
  clock_lt = omega arith;
  added_IsAdd = (
    record {
      color_lt = omega arith;
      width_finite = refl;
      points_finite = ((refl, refl), tt);
      ts_lt = omega arith;
    },
    tt,
  );
  removed_lt = (omega arith, tt);
}

written : serialize_json library board ≡ some (codes "{}")
unfolding serialize_json
written = refl

read_back : library.parse (codes "{}") ≡ some (board_json library board)
unfolding board_json add_json remove_json point_json
read_back = refl

parse_json-serialize_json_example :
    parse_json library (new_board (codes "b")) (codes "{}") ≡ (board, true)
parse_json-serialize_json_example =
    parse_json-serialize_json library board (new_board (codes "b")) (codes "{}")
      (reading-IsJson (board_json (reading (natural 0)) board)) board-IsStored written read_back

-- A text that ends behind the clock.
abbrev headless_tree : Tree
headless_tree =
    items (forest ((codes "peer_id", text (codes "a")) ∷ (codes "lamport_ts", natural 7) ∷ []))

abbrev headless : JsonLibrary
headless = reading headless_tree

headless_peer : string_at headless (codes "peer_id") headless_tree ≡ some (codes "a")
unfolding string_at lookup bytes_beq
headless_peer = refl

headless_clock : u64_at headless (codes "lamport_ts") headless_tree ≡ some 7
unfolding u64_at lookup bytes_beq
headless_clock = refl

-- The board's stroke is gone, its clock is another one, and the result is false.
headless_result :
    parse_json headless board (codes "{}")
    ≡ (record board { peer_id = codes "a"; lamport_ts = 7; added = [] }, false)
unfolding parse_json parse_fields parse_maps string_at u64_at lookup bytes_beq
headless_result = refl

parse_json_forgets_example :
    AreAlike
      (parse_json headless board (codes "{}"))
      (parse_json headless (new_board (codes "b")) (codes "{}"))
parse_json_forgets_example =
    parse_json_forgets headless board (new_board (codes "b")) (codes "{}") headless_tree (codes "a")
      7 refl headless_peer headless_clock
