-- ===== src/Whiteboard/Boards.antt =====
-- What every operation keeps of the two maps, and the merge of three boards.
use cpp_meet.Common.{
  ℕ, refl, sym, ap, ◌∙◌, Option, none, some, List, [], ◌∷◌, arith, inl, inr, Bool-cases,
}
use cpp_meet.Common.Keys.{bytes_eq, bytes_beq, bytes_beq_iff, lookup, insert, lookup-insert}
use cpp_meet.Wire.{Bytes}
use cpp_meet.Whiteboard.{
  AddEntry, CrdtWhiteboard, RemoveEntry, Stroke, local_add, local_remove, merge, merge_added,
  merge_removed, new_board, next_ts, remote_add, remote_remove, write_add, write_remove,
}
use cpp_meet.Whiteboard.Merge.{IsBoard, Keyed, KeysOnce, join_add, join_remove, join_assoc}
use cpp_meet.Whiteboard.Convergence.{Agree, agree, added-merge, removed-merge}

KeysOnce-insert :
    {V : Type 0} (u : Bytes) (v : V) (m : List (Bytes × V)) → KeysOnce m → KeysOnce (insert u v m)
unfolding insert lookup
KeysOnce-insert u v [] h = (refl, tt)
KeysOnce-insert u v ((k, w) ∷ m) h = elim (Bool-cases (bytes_beq k u)) [
  | inl same ↦ rw same h
  | inr other ↦ rw other (
    ground (arith, lookup-insert u k v m, bytes_beq_iff u k, bytes_beq_iff k u),
    KeysOnce-insert u v m h.1,
  )
]

Keyed-insert :
    (e : AddEntry) (m : List (Bytes × AddEntry)) → Keyed m → Keyed (insert e.stroke.uuid e m)
unfolding insert
Keyed-insert e [] h = (refl, tt)
Keyed-insert e ((k, w) ∷ m) h = elim (Bool-cases (bytes_beq k e.stroke.uuid)) [
  | inl same ↦ rw same (sym ((bytes_beq_iff k e.stroke.uuid).0 same), h.1)
  | inr other ↦ rw other (h.0, Keyed-insert e m h.1)
]

write_add-KeysOnce :
    (e : AddEntry) (o : Option AddEntry) (m : List (Bytes × AddEntry))
    → KeysOnce m
    → KeysOnce (write_add e o m)
unfolding write_add
write_add-KeysOnce e none m h = KeysOnce-insert e.stroke.uuid e m h
write_add-KeysOnce e (some old) m h = ground (arith, KeysOnce-insert e.stroke.uuid e m h)

write_add-Keyed :
    (e : AddEntry) (o : Option AddEntry) (m : List (Bytes × AddEntry))
    → Keyed m
    → Keyed (write_add e o m)
unfolding write_add
write_add-Keyed e none m h = Keyed-insert e m h
write_add-Keyed e (some old) m h = ground (arith, Keyed-insert e m h)

write_remove-KeysOnce :
    (u : Bytes) (e : RemoveEntry) (o : Option RemoveEntry) (m : List (Bytes × RemoveEntry))
    → KeysOnce m
    → KeysOnce (write_remove u e o m)
unfolding write_remove
write_remove-KeysOnce u e none m h = KeysOnce-insert u e m h
write_remove-KeysOnce u e (some old) m h = ground (arith, KeysOnce-insert u e m h)

new_board-IsBoard : (p : Bytes) → IsBoard (new_board p)
unfolding new_board
new_board-IsBoard p = record { added_once = tt; removed_once = tt; keyed = tt }

local_add-IsBoard : (b : CrdtWhiteboard) (s : Stroke) → IsBoard b → IsBoard (local_add b s)
unfolding local_add
local_add-IsBoard b s v =
    let e : AddEntry = record { stroke = s; ts = next_ts b.lamport_ts; peer_id = b.peer_id } in
    record {
      added_once = write_add-KeysOnce e (lookup s.uuid b.added) b.added v.added_once;
      removed_once = v.removed_once;
      keyed = write_add-Keyed e (lookup s.uuid b.added) b.added v.keyed;
    }

local_remove-IsBoard : (b : CrdtWhiteboard) (u : Bytes) → IsBoard b → IsBoard (local_remove b u)
unfolding local_remove
local_remove-IsBoard b u v =
    let e : RemoveEntry = record { ts = next_ts b.lamport_ts; peer_id = b.peer_id } in
    record {
      added_once = v.added_once;
      removed_once = write_remove-KeysOnce u e (lookup u b.removed) b.removed v.removed_once;
      keyed = v.keyed;
    }

remote_add-IsBoard :
    (b : CrdtWhiteboard) (s : Stroke) (t : ℕ) (p : Bytes) → IsBoard b → IsBoard (remote_add b s t p)
unfolding remote_add
remote_add-IsBoard b s t p v =
    let e : AddEntry = record { stroke = s; ts = t; peer_id = p } in
    record {
      added_once = write_add-KeysOnce e (lookup s.uuid b.added) b.added v.added_once;
      removed_once = v.removed_once;
      keyed = write_add-Keyed e (lookup s.uuid b.added) b.added v.keyed;
    }

remote_remove-IsBoard :
    (b : CrdtWhiteboard) (u : Bytes) (t : ℕ) (p : Bytes)
    → IsBoard b
    → IsBoard (remote_remove b u t p)
unfolding remote_remove
remote_remove-IsBoard b u t p v =
    let e : RemoveEntry = record { ts = t; peer_id = p } in
    record {
      added_once = v.added_once;
      removed_once = write_remove-KeysOnce u e (lookup u b.removed) b.removed v.removed_once;
      keyed = v.keyed;
    }

merge_added-IsBoard :
    (b : CrdtWhiteboard) (m : List (Bytes × AddEntry)) → IsBoard b → IsBoard (merge_added b m)
unfolding merge_added
merge_added-IsBoard b [] v = v
merge_added-IsBoard b ((u, e) ∷ m) v =
    merge_added-IsBoard (remote_add b e.stroke e.ts e.peer_id) m
      (remote_add-IsBoard b e.stroke e.ts e.peer_id v)

merge_removed-IsBoard :
    (b : CrdtWhiteboard) (m : List (Bytes × RemoveEntry)) → IsBoard b → IsBoard (merge_removed b m)
unfolding merge_removed
merge_removed-IsBoard b [] v = v
merge_removed-IsBoard b ((u, e) ∷ m) v =
    merge_removed-IsBoard (remote_remove b u e.ts e.peer_id) m
      (remote_remove-IsBoard b u e.ts e.peer_id v)

pub merge-IsBoard : (a b : CrdtWhiteboard) → IsBoard a → IsBoard (merge a b)
unfolding merge
merge-IsBoard a b v =
    merge_removed-IsBoard (merge_added a b.added) b.removed (merge_added-IsBoard a b.added v)

-- Boards that the operations can produce.
pub data Reachable : CrdtWhiteboard → Type 0 where
  start : (p : Bytes) → Reachable (new_board p)
  adds : (b : CrdtWhiteboard) (s : Stroke) → Reachable b → Reachable (local_add b s)
  removes : (b : CrdtWhiteboard) (u : Bytes) → Reachable b → Reachable (local_remove b u)
  hears_add :
      (b : CrdtWhiteboard) (s : Stroke) (t : ℕ) (p : Bytes)
      → Reachable b
      → Reachable (remote_add b s t p)
  hears_remove :
      (b : CrdtWhiteboard) (u : Bytes) (t : ℕ) (p : Bytes)
      → Reachable b
      → Reachable (remote_remove b u t p)
  merges : (a b : CrdtWhiteboard) → Reachable a → Reachable b → Reachable (merge a b)

-- Every board that the operations can produce from new ones holds each key once in either map, and
-- every stroke under its own id.
pub Reachable-IsBoard : (b : CrdtWhiteboard) → Reachable b → IsBoard b
Reachable-IsBoard _ (start p) = new_board-IsBoard p
Reachable-IsBoard _ (adds b s h) = local_add-IsBoard b s (Reachable-IsBoard b h)
Reachable-IsBoard _ (removes b u h) = local_remove-IsBoard b u (Reachable-IsBoard b h)
Reachable-IsBoard _ (hears_add b s t p h) = remote_add-IsBoard b s t p (Reachable-IsBoard b h)
Reachable-IsBoard _ (hears_remove b u t p h) = remote_remove-IsBoard b u t p (Reachable-IsBoard b h)
Reachable-IsBoard _ (merges a b h g) = merge-IsBoard a b (Reachable-IsBoard a h)

-- Where the second and the third board hold each key once and each stroke under its id, it makes no
-- difference to the entries and the visible strokes whether the third board is merged into
-- the merge of the first two, or the merge of the last two into the first.
pub merge_assoc :
    (a b c : CrdtWhiteboard)
    → IsBoard b
    → IsBoard c
    → Agree (merge (merge a b) c) (merge a (merge b c))
merge_assoc a b c vb vc =
    let vbc = merge-IsBoard b c vb in
    agree (merge (merge a b) c) (merge a (merge b c))
      (λ k.
        added-merge k (merge a b) c vc
        ∙ ap (λ o. join_add o (lookup k c.added)) (added-merge k a b vb)
        ∙ join_assoc (λ e. e.ts) (λ e. e.peer_id) (lookup k a.added) (lookup k b.added)
            (lookup k c.added)
        ∙ sym (
            added-merge k a (merge b c) vbc
            ∙ ap (λ o. join_add (lookup k a.added) o) (added-merge k b c vc)))
      (λ k.
        removed-merge k (merge a b) c vc
        ∙ ap (λ o. join_remove o (lookup k c.removed)) (removed-merge k a b vb)
        ∙ join_assoc (λ e. e.ts) (λ e. e.peer_id) (lookup k a.removed) (lookup k b.removed)
            (lookup k c.removed)
        ∙ sym (
            removed-merge k a (merge b c) vbc
            ∙ ap (λ o. join_remove (lookup k a.removed) o) (removed-merge k b c vc)))
