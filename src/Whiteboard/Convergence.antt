-- ===== src/Whiteboard/Convergence.antt =====
-- Replicas that merge one another's states agree, in whatever order and however often they do.
use cpp_meet.Common.{◌≡◌, refl, sym, ap, ap₂, ◌∙◌, some, List, [], ◌∷◌}
use cpp_meet.Common.Keys.{bytes_eq, lookup}
use cpp_meet.Wire.{Bytes}
use cpp_meet.Whiteboard.{
  AddEntry, CrdtWhiteboard, RemoveEntry, is_visible, merge, merge_added, merge_removed, remote_add,
  remote_remove, wins_over,
}
use cpp_meet.Whiteboard.Merge.{
  IsBoard, join_add, join_remove, join_assoc, join_comm, join_idem, lookup-merge_added,
  lookup-merge_removed,
}

removed-merge_added :
    (b : CrdtWhiteboard) (m : List (Bytes × AddEntry)) → (merge_added b m).removed ≡ b.removed
unfolding merge_added remote_add
removed-merge_added b [] = refl
removed-merge_added b ((u, e) ∷ m) = removed-merge_added (remote_add b e.stroke e.ts e.peer_id) m

added-merge_removed :
    (b : CrdtWhiteboard) (m : List (Bytes × RemoveEntry)) → (merge_removed b m).added ≡ b.added
unfolding merge_removed remote_remove
added-merge_removed b [] = refl
added-merge_removed b ((u, e) ∷ m) = added-merge_removed (remote_remove b u e.ts e.peer_id) m

pub added-merge :
    (k : Bytes) (a b : CrdtWhiteboard)
    → IsBoard b
    → lookup k (merge a b).added ≡ join_add (lookup k a.added) (lookup k b.added)
unfolding merge
added-merge k a b v =
    ap (λ m. lookup k m) (added-merge_removed (merge_added a b.added) b.removed)
    ∙ lookup-merge_added k a b.added v.added_once v.keyed

pub removed-merge :
    (k : Bytes) (a b : CrdtWhiteboard)
    → IsBoard b
    → lookup k (merge a b).removed ≡ join_remove (lookup k a.removed) (lookup k b.removed)
unfolding merge
removed-merge k a b v =
    lookup-merge_removed k (merge_added a b.added) b.removed v.removed_once
    ∙ ap (λ m. join_remove (lookup k m) (lookup k b.removed)) (removed-merge_added a b.added)

-- Two boards hold the same entries and show the same strokes.
pub record Agree (a b : CrdtWhiteboard) : Type 0 where
  pub same_added : (k : Bytes) → lookup k a.added ≡ lookup k b.added
  pub same_removed : (k : Bytes) → lookup k a.removed ≡ lookup k b.removed
  pub same_visible : (k : Bytes) → is_visible a k ≡ is_visible b k

pub agree :
    (a b : CrdtWhiteboard)
    → ((k : Bytes) → lookup k a.added ≡ lookup k b.added)
    → ((k : Bytes) → lookup k a.removed ≡ lookup k b.removed)
    → Agree a b
agree a b h g = record {
  same_added = h;
  same_removed = g;
  same_visible = λ k. unfold is_visible in ap₂ wins_over (h k) (g k);
}

-- Two writes of one peer at one time are the same write.
abbrev pub OneWrite : CrdtWhiteboard → CrdtWhiteboard → Type 0
OneWrite a b =
    (k : Bytes) (e f : AddEntry)
    → lookup k a.added ≡ some e
    → lookup k b.added ≡ some f
    → e.ts ≡ f.ts
    → e.peer_id ≡ f.peer_id
    → e ≡ f

-- Merging two boards that hold each key once and each stroke under its id gives, either way round, the same entries and the same visible strokes, where no
-- peer wrote two different strokes under one id at one time.
pub merge_comm :
    (a b : CrdtWhiteboard) → IsBoard a → IsBoard b → OneWrite a b → Agree (merge a b) (merge b a)
merge_comm a b va vb one =
    agree (merge a b) (merge b a)
      (λ k.
        added-merge k a b vb
        ∙ join_comm (λ e. e.ts) (λ e. e.peer_id) (lookup k a.added) (lookup k b.added) (one k)
        ∙ sym (added-merge k b a va))
      (λ k.
        removed-merge k a b vb
        ∙ join_comm (λ e. e.ts) (λ e. e.peer_id) (lookup k a.removed) (lookup k b.removed)
            (λ e f x y t p. cc)
        ∙ sym (removed-merge k b a va))

-- For boards that hold each key once and each stroke under its id, merging one a second time, or into itself, changes no entry and no visible stroke.
pub merge_idem :
    (a b : CrdtWhiteboard)
    → IsBoard a
    → IsBoard b
    → Agree (merge (merge a b) b) (merge a b) × Agree (merge a a) a
merge_idem a b va vb = (
  agree (merge (merge a b) b) (merge a b)
      (λ k.
        added-merge k (merge a b) b vb
        ∙ ap (λ o. join_add o (lookup k b.added)) (added-merge k a b vb)
        ∙ join_assoc (λ e. e.ts) (λ e. e.peer_id) (lookup k a.added) (lookup k b.added)
            (lookup k b.added)
        ∙ ap (λ o. join_add (lookup k a.added) o)
            (join_idem (λ e. e.ts) (λ e. e.peer_id) (lookup k b.added))
        ∙ sym (added-merge k a b vb))
      (λ k.
        removed-merge k (merge a b) b vb
        ∙ ap (λ o. join_remove o (lookup k b.removed)) (removed-merge k a b vb)
        ∙ join_assoc (λ e. e.ts) (λ e. e.peer_id) (lookup k a.removed) (lookup k b.removed)
            (lookup k b.removed)
        ∙ ap (λ o. join_remove (lookup k a.removed) o)
            (join_idem (λ e. e.ts) (λ e. e.peer_id) (lookup k b.removed))
        ∙ sym (removed-merge k a b vb)),
  agree (merge a a) a
      (λ k. added-merge k a a va ∙ join_idem (λ e. e.ts) (λ e. e.peer_id) (lookup k a.added))
      (λ k. removed-merge k a a va ∙ join_idem (λ e. e.ts) (λ e. e.peer_id) (lookup k a.removed)),
)
