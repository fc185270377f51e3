-- ===== src/Whiteboard/Merge.antt =====
-- `merge` as a join of the entries under each key.
use cpp_meet.Common.{
  ℕ, ◌≡◌, refl, sym, ap, ◌∙◌, true, false, Option, none, some, List, [], ◌∷◌, arith, if◌then◌else◌,
  inl, inr, Bool-cases,
}
use cpp_meet.Common.Keys.{bytes_eq, bytes_beq, bytes_beq_iff, lookup, lookup-insert}
use cpp_meet.Wire.{Bytes}
use cpp_meet.Whiteboard.{
  AddEntry, CrdtWhiteboard, RemoveEntry, lww_wins, merge_added, merge_removed, remote_add,
  remote_remove, write_add, write_remove,
}
use cpp_meet.Whiteboard.Order.{lww_asymm, lww_irrefl, lww_total, lww_trans}

-- The entry that stays: the second only if it wins.
module _ {E : Type 0} (ts : E → ℕ) (peer : E → Bytes) where
  abbrev join : Option E → Option E → Option E
  join old none = old
  join none (some e) = some e
  join (some old) (some e) =
      if lww_wins (ts e) (peer e) (ts old) (peer old) then some e else some old

  pub join_idem : (x : Option E) → join x x ≡ x
  join_idem none = refl
  join_idem (some e) = ground (arith, lww_irrefl (ts e) (peer e))

  pub join_assoc : (x y z : Option E) → join (join x y) z ≡ join x (join y z)
  join_assoc x y none = refl
  join_assoc x none (some c) = refl
  join_assoc none (some b) (some c) = ground arith
  join_assoc (some a) (some b) (some c) = ground (
    arith,
    lww_trans (ts c) (peer c) (ts b) (peer b) (ts a) (peer a),
    lww_trans (ts b) (peer b) (ts a) (peer a) (ts c) (peer c),
    lww_trans (ts a) (peer a) (ts c) (peer c) (ts b) (peer b),
    lww_trans (ts b) (peer b) (ts c) (peer c) (ts a) (peer a),
    lww_total (ts a) (peer a) (ts b) (peer b),
    lww_total (ts b) (peer b) (ts c) (peer c),
    lww_asymm (ts c) (peer c) (ts a) (peer a),
    lww_asymm (ts a) (peer a) (ts b) (peer b),
    lww_asymm (ts b) (peer b) (ts c) (peer c),
  )

  pub join_comm :
      (x y : Option E)
      → ((a b : E) → x ≡ some a → y ≡ some b → ts a ≡ ts b → peer a ≡ peer b → a ≡ b)
      → join x y ≡ join y x
  join_comm none none h = refl
  join_comm none (some b) h = refl
  join_comm (some a) none h = refl
  join_comm (some a) (some b) h = ground (
    arith,
    lww_asymm (ts a) (peer a) (ts b) (peer b),
    lww_asymm (ts b) (peer b) (ts a) (peer a),
    lww_total (ts a) (peer a) (ts b) (peer b),
    h a b refl refl,
  )

abbrev pub join_add : Option AddEntry → Option AddEntry → Option AddEntry
join_add = join (λ e. e.ts) (λ e. e.peer_id)

abbrev pub join_remove : Option RemoveEntry → Option RemoveEntry → Option RemoveEntry
join_remove = join (λ e. e.ts) (λ e. e.peer_id)

-- Every key stands once.
abbrev pub KeysOnce : {V : Type 0} → List (Bytes × V) → Type 0
KeysOnce [] = Unit
KeysOnce ((u, e) ∷ m) = (lookup u m ≡ none) × KeysOnce m

-- Every stroke stands under its own id.
abbrev pub Keyed : List (Bytes × AddEntry) → Type 0
Keyed [] = Unit
Keyed ((u, e) ∷ m) = (e.stroke.uuid ≡ u) × Keyed m

pub record IsBoard (b : CrdtWhiteboard) : Type 0 where
  pub added_once : KeysOnce b.added
  pub removed_once : KeysOnce b.removed
  pub keyed : Keyed b.added

write_same :
    (k : Bytes) (e : AddEntry) (m : List (Bytes × AddEntry)) (o : Option AddEntry)
    → bytes_beq e.stroke.uuid k ≡ true
    → lookup k m ≡ o
    → lookup k (write_add e o m) ≡ join_add o (some e)
unfolding write_add
write_same k e m none same h = ground (arith, lookup-insert e.stroke.uuid k e m)
write_same k e m (some old) same h = ground (arith, lookup-insert e.stroke.uuid k e m)

write_other :
    (k : Bytes) (e : AddEntry) (m : List (Bytes × AddEntry)) (o : Option AddEntry)
    → bytes_beq e.stroke.uuid k ≡ false
    → lookup k (write_add e o m) ≡ lookup k m
unfolding write_add
write_other k e m none other = ground (arith, lookup-insert e.stroke.uuid k e m)
write_other k e m (some old) other = ground (arith, lookup-insert e.stroke.uuid k e m)

lookup-write_add :
    (k : Bytes) (e : AddEntry) (m : List (Bytes × AddEntry))
    → lookup k (write_add e (lookup e.stroke.uuid m) m)
      ≡ (if bytes_beq e.stroke.uuid k then join_add (lookup k m) (some e) else lookup k m)
lookup-write_add k e m = elim (Bool-cases (bytes_beq e.stroke.uuid k)) [
  | inl same ↦
      let at = ap (λ t. lookup t m) ((bytes_beq_iff e.stroke.uuid k).0 same) in
      write_same k e m (lookup e.stroke.uuid m) same (sym at)
      ∙ ap (λ o. join_add o (some e)) at
      ∙ rw same
  | inr other ↦ write_other k e m (lookup e.stroke.uuid m) other ∙ rw other
]

write_remove_same :
    (k u : Bytes) (e : RemoveEntry) (m : List (Bytes × RemoveEntry)) (o : Option RemoveEntry)
    → bytes_beq u k ≡ true
    → lookup k m ≡ o
    → lookup k (write_remove u e o m) ≡ join_remove o (some e)
unfolding write_remove
write_remove_same k u e m none same h = ground (arith, lookup-insert u k e m)
write_remove_same k u e m (some old) same h = ground (arith, lookup-insert u k e m)

write_remove_other :
    (k u : Bytes) (e : RemoveEntry) (m : List (Bytes × RemoveEntry)) (o : Option RemoveEntry)
    → bytes_beq u k ≡ false
    → lookup k (write_remove u e o m) ≡ lookup k m
unfolding write_remove
write_remove_other k u e m none other = ground (arith, lookup-insert u k e m)
write_remove_other k u e m (some old) other = ground (arith, lookup-insert u k e m)

lookup-write_remove :
    (k u : Bytes) (e : RemoveEntry) (m : List (Bytes × RemoveEntry))
    → lookup k (write_remove u e (lookup u m) m)
      ≡ (if bytes_beq u k then join_remove (lookup k m) (some e) else lookup k m)
lookup-write_remove k u e m = elim (Bool-cases (bytes_beq u k)) [
  | inl same ↦
      let at = ap (λ t. lookup t m) ((bytes_beq_iff u k).0 same) in
      write_remove_same k u e m (lookup u m) same (sym at)
      ∙ ap (λ o. join_remove o (some e)) at
      ∙ rw same
  | inr other ↦ write_remove_other k u e m (lookup u m) other ∙ rw other
]

remote_add_at :
    (k : Bytes) (b : CrdtWhiteboard) (e : AddEntry)
    → lookup k (remote_add b e.stroke e.ts e.peer_id).added ≡ (
        if bytes_beq e.stroke.uuid k
        then join_add (lookup k b.added) (some e)
        else lookup k b.added)
unfolding remote_add
remote_add_at k b e = lookup-write_add k e b.added

remote_remove_at :
    (k u : Bytes) (b : CrdtWhiteboard) (e : RemoveEntry)
    → lookup k (remote_remove b u e.ts e.peer_id).removed
      ≡ (if bytes_beq u k then join_remove (lookup k b.removed) (some e) else lookup k b.removed)
unfolding remote_remove
remote_remove_at k u b e = lookup-write_remove k u e b.removed

-- Joining the head first and the rest afterwards is joining what the whole map holds.
head_added :
    (k u : Bytes) (e : AddEntry) (m : List (Bytes × AddEntry)) (o : Option AddEntry)
    → e.stroke.uuid ≡ u
    → lookup u m ≡ none
    → join_add (if bytes_beq e.stroke.uuid k then join_add o (some e) else o) (lookup k m)
      ≡ join_add o (lookup k ((u, e) ∷ m))
unfolding lookup
head_added k u e m o own fresh = elim (Bool-cases (bytes_beq u k)) [
  | inl same ↦
      let gone = ap (λ t. lookup t m) (sym ((bytes_beq_iff u k).0 same)) ∙ fresh in
      rw (own, same, gone)
  | inr other ↦ rw (own, other)
]

head_removed :
    (k u : Bytes) (e : RemoveEntry) (m : List (Bytes × RemoveEntry)) (o : Option RemoveEntry)
    → lookup u m ≡ none
    → join_remove (if bytes_beq u k then join_remove o (some e) else o) (lookup k m)
      ≡ join_remove o (lookup k ((u, e) ∷ m))
unfolding lookup
head_removed k u e m o fresh = elim (Bool-cases (bytes_beq u k)) [
  | inl same ↦
      let gone = ap (λ t. lookup t m) (sym ((bytes_beq_iff u k).0 same)) ∙ fresh in rw (same, gone)
  | inr other ↦ rw other
]

-- The entry under a key after the loops of `merge`.
pub lookup-merge_added :
    (k : Bytes) (b : CrdtWhiteboard) (m : List (Bytes × AddEntry))
    → KeysOnce m
    → Keyed m
    → lookup k (merge_added b m).added ≡ join_add (lookup k b.added) (lookup k m)
unfolding merge_added
lookup-merge_added k b [] once keyed = unfold lookup in refl
lookup-merge_added k b ((u, e) ∷ m) once keyed =
    let b' = remote_add b e.stroke e.ts e.peer_id in
    lookup-merge_added k b' m once.1 keyed.1
    ∙ ap (λ o. join_add o (lookup k m)) (remote_add_at k b e)
    ∙ head_added k u e m (lookup k b.added) keyed.0 once.0

pub lookup-merge_removed :
    (k : Bytes) (b : CrdtWhiteboard) (m : List (Bytes × RemoveEntry))
    → KeysOnce m
    → lookup k (merge_removed b m).removed ≡ join_remove (lookup k b.removed) (lookup k m)
unfolding merge_removed
lookup-merge_removed k b [] once = unfold lookup in refl
lookup-merge_removed k b ((u, e) ∷ m) once =
    let b' = remote_remove b u e.ts e.peer_id in
    lookup-merge_removed k b' m once.1
    ∙ ap (λ o. join_remove o (lookup k m)) (remote_remove_at k u b e)
    ∙ head_removed k u e m (lookup k b.removed) once.0
