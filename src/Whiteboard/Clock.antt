-- ===== src/Whiteboard/Clock.antt =====
-- The Lamport clock of a board, and what a local edit does to what is visible.
use cpp_meet.Common.{
  ℕ, ◌+◌, ◌^◌, ◌<◌, ◌≤◌, ◌≡◌, refl, sym, ap, ◌∙◌, true, false, not, ◌&&◌, ◌||◌, Option, none, some,
  List, arith, inl, inr, Bool-cases,
}
use cpp_meet.Common.Keys.{
  bytes_eq, bytes_beq, bytes_beq_iff, lookup, lookup-insert, lookup-insert_self,
}
use cpp_meet.Wire.{Bytes}
use cpp_meet.Whiteboard.{
  AddEntry, CrdtWhiteboard, RemoveEntry, Stroke, is_visible, local_add, local_remove, next_ts,
  remote_add, remote_remove, update_clock, wins_over, write_add, write_remove,
}
use cpp_meet.Whiteboard.Order.{lww_asymm, lww_later}

-- No stamp on the board is later than its clock.
pub record IsClocked (b : CrdtWhiteboard) : Type 0 where
  pub adds_before : (k : Bytes) (e : AddEntry) → lookup k b.added ≡ some e → e.ts ≤ b.lamport_ts
  pub removes_before :
      (k : Bytes) (e : RemoveEntry) → lookup k b.removed ≡ some e → e.ts ≤ b.lamport_ts

write_add-before :
    (e : AddEntry) (o : Option AddEntry) (m : List (Bytes × AddEntry)) (t u : ℕ)
    → ((k : Bytes) (f : AddEntry) → lookup k m ≡ some f → f.ts ≤ t)
    → t ≤ u
    → e.ts ≤ u
    → (k : Bytes) (f : AddEntry) → lookup k (write_add e o m) ≡ some f
    → f.ts ≤ u
unfolding write_add
write_add-before e none m t u h tu eu k f x =
    ground (arith, lookup-insert e.stroke.uuid k e m, h k f)
write_add-before e (some old) m t u h tu eu k f x =
    ground (arith, lookup-insert e.stroke.uuid k e m, h k f)

write_remove-before :
    (i : Bytes) (e : RemoveEntry) (o : Option RemoveEntry) (m : List (Bytes × RemoveEntry))
    (t u : ℕ)
    → ((k : Bytes) (f : RemoveEntry) → lookup k m ≡ some f → f.ts ≤ t)
    → t ≤ u
    → e.ts ≤ u
    → (k : Bytes) (f : RemoveEntry) → lookup k (write_remove i e o m) ≡ some f
    → f.ts ≤ u
unfolding write_remove
write_remove-before i e none m t u h tu eu k f x = ground (arith, lookup-insert i k e m, h k f)
write_remove-before i e (some old) m t u h tu eu k f x =
    ground (arith, lookup-insert i k e m, h k f)

local_add-IsClocked :
    (b : CrdtWhiteboard) (s : Stroke)
    → IsClocked b
    → b.lamport_ts + 1 < 2 ^ 64
    → IsClocked (local_add b s)
unfolding local_add
local_add-IsClocked b s v h =
    let e : AddEntry = record { stroke = s; ts = next_ts b.lamport_ts; peer_id = b.peer_id } in
    record {
      adds_before =
          write_add-before e (lookup s.uuid b.added) b.added b.lamport_ts (next_ts b.lamport_ts)
            v.adds_before (omega arith) (omega arith);
      removes_before = λ k f x. omega (arith, v.removes_before k f x);
    }

local_remove-IsClocked :
    (b : CrdtWhiteboard) (u : Bytes)
    → IsClocked b
    → b.lamport_ts + 1 < 2 ^ 64
    → IsClocked (local_remove b u)
unfolding local_remove
local_remove-IsClocked b u v h =
    let e : RemoveEntry = record { ts = next_ts b.lamport_ts; peer_id = b.peer_id } in
    record {
      adds_before = λ k f x. omega (arith, v.adds_before k f x);
      removes_before =
          write_remove-before u e (lookup u b.removed) b.removed b.lamport_ts (next_ts b.lamport_ts)
            v.removes_before (omega arith) (omega arith);
    }

update_clock-after : (t u : ℕ) → u + 1 < 2 ^ 64 → (t ≤ update_clock t u) × (u < update_clock t u)
unfolding update_clock
update_clock-after t u h = ground arith

remote_add-IsClocked :
    (b : CrdtWhiteboard) (s : Stroke) (t : ℕ) (p : Bytes)
    → IsClocked b
    → t + 1 < 2 ^ 64
    → IsClocked (remote_add b s t p)
unfolding remote_add
remote_add-IsClocked b s t p v h =
    let e : AddEntry = record { stroke = s; ts = t; peer_id = p } in
    let later = update_clock-after b.lamport_ts t h in
    record {
      adds_before =
          write_add-before e (lookup s.uuid b.added) b.added b.lamport_ts
            (update_clock b.lamport_ts t) v.adds_before later.0 (omega (arith, later.1));
      removes_before = λ k f x. omega (arith, v.removes_before k f x, later.0);
    }

remote_remove-IsClocked :
    (b : CrdtWhiteboard) (u : Bytes) (t : ℕ) (p : Bytes)
    → IsClocked b
    → t + 1 < 2 ^ 64
    → IsClocked (remote_remove b u t p)
unfolding remote_remove
remote_remove-IsClocked b u t p v h =
    let e : RemoveEntry = record { ts = t; peer_id = p } in
    let later = update_clock-after b.lamport_ts t h in
    record {
      adds_before = λ k f x. omega (arith, v.adds_before k f x, later.0);
      removes_before =
          write_remove-before u e (lookup u b.removed) b.removed b.lamport_ts
            (update_clock b.lamport_ts t) v.removes_before later.0 (omega (arith, later.1));
    }

-- On a board whose stamps are none of them later than its clock, every operation leaves such a board:
-- a local edit while the clock does not wrap, a remote one whose timestamp is not the last one.
pub ops-IsClocked :
    (b : CrdtWhiteboard) (s : Stroke) (uuid : Bytes) (ts : ℕ) (peer_id : Bytes)
    → IsClocked b
    → b.lamport_ts + 1 < 2 ^ 64
    → ts + 1 < 2 ^ 64
    → IsClocked (local_add b s)
      × IsClocked (local_remove b uuid)
      × IsClocked (remote_add b s ts peer_id)
      × IsClocked (remote_remove b uuid ts peer_id)
ops-IsClocked b s u t p v h k = (
  local_add-IsClocked b s v h,
  local_remove-IsClocked b u v h,
  remote_add-IsClocked b s t p v k,
  remote_remove-IsClocked b u t p v k,
)

written :
    (e : AddEntry) (o : Option AddEntry) (m : List (Bytes × AddEntry)) (t : ℕ)
    → ((f : AddEntry) → o ≡ some f → f.ts ≤ t)
    → t < e.ts
    → lookup e.stroke.uuid (write_add e o m) ≡ some e
unfolding write_add
written e none m t h te = lookup-insert_self e.stroke.uuid e m
written e (some old) m t h te = rw (
  lww_later e.ts e.peer_id old.ts old.peer_id (omega (arith, h old refl)),
  lookup-insert_self e.stroke.uuid e m,
)

unwritten :
    (u : Bytes) (e : RemoveEntry) (o : Option RemoveEntry) (m : List (Bytes × RemoveEntry)) (t : ℕ)
    → ((f : RemoveEntry) → o ≡ some f → f.ts ≤ t)
    → t < e.ts
    → lookup u (write_remove u e o m) ≡ some e
unfolding write_remove
unwritten u e none m t h te = lookup-insert_self u e m
unwritten u e (some old) m t h te = rw (
  lww_later e.ts e.peer_id old.ts old.peer_id (omega (arith, h old refl)),
  lookup-insert_self u e m,
)

add_elsewhere :
    (e : AddEntry) (o : Option AddEntry) (m : List (Bytes × AddEntry)) (k : Bytes)
    → bytes_beq e.stroke.uuid k ≡ false
    → lookup k (write_add e o m) ≡ lookup k m
unfolding write_add
add_elsewhere e none m k other = ground (arith, lookup-insert e.stroke.uuid k e m)
add_elsewhere e (some old) m k other = ground (arith, lookup-insert e.stroke.uuid k e m)

remove_elsewhere :
    (u : Bytes) (e : RemoveEntry) (o : Option RemoveEntry) (m : List (Bytes × RemoveEntry))
    (k : Bytes)
    → bytes_beq u k ≡ false
    → lookup k (write_remove u e o m) ≡ lookup k m
unfolding write_remove
remove_elsewhere u e none m k other = ground (arith, lookup-insert u k e m)
remove_elsewhere u e (some old) m k other = ground (arith, lookup-insert u k e m)

later_add_wins :
    (e : AddEntry) (o : Option RemoveEntry) (t : ℕ)
    → ((f : RemoveEntry) → o ≡ some f → f.ts ≤ t)
    → t < e.ts
    → wins_over (some e) o ≡ true
unfolding wins_over
later_add_wins e none t h te = refl
later_add_wins e (some r) t h te = lww_later e.ts e.peer_id r.ts r.peer_id (omega (arith, h r refl))

later_remove_wins :
    (o : Option AddEntry) (e : RemoveEntry) (t : ℕ)
    → ((f : AddEntry) → o ≡ some f → f.ts ≤ t)
    → t < e.ts
    → wins_over o (some e) ≡ false
unfolding wins_over
later_remove_wins none e t h te = refl
later_remove_wins (some a) e t h te =
    lww_asymm e.ts e.peer_id a.ts a.peer_id
      (lww_later e.ts e.peer_id a.ts a.peer_id (omega (arith, h a refl)))

-- On a board whose stamps are none of them later than its clock, and while the clock does not wrap, a
-- local add makes its stroke the entry under its id, whatever was there before, and makes exactly this
-- id visible besides those that were.
pub local_add_shows :
    (b : CrdtWhiteboard) (s : Stroke) (k : Bytes)
    → IsClocked b
    → b.lamport_ts + 1 < 2 ^ 64
    → (lookup s.uuid (local_add b s).added
        ≡ some (record { stroke = s; ts = b.lamport_ts + 1; peer_id = b.peer_id }))
      × (is_visible (local_add b s) k ≡ (bytes_beq s.uuid k || is_visible b k))
unfolding local_add is_visible
local_add_shows b s k v h =
    let e : AddEntry = record { stroke = s; ts = next_ts b.lamport_ts; peer_id = b.peer_id } in
    let at =
      written e (lookup s.uuid b.added) b.added b.lamport_ts (v.adds_before s.uuid) (omega arith) in
    let later : ℕ → AddEntry = λ t. record { stroke = s; ts = t; peer_id = b.peer_id } in
    let stamp : next_ts b.lamport_ts ≡ b.lamport_ts + 1 = omega arith in
    let wins =
      ap (λ o. wins_over o (lookup s.uuid b.removed)) at
      ∙ later_add_wins e (lookup s.uuid b.removed) b.lamport_ts (v.removes_before s.uuid)
          (omega arith) in
    (
      at ∙ ap (λ t. some (later t)) stamp,
      elim (Bool-cases (bytes_beq s.uuid k)) [
        | inl same ↦
            let m = write_add e (lookup s.uuid b.added) b.added in
            ap (λ i. wins_over (lookup i m) (lookup i b.removed))
              (sym ((bytes_beq_iff s.uuid k).0 same))
            ∙ wins
            ∙ rw same
        | inr other ↦
            ap (λ o. wins_over o (lookup k b.removed))
              (add_elsewhere e (lookup s.uuid b.added) b.added k other)
            ∙ rw other
      ],
    )

-- On a board whose stamps are none of them later than its clock, and while the clock does not wrap, a
-- local remove hides exactly its id.
pub local_remove_hides :
    (b : CrdtWhiteboard) (uuid k : Bytes)
    → IsClocked b
    → b.lamport_ts + 1 < 2 ^ 64
    → is_visible (local_remove b uuid) k ≡ (not (bytes_beq uuid k) && is_visible b k)
unfolding local_remove is_visible
local_remove_hides b u k v h =
    let e : RemoveEntry = record { ts = next_ts b.lamport_ts; peer_id = b.peer_id } in
    let at =
      unwritten u e (lookup u b.removed) b.removed b.lamport_ts (v.removes_before u)
        (omega arith) in
    let hidden =
      ap (λ o. wins_over (lookup u b.added) o) at
      ∙ later_remove_wins (lookup u b.added) e b.lamport_ts (v.adds_before u) (omega arith) in
    elim (Bool-cases (bytes_beq u k)) [
      | inl same ↦
          let m = write_remove u e (lookup u b.removed) b.removed in
          ap (λ i. wins_over (lookup i b.added) (lookup i m)) (sym ((bytes_beq_iff u k).0 same))
          ∙ hidden
          ∙ rw same
      | inr other ↦
          ap (λ o. wins_over (lookup k b.added) o)
            (remove_elsewhere u e (lookup u b.removed) b.removed k other)
          ∙ rw other
    ]
