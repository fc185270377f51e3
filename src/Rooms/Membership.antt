-- ===== src/Rooms/Membership.antt =====
-- The two containers of `RoomManager` under `join` and `leave`.
use cpp_meet.Common.{
  ℕ, ◌≡◌, ◌≢◌, refl, ap, sym, ◌∙◌, Bool, true, false, ◌||◌, List, [], ◌∷◌, ◌==◌, arith,
  if◌then◌else◌, Option, none, some, Bool-cases, inl, inr, if_elim,
}
use cpp_meet.Common.Keys.{◌=?◌, insert, lookup, lookup-erase, lookup-insert, bytes_eq, nat_eq}
use cpp_meet.Wire.{Bytes}
use cpp_meet.Rooms.{
  Json, RoomManager, add, contains, join, leave, leave_old, leave_room, members, new_manager,
  remove, store,
}
use cpp_meet.Rooms.Members.{contains-add, contains-leave_old, is_in, members-insert}

-- A connection is in a room exactly if it has that room, and no room is kept without connections.
pub record IsConsistent (s : RoomManager) : Type 0 where
  pub agrees : (c : ℕ) (r : Bytes) → contains c (members r s.rooms) ≡ is_in (lookup c s.conn_room) r
  pub inhabited : (r : Bytes) → lookup r s.rooms ≢ some []

some_nonempty : (ms : List ℕ) → ms ≢ [] → some ms ≢ some []
some_nonempty [] h e = h refl
some_nonempty (m ∷ ms) h e = cc

insert-inhabited :
    (room r : Bytes) (ms : List ℕ) (rooms : List (Bytes × List ℕ))
    → ms ≢ []
    → lookup r rooms ≢ some []
    → lookup r (insert room ms rooms) ≢ some []
insert-inhabited room r ms rooms filled h e =
    if_elim (λ o. o ≢ some []) (room =? r) (some ms) (lookup r rooms) (λ b. some_nonempty ms filled)
      (λ b. h) (sym (lookup-insert room r ms rooms) ∙ e)

add_nonempty : (c : ℕ) (xs : List ℕ) → add c xs ≢ []
unfolding add contains
add_nonempty c [] e = cc
add_nonempty c (x ∷ xs) e =
    if_elim (λ t. t ≢ []) (contains c (x ∷ xs)) (x ∷ xs) (c ∷ x ∷ xs) (λ b i. cc) (λ b i. cc) e

is_in_if :
    (b : Bool) (o p : Option Bytes) (r : Bytes)
    → is_in (if b then o else p) r ≡ (if b then is_in o r else is_in p r)
is_in_if true o p r = refl
is_in_if false o p r = refl

store-inhabited :
    (room r : Bytes) (ms : List ℕ) (rooms : List (Bytes × List ℕ))
    → lookup r rooms ≢ some []
    → lookup r (store room ms rooms) ≢ some []
unfolding store
store-inhabited room r [] rooms h e = h (ground (arith, e, lookup-erase room r rooms))
store-inhabited room r (m ∷ ms) rooms h e = insert-inhabited room r (m ∷ ms) rooms (λ i. cc) h e

leave_old-inhabited :
    (c : ℕ) (r : Bytes) (old : Option Bytes) (rooms : List (Bytes × List ℕ))
    → lookup r rooms ≢ some []
    → lookup r (leave_old c old rooms) ≢ some []
unfolding leave_old
leave_old-inhabited c r none rooms h = h
leave_old-inhabited c r (some old) rooms h =
    store-inhabited old r (remove c (members old rooms)) rooms h

pub leave_room-rooms :
    (json : Json) (c : ℕ) (s : RoomManager) (o : Option Bytes)
    → (leave_room json c s o).0.rooms ≡ leave_old c o s.rooms
unfolding leave_room leave_old
leave_room-rooms json c s none = refl
leave_room-rooms json c s (some room) = refl

leave_room-conn_room :
    (json : Json) (c x : ℕ) (s : RoomManager) (o : Option Bytes)
    → lookup c s.conn_room ≡ o
    → lookup x (leave_room json c s o).0.conn_room ≡ (if c == x then none else lookup x s.conn_room)
unfolding leave_room
leave_room-conn_room json c x s none h =
    ground (arith, h, (λ (e : c ≡ x). ap (λ t. lookup t s.conn_room) e))
leave_room-conn_room json c x s (some room) h = lookup-erase c x s.conn_room

module _ (json : Json) (c : ℕ) (s : RoomManager) (consistent : IsConsistent s) where
  -- A connection that joins is in that room and in no other; nothing changes for the others.
  pub contains-join :
      (room : Bytes) (x : ℕ) (r : Bytes)
      → contains x (members r (join json c room s).0.rooms)
        ≡ (if c == x then room =? r else contains x (members r s.rooms))
  unfolding join
  contains-join room x r =
      let old = lookup c s.conn_room in
      let rooms = leave_old c old s.rooms in
      let ms = add c (members room rooms) in
      let rest = contains-leave_old c x r old s.rooms (consistent.agrees c r) in
      ap (contains x) (members-insert room r rooms ms) ∙ elim (Bool-cases (room =? r)) [
        | inl e ↦
            let same : room ≡ r = (bytes_eq.beq_iff room r).0 e in
            ap (λ b. contains x (if b then ms else members r rooms)) e
            ∙ contains-add c x (members room rooms)
            ∙ ap (λ t. (c == x) || contains x (members t rooms)) same
            ∙ ground (arith, rest, e)
        | inr e ↦
            ap (λ b. contains x (if b then ms else members r rooms)) e ∙ ground (arith, rest, e)
      ]

  pub contains-leave :
      (x : ℕ) (r : Bytes)
      → contains x (members r (leave json c s).0.rooms)
        ≡ (if c == x then false else contains x (members r s.rooms))
  unfolding leave
  contains-leave x r =
      let old = lookup c s.conn_room in
      ap (λ t. contains x (members r t)) (leave_room-rooms json c s old)
      ∙ contains-leave_old c x r old s.rooms (consistent.agrees c r)

  join-IsConsistent : (room : Bytes) → IsConsistent (join json c room s).0
  unfolding join
  join-IsConsistent room =
      let old = lookup c s.conn_room in
      let rooms = leave_old c old s.rooms in
      record {
        agrees = λ x r.
            contains-join room x r
            ∙ ground (arith, consistent.agrees x r)
            ∙ sym (is_in_if (c == x) (some room) (lookup x s.conn_room) r)
            ∙ ap (λ o. is_in o r) (sym (lookup-insert c x room s.conn_room));
        inhabited = λ r.
            insert-inhabited room r (add c (members room rooms)) rooms
              (add_nonempty c (members room rooms))
              (leave_old-inhabited c r old s.rooms (consistent.inhabited r));
      }

  leave-IsConsistent : IsConsistent (leave json c s).0
  unfolding leave
  leave-IsConsistent =
      let old = lookup c s.conn_room in
      record {
        agrees = λ x r.
            contains-leave x r
            ∙ ground (arith, consistent.agrees x r)
            ∙ sym (is_in_if (c == x) none (lookup x s.conn_room) r)
            ∙ ap (λ o. is_in o r) (sym (leave_room-conn_room json c x s old refl));
        inhabited = λ r e.
            leave_old-inhabited c r old s.rooms (consistent.inhabited r)
              (ap (lookup r) (sym (leave_room-rooms json c s old)) ∙ e);
      }

-- The states that calls of `join` and `leave` lead to.
pub data Reached (json : Json) : RoomManager → Type 0 where
  started : Reached json new_manager
  joined :
      {s : RoomManager} (c : ℕ) (room : Bytes)
      → Reached json s
      → Reached json (join json c room s).0
  left : {s : RoomManager} (c : ℕ) → Reached json s → Reached json (leave json c s).0

-- In every state that calls of `join` and `leave` lead to from the empty one, a connection is among
-- the members of a room exactly if that is its room, and no room is kept without members.
pub Reached-IsConsistent : (json : Json) (s : RoomManager) → Reached json s → IsConsistent s
unfolding members contains lookup
Reached-IsConsistent json s started = record { agrees = λ c r. refl; inhabited = λ r e. cc }
Reached-IsConsistent json s (joined c room before) =
    join-IsConsistent json c _ (Reached-IsConsistent json _ before) room
Reached-IsConsistent json s (left c before) =
    leave-IsConsistent json c _ (Reached-IsConsistent json _ before)
