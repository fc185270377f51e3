-- ===== src/Rooms/Notices.antt =====
-- Whom `RoomManager` tells of a change.
use cpp_meet.Common.{
  ℕ, ◌≡◌, ◌≢◌, refl, ap, sym, ◌∙◌, Bool, true, false, ◌&&◌, not, List, [], ◌∷◌, ◌==◌, arith, map,
  Option, none, some, Bool-cases, inl, inr,
}
use cpp_meet.Common.Keys.{◌=?◌, lookup, bytes_eq, nat_eq}
use cpp_meet.Wire.{Bytes}
use cpp_meet.Rooms.{Json, RoomManager, contains, join, leave, leave_room, members, remove, tell}
use cpp_meet.Rooms.Members.{contains-remove, is_in}
use cpp_meet.Rooms.Membership.{IsConsistent, contains-join}

-- Whether a connection is told something.
abbrev pub told : ℕ → List (ℕ × Bytes) → Bool
told x calls = contains x (map (λ c. c.0) calls)

told-tell : (x : ℕ) (msg : Bytes) (cs : List ℕ) → told x (tell msg cs) ≡ contains x cs
unfolding contains
told-tell x msg [] = refl
told-tell x msg (c ∷ cs) = ground (arith, told-tell x msg cs)

and_false : (b : Bool) → (b && false) ≡ false
and_false true = refl
and_false false = refl

-- The others in the connection's own room.
abbrev pub shares_room : ℕ → ℕ → RoomManager → Bool
shares_room c x s =
    not (c == x)
    && elim (lookup c s.conn_room) [ none ↦ false | some room ↦ contains x (members room s.rooms) ]

told-leave_room :
    (json : Json) (c x : ℕ) (s : RoomManager) (o : Option Bytes)
    → told x (leave_room json c s o).1
      ≡ (not (c == x) && elim o [ none ↦ false | some room ↦ contains x (members room s.rooms) ])
unfolding leave_room contains
told-leave_room json c x s none = sym (and_false (not (c == x)))
told-leave_room json c x s (some room) =
    told-tell x _ (remove c (members room s.rooms)) ∙ contains-remove c x (members room s.rooms)

is_in_apart :
    (o : Option Bytes) (old room : Bytes) → old ≢ room → is_in o old ≡ true → is_in o room ≡ false
is_in_apart none old room apart h = refl
is_in_apart (some q) old room apart h = elim (Bool-cases (q =? room)) [
  | inl e ↦ absurd (apart (sym ((bytes_eq.beq_iff q old).0 h) ∙ (bytes_eq.beq_iff q room).0 e))
  | inr e ↦ e
]

module _ (json : Json) (c : ℕ) (s : RoomManager) where
  module _ (consistent : IsConsistent s) where
    -- Those told of a joining connection are the others in the room that it joins.
    pub told-join :
        (room : Bytes) (x : ℕ)
        → told x (join json c room s).2 ≡ (not (c == x) && contains x (members room s.rooms))
    unfolding join
    told-join room x =
        let joined = (join json c room s).0.rooms in
        told-tell x _ (remove c (members room joined))
        ∙ contains-remove c x (members room joined)
        ∙ ap (λ b. not (c == x) && b) (contains-join json c s consistent room x room)
        ∙ ground arith

    -- In a consistent state, a member of a room is told nothing when a connection joins another room,
    -- even if it leaves that member's room by it.
    pub join_unheard :
        (room old : Bytes) (x : ℕ)
        → old ≢ room
        → contains x (members old s.rooms) ≡ true
        → told x (join json c room s).2 ≡ false
    join_unheard room old x apart there =
        let absent : contains x (members room s.rooms) ≡ false =
          consistent.agrees x room
          ∙ is_in_apart (lookup x s.conn_room) old room apart
              (sym (consistent.agrees x old) ∙ there) in
        told-join room x ∙ ap (λ b. not (c == x) && b) absent ∙ and_false (not (c == x))

  -- Those told of a leaving connection are the others in its room.
  pub told-leave : (x : ℕ) → told x (leave json c s).1 ≡ shares_room c x s
  unfolding leave
  told-leave x = told-leave_room json c x s (lookup c s.conn_room)
