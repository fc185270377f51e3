-- ===== src/Rooms/Members.antt =====
-- The sets of connections, and the rooms by their members.
use cpp_meet.Common.{
  ℕ, ◌≡◌, ap, ◌∙◌, Bool, false, ◌&&◌, ◌||◌, not, List, [], ◌∷◌, ◌==◌, arith, if◌then◌else◌, Option,
  none, some, Bool-cases, inl, inr,
}
use cpp_meet.Common.Keys.{◌=?◌, insert, lookup-erase, lookup-insert, bytes_eq}
use cpp_meet.Wire.{Bytes}
use cpp_meet.Rooms.{add, contains, leave_old, members, remove, store}

pub contains-add : (c x : ℕ) (xs : List ℕ) → contains x (add c xs) ≡ ((c == x) || contains x xs)
unfolding add contains
contains-add c x xs = ground arith

pub contains-remove :
    (c x : ℕ) (xs : List ℕ) → contains x (remove c xs) ≡ (not (c == x) && contains x xs)
unfolding remove contains
contains-remove c x [] = ground arith
contains-remove c x (y ∷ ys) = ground (arith, contains-remove c x ys)

module _ (room other : Bytes) (rooms : List (Bytes × List ℕ)) where
  pub members-insert :
      (ms : List ℕ)
      → members other (insert room ms rooms) ≡ (if room =? other then ms else members other rooms)
  unfolding members
  members-insert ms = ground (arith, lookup-insert room other ms rooms)

  pub members-store :
      (ms : List ℕ)
      → members other (store room ms rooms) ≡ (if room =? other then ms else members other rooms)
  unfolding members store
  members-store [] = ground (arith, lookup-erase room other rooms)
  members-store (m ∷ ms) = ground (arith, lookup-insert room other (m ∷ ms) rooms)

-- Whether the connection's room is this one.
abbrev pub is_in : Option Bytes → Bytes → Bool
is_in none r = false
is_in (some q) r = q =? r

-- Leaving the old room takes the connection out of every room, and no other connection out of any.
pub contains-leave_old :
    (c x : ℕ) (r : Bytes) (old : Option Bytes) (rooms : List (Bytes × List ℕ))
    → contains c (members r rooms) ≡ is_in old r
    → contains x (members r (leave_old c old rooms))
      ≡ (if c == x then false else contains x (members r rooms))
unfolding leave_old
contains-leave_old c x r none rooms h =
    ground (arith, h, (λ (e : c ≡ x). ap (λ t. contains t (members r rooms)) e))
contains-leave_old c x r (some old) rooms h =
    let kept = remove c (members old rooms) in
    ap (contains x) (members-store old r rooms kept) ∙ elim (Bool-cases (old =? r)) [
      | inl e ↦
          let same : old ≡ r = (bytes_eq.beq_iff old r).0 e in
          ap (λ b. contains x (if b then kept else members r rooms)) e
          ∙ contains-remove c x (members old rooms)
          ∙ ground (arith, ap (λ t. contains x (members t rooms)) same)
      | inr e ↦
          ap (λ b. contains x (if b then kept else members r rooms)) e
          ∙ ground (arith, h, e, (λ (i : c ≡ x). ap (λ t. contains t (members r rooms)) i))
    ]
