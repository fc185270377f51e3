-- ===== src/Sfu/Room/Peers.antt =====
-- The list of peers and the map of SSRCs name the same peers, over every sequence of calls.
use cpp_meet.Common.{
  ℕ, ◌+◌, ◌^◌, ◌<◌, ◌≡◌, refl, Bool, true, false, ◌||◌, none, some, List, [], ◌∷◌, ◌++◌, ◌==◌,
  ==_iff, arith, if◌then◌else◌, Option-cases, inl, inr,
}
use cpp_meet.Common.Keys.{nat_eq, lookup, lookup-insert, lookup-erase}
use cpp_meet.Wire.{Bytes}
use cpp_meet.Sfu.Room.{SfuRoom, new_room, add_peer, add_unless, remove_peer, remove_id}

abbrev pub member : ℕ → List ℕ → Bool
member k [] = false
member k (x ∷ xs) = k == x || member k xs

-- No id stands twice.
abbrev pub Distinct : List ℕ → Type 0
Distinct [] = Unit
Distinct (x ∷ xs) = (member x xs ≡ false) × Distinct xs

abbrev pub has : ℕ → SfuRoom → Bool
has k r = elim (lookup k r.peer_ssrc_map) [ none ↦ false | some s ↦ true ]

-- What the two containers owe one another: the same peers, each once; and no two peers share an SSRC,
-- all of which were given out before `next_ssrc_`.
pub record IsValid (r : SfuRoom) : Type 0 where
  pub distinct : Distinct r.peers
  pub same_peers : (k : ℕ) → member k r.peers ≡ has k r
  pub given : (k s : ℕ) → lookup k r.peer_ssrc_map ≡ some s → s < r.next_ssrc
  pub own_ssrc :
      (j k s : ℕ) → lookup j r.peer_ssrc_map ≡ some s → lookup k r.peer_ssrc_map ≡ some s → j ≡ k

pub new_room-IsValid : (id : Bytes) → IsValid (new_room id)
unfolding new_room lookup
new_room-IsValid id = record {
  distinct = tt;
  same_peers = λ k. refl;
  given = λ k s h. cc;
  own_ssrc = λ j k s h i. cc;
}

member-append : (k x : ℕ) (xs : List ℕ) → member k (xs ++ (x ∷ [])) ≡ (k == x || member k xs)
member-append k x [] = ground arith
member-append k x (y ∷ ys) = ground (arith, member-append k x ys)

Distinct-append :
    (x : ℕ) (xs : List ℕ) → member x xs ≡ false → Distinct xs → Distinct (xs ++ (x ∷ []))
Distinct-append x [] h d = (refl, tt)
Distinct-append x (y ∷ ys) h d =
    (ground (arith, member-append y x ys), Distinct-append x ys (ground arith) d.1)

member-remove_id :
    (k x : ℕ) (xs : List ℕ) → member k (remove_id x xs) ≡ (if x == k then false else member k xs)
unfolding remove_id
member-remove_id k x [] = ground arith
member-remove_id k x (y ∷ ys) = ground (arith, member-remove_id k x ys)

Distinct-remove_id : (x : ℕ) (xs : List ℕ) → Distinct xs → Distinct (remove_id x xs)
unfolding remove_id
Distinct-remove_id x [] d = tt
Distinct-remove_id x (y ∷ ys) d =
    ground (arith, member-remove_id y x ys, Distinct-remove_id x ys d.1)

-- The invariant is kept by `add_peer`, as long as the 32-bit counter does not wrap.
pub add_peer-IsValid :
    (r : SfuRoom) (peer_id : ℕ)
    → IsValid r
    → r.next_ssrc + 1 < 2 ^ 32
    → IsValid (add_peer r peer_id)
add_peer-IsValid r p v room = elim (Option-cases (lookup p r.peer_ssrc_map)) [
  | inl e ↦
      unfold add_peer in
      rw (e, add_unless)
        (record {
          distinct = Distinct-append p r.peers (ground (arith, v.same_peers p)) v.distinct;
          same_peers = λ k. ground (
            arith,
            member-append k p r.peers,
            v.same_peers k,
            lookup-insert p k r.next_ssrc r.peer_ssrc_map,
            ==_iff p k,
          );
          given =
              λ k s h. ground (arith, v.given k s, lookup-insert p k r.next_ssrc r.peer_ssrc_map);
          own_ssrc = λ j k s h i. ground (
            arith,
            v.given j s,
            v.given k s,
            v.own_ssrc j k s,
            lookup-insert p j r.next_ssrc r.peer_ssrc_map,
            lookup-insert p k r.next_ssrc r.peer_ssrc_map,
          );
        })
  | inr (s, e) ↦ unfold add_peer in rw (e, add_unless) v
]

-- The invariant is kept by `remove_peer`.
pub remove_peer-IsValid : (r : SfuRoom) (peer_id : ℕ) → IsValid r → IsValid (remove_peer r peer_id)
unfolding remove_peer
remove_peer-IsValid r p v = record {
  distinct = Distinct-remove_id p r.peers v.distinct;
  same_peers = λ k.
      ground
        (arith, member-remove_id k p r.peers, v.same_peers k, lookup-erase p k r.peer_ssrc_map);
  given = λ k s h. ground (arith, v.given k s, lookup-erase p k r.peer_ssrc_map);
  own_ssrc = λ j k s h i.
      ground (
        arith,
        v.own_ssrc j k s,
        lookup-erase p j r.peer_ssrc_map,
        lookup-erase p k r.peer_ssrc_map,
      );
}
