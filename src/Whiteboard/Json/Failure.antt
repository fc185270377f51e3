-- ===== src/Whiteboard/Json/Failure.antt =====
-- What a call of `parse_json` leaves behind, also when it fails half-way.
use cpp_meet.Common.{ℕ, ◌≡◌, refl, ap, Bool, true, false, Option, none, some, List, [], ◌∷◌}
use cpp_meet.Common.Keys.{bytes_eq, insert}
use cpp_meet.Common.Text.{codes}
use cpp_meet.Wire.{Bytes}
use cpp_meet.Whiteboard.{CrdtWhiteboard}
use cpp_meet.Whiteboard.Json.{
  JsonLibrary, attempt, behind, parse_add, parse_added, parse_fields, parse_json, parse_maps,
  parse_remove, parse_removed, string_at, u64_at,
}

-- Two boards that differ in what was removed at most.
pub record IsAlike (b c : CrdtWhiteboard) : Type 0 where
  pub same_peer : b.peer_id ≡ c.peer_id
  pub same_clock : b.lamport_ts ≡ c.lamport_ts
  pub same_added : b.added ≡ c.added

abbrev pub AreAlike : CrdtWhiteboard × Bool → CrdtWhiteboard × Bool → Type 0
AreAlike x y = IsAlike x.0 y.0 × (x.1 ≡ y.1)

attempt-AreAlike :
    {A : Type 0} (o : Option A) (b c : CrdtWhiteboard) (f g : A → CrdtWhiteboard × Bool)
    → IsAlike b c
    → ((a : A) → AreAlike (f a) (g a))
    → AreAlike (attempt o b f) (attempt o c g)
attempt-AreAlike none b c f g h k = (h, refl)
attempt-AreAlike (some a) b c f g h k = k a

behind-AreAlike :
    (x y : CrdtWhiteboard × Bool) (f g : CrdtWhiteboard → CrdtWhiteboard × Bool)
    → AreAlike x y
    → ((b c : CrdtWhiteboard) → IsAlike b c → AreAlike (f b) (g c))
    → AreAlike (behind x f) (behind y g)
behind-AreAlike (b, true) (c, true) f g h k = k b c h.0
behind-AreAlike (b, true) (c, false) f g h k = let e : true ≡ false = h.1 in absurd cc
behind-AreAlike (b, false) (c, true) f g h k = let e : false ≡ true = h.1 in absurd cc
behind-AreAlike (b, false) (c, false) f g h k = h

module _ (J : JsonLibrary) where
  parse_added-AreAlike :
      (es : List J.Json) (b c : CrdtWhiteboard)
      → IsAlike b c
      → AreAlike (parse_added J es b) (parse_added J es c)
  unfolding parse_added
  parse_added-AreAlike [] b c h = (h, refl)
  parse_added-AreAlike (e ∷ es) b c h =
      attempt-AreAlike (parse_add J e) b c
        (λ a. parse_added J es (record b { added = insert a.stroke.uuid a b.added }))
        (λ a. parse_added J es (record c { added = insert a.stroke.uuid a c.added })) h
        (λ a.
          parse_added-AreAlike es (record b { added = insert a.stroke.uuid a b.added })
            (record c { added = insert a.stroke.uuid a c.added })
            (record {
              same_peer = h.same_peer;
              same_clock = h.same_clock;
              same_added = ap (insert a.stroke.uuid a) h.same_added;
            }))

  parse_removed-AreAlike :
      (es : List J.Json) (b c : CrdtWhiteboard)
      → IsAlike b c
      → AreAlike (parse_removed J es b) (parse_removed J es c)
  unfolding parse_removed
  parse_removed-AreAlike [] b c h = (h, refl)
  parse_removed-AreAlike (e ∷ es) b c h =
      attempt-AreAlike (parse_remove J e) b c
        (λ r. parse_removed J es (record b { removed = insert r.0 r.1 b.removed }))
        (λ r. parse_removed J es (record c { removed = insert r.0 r.1 c.removed })) h
        (λ r.
          parse_removed-AreAlike es (record b { removed = insert r.0 r.1 b.removed })
            (record c { removed = insert r.0 r.1 c.removed })
            (record {
              same_peer = h.same_peer;
              same_clock = h.same_clock;
              same_added = h.same_added;
            }))

  parse_maps-AreAlike :
      (j : J.Json) (b c : CrdtWhiteboard)
      → b.peer_id ≡ c.peer_id
      → b.lamport_ts ≡ c.lamport_ts
      → AreAlike (parse_maps J j b) (parse_maps J j c)
  unfolding parse_maps
  parse_maps-AreAlike j b c p t =
      let cleared : IsAlike (record b { added = [] }) (record c { added = [] }) = record {
        same_peer = p;
        same_clock = t;
        same_added = refl;
      } in
      attempt-AreAlike (J.at (codes "added") j) (record b { added = [] }) (record c { added = [] })
        _ _ cleared
        (λ added.
          behind-AreAlike (parse_added J (J.elements added) (record b { added = [] }))
            (parse_added J (J.elements added) (record c { added = [] })) _ _
            (parse_added-AreAlike (J.elements added) (record b { added = [] })
              (record c { added = [] }) cleared)
            (λ d e h.
              let emptied : IsAlike (record d { removed = [] }) (record e { removed = [] }) =
                record {
                  same_peer = h.same_peer;
                  same_clock = h.same_clock;
                  same_added = h.same_added;
                } in
              attempt-AreAlike (J.at (codes "removed") j) (record d { removed = [] })
                (record e { removed = [] }) _ _ emptied
                (λ removed.
                  parse_removed-AreAlike (J.elements removed) (record d { removed = [] })
                    (record e { removed = [] }) emptied)))

  -- Once the text is JSON with the name of a peer and a clock, the result of `parse_json`, the peer, the clock
  -- and the strokes that are left do not depend on the board, also where the rest of the text is missing or
  -- ill-typed and the result is false.
  pub parse_json_forgets :
      (b c : CrdtWhiteboard) (s : Bytes) (j : J.Json) (peer_id : Bytes) (ts : ℕ)
      → J.parse s ≡ some j
      → string_at J (codes "peer_id") j ≡ some peer_id
      → u64_at J (codes "lamport_ts") j ≡ some ts
      → AreAlike (parse_json J b s) (parse_json J c s)
  unfolding parse_json parse_fields
  parse_json_forgets b c s j peer_id ts e p t = rw e (
      rw p (
        rw t (
          parse_maps-AreAlike j (record b { peer_id = peer_id; lamport_ts = ts })
            (record c { peer_id = peer_id; lamport_ts = ts }) refl refl)))
