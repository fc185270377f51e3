-- ===== src/Whiteboard/Json/Entries.antt =====
-- One entry of either map, written and read, and what the JSON library is taken to say of its values.
use cpp_meet.Common.{
  ℕ, ◌/◌, ◌%◌, ◌^◌, ◌<◌, ◌==◌, ◌≡◌, refl, ap, ◌∙◌, Bool, true, not, some, List, [], ◌∷◌, map, All,
}
use cpp_meet.Common.Keys.{bytes_beq, bytes_eq, lookup}
use cpp_meet.Common.Options.{◌>>=◌}
use cpp_meet.Common.Text.{codes}
use cpp_meet.Wire.{Bytes}
use cpp_meet.Whiteboard.{AddEntry, CrdtWhiteboard, Point, RemoveEntry}
use cpp_meet.Whiteboard.Merge.{IsBoard}
use cpp_meet.Whiteboard.Json.{
  JsonLibrary, add_json, float_at, parse_add, parse_points, parse_remove, point_json, remove_json,
  string_at, u32_at, u64_at,
}

-- The 32 bits of a `float` that is neither infinite nor NaN.
abbrev pub is_finite : ℕ → Bool
is_finite w = not (w / 2 ^ 23 % 256 == 255)

-- What the JSON library says of the values it builds.
pub record IsJson (J : JsonLibrary) : Type 0 where
  pub at-object :
      (k : Bytes) (fields : List (Bytes × J.Json)) → J.at k (J.object fields) ≡ lookup k fields
  pub elements-array : (vs : List J.Json) → J.elements (J.array vs) ≡ vs
  pub get_string-string : (s : Bytes) → J.get_string (J.string s) ≡ some s
  pub get_u64-unsigned : (n : ℕ) → n < 2 ^ 64 → J.get_u64 (J.unsigned n) ≡ some n
  pub get_u32-unsigned : (n : ℕ) → n < 2 ^ 32 → J.get_u32 (J.unsigned n) ≡ some n
  pub get_float-real : (w : ℕ) → is_finite w ≡ true → J.get_float (J.real w) ≡ some w

abbrev pub IsFinitePoint : Point → Type 0
IsFinitePoint p = (is_finite p.x ≡ true) × (is_finite p.y ≡ true)

-- The numbers of an entry are of their types, and the floats are finite.
pub record IsAdd (e : AddEntry) : Type 0 where
  pub color_lt : e.stroke.color < 2 ^ 32
  pub width_finite : is_finite e.stroke.width ≡ true
  pub points_finite : All IsFinitePoint e.stroke.points
  pub ts_lt : e.ts < 2 ^ 64

pub record IsStored (b : CrdtWhiteboard) : Type 0 where
  pub board : IsBoard b
  pub clock_lt : b.lamport_ts < 2 ^ 64
  pub added_IsAdd : All (λ e. IsAdd e.1) b.added
  pub removed_lt : All (λ e. e.1.ts < 2 ^ 64) b.removed

module _ (J : JsonLibrary) (L : IsJson J) where
  pub string_field :
      (k : Bytes) (fields : List (Bytes × J.Json)) (s : Bytes)
      → lookup k fields ≡ some (J.string s)
      → string_at J k (J.object fields) ≡ some s
  unfolding string_at
  string_field k fields s h =
      ap (λ o. o >>= J.get_string) (L.at-object k fields ∙ h) ∙ L.get_string-string s

  pub u64_field :
      (k : Bytes) (fields : List (Bytes × J.Json)) (n : ℕ)
      → n < 2 ^ 64
      → lookup k fields ≡ some (J.unsigned n)
      → u64_at J k (J.object fields) ≡ some n
  unfolding u64_at
  u64_field k fields n w h =
      ap (λ o. o >>= J.get_u64) (L.at-object k fields ∙ h) ∙ L.get_u64-unsigned n w

  pub u32_field :
      (k : Bytes) (fields : List (Bytes × J.Json)) (n : ℕ)
      → n < 2 ^ 32
      → lookup k fields ≡ some (J.unsigned n)
      → u32_at J k (J.object fields) ≡ some n
  unfolding u32_at
  u32_field k fields n w h =
      ap (λ o. o >>= J.get_u32) (L.at-object k fields ∙ h) ∙ L.get_u32-unsigned n w

  pub float_field :
      (k : Bytes) (fields : List (Bytes × J.Json)) (w : ℕ)
      → is_finite w ≡ true
      → lookup k fields ≡ some (J.real w)
      → float_at J k (J.object fields) ≡ some w
  unfolding float_at
  float_field k fields w f h =
      ap (λ o. o >>= J.get_float) (L.at-object k fields ∙ h) ∙ L.get_float-real w f

  pub parse_points-map :
      (ps : List Point) → All IsFinitePoint ps → parse_points J (map (point_json J) ps) ≡ some ps
  unfolding parse_points point_json lookup bytes_beq
  parse_points-map [] h = refl
  parse_points-map (p ∷ ps) ((x, y), hs) =
      let fields : List (Bytes × J.Json) = (codes "x", J.real p.x) ∷ (codes "y", J.real p.y) ∷ [] in
      rw (float_field (codes "x") fields p.x x refl)
        (rw (float_field (codes "y") fields p.y y refl) (rw (parse_points-map ps hs) refl))

  pub parse_add-add_json :
      (u : Bytes) (e : AddEntry) → IsAdd e → parse_add J (add_json J (u, e)) ≡ some e
  unfolding parse_add add_json lookup bytes_beq
  parse_add-add_json u e h =
      let points = J.array (map (point_json J) e.stroke.points) in
      let fields : List (Bytes × J.Json) =
        (codes "uuid", J.string e.stroke.uuid)
        ∷ (codes "color", J.unsigned e.stroke.color)
        ∷ (codes "width", J.real e.stroke.width)
        ∷ (codes "ts", J.unsigned e.ts)
        ∷ (codes "peer_id", J.string e.peer_id)
        ∷ (codes "points", points)
        ∷ [] in
      rw (string_field (codes "uuid") fields e.stroke.uuid refl) (
        rw (u32_field (codes "color") fields e.stroke.color h.color_lt refl) (
          rw (float_field (codes "width") fields e.stroke.width h.width_finite refl) (
            rw (L.at-object (codes "points") fields) (
              rw (L.elements-array (map (point_json J) e.stroke.points)) (
                rw (parse_points-map e.stroke.points h.points_finite) (
                  rw (u64_field (codes "ts") fields e.ts h.ts_lt refl)
                    (rw (string_field (codes "peer_id") fields e.peer_id refl) refl)))))))

  pub parse_remove-remove_json :
      (u : Bytes) (e : RemoveEntry)
      → e.ts < 2 ^ 64
      → parse_remove J (remove_json J (u, e)) ≡ some (u, e)
  unfolding parse_remove remove_json lookup bytes_beq
  parse_remove-remove_json u e h =
      let fields : List (Bytes × J.Json) =
        (codes "uuid", J.string u)
        ∷ (codes "ts", J.unsigned e.ts)
        ∷ (codes "peer_id", J.string e.peer_id)
        ∷ [] in
      rw (string_field (codes "uuid") fields u refl) (
        rw (u64_field (codes "ts") fields e.ts h refl)
          (rw (string_field (codes "peer_id") fields e.peer_id refl) refl))
