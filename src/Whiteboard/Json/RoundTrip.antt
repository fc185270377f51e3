-- ===== src/Whiteboard/Json/RoundTrip.antt =====
-- What `serialize_json` writes, `parse_json` reads.
use cpp_meet.Common.{
  ◌^◌, ◌<◌, ◌≡◌, refl, sym, ap, ◌∙◌, true, none, some, List, [], ◌∷◌, ◌++◌, map, All, append-nil,
  append_assoc, arith, ◌≢◌, Bool-cases, inl, inr,
}
use mathlib.Core.Path.{subst}
use cpp_meet.Common.Keys.{bytes_beq, bytes_beq_iff, bytes_eq, insert, lookup}
use cpp_meet.Common.Text.{codes}
use cpp_meet.Wire.{Bytes}
use cpp_meet.Whiteboard.{AddEntry, CrdtWhiteboard, RemoveEntry}
use cpp_meet.Whiteboard.Merge.{Keyed, KeysOnce}
use cpp_meet.Whiteboard.Json.{
  JsonLibrary, add_json, attempt, board_json, parse_added, parse_fields, parse_json, parse_maps,
  parse_removed, remove_json, serialize_json,
}
use cpp_meet.Whiteboard.Json.Entries.{
  IsAdd, IsJson, IsStored, string_field, u64_field, parse_add-add_json, parse_remove-remove_json,
}

-- An entry whose key is not in front of it stands behind what is there.
insert_new :
    {V : Type 0} (k : Bytes) (v : V) (m : List (Bytes × V))
    → lookup k m ≡ none
    → insert k v m ≡ m ++ ((k, v) ∷ [])
unfolding insert lookup
insert_new k v [] h = refl
insert_new k v ((j, w) ∷ m) h = ground (arith, insert_new k v m)

lookup_present :
    {V : Type 0} (k : Bytes) (v : V) (m rest : List (Bytes × V))
    → lookup k (m ++ ((k, v) ∷ rest)) ≢ none
unfolding lookup
lookup_present k v [] rest e = ground (arith, bytes_beq_iff k k)
lookup_present k v ((j, w) ∷ m) rest e = ground (arith, lookup_present k v m rest)

lookup_front :
    {V : Type 0} (k : Bytes) (v : V) (m rest : List (Bytes × V))
    → KeysOnce (m ++ ((k, v) ∷ rest))
    → lookup k m ≡ none
unfolding lookup
lookup_front k v [] rest h = refl
lookup_front k v ((j, w) ∷ m) rest (h, hs) = elim (Bool-cases (bytes_beq j k)) [
  | inl same ↦ absurd (
      lookup_present k v m rest
        (ap (λ t. lookup t (m ++ ((k, v) ∷ rest))) (sym ((bytes_beq_iff j k).0 same)) ∙ h))
  | inr other ↦ rw other (lookup_front k v m rest hs)
]

module _ (J : JsonLibrary) (L : IsJson J) where
  parse_added-map :
      (entries done : List (Bytes × AddEntry)) (b : CrdtWhiteboard)
      → KeysOnce (done ++ entries)
      → Keyed entries
      → All (λ e. IsAdd e.1) entries
      → parse_added J (map (add_json J) entries) (record b { added = done })
        ≡ (record b { added = done ++ entries }, true)
  unfolding parse_added
  parse_added-map [] done b once keyed h =
      ap (λ t. (record b { added = t }, true)) (sym (append-nil done))
  parse_added-map ((u, e) ∷ rest) done b once (k, keyed) (h, hs) =
      ap
        (λ o.
          attempt o (record b { added = done })
            (λ a.
              parse_added J (map (add_json J) rest)
                (record b { added = insert a.stroke.uuid a done })))
        (parse_add-add_json J L u e h)
      ∙ ap (λ t. parse_added J (map (add_json J) rest) (record b { added = t }))
          (ap (λ t. insert t e done) k ∙ insert_new u e done (lookup_front u e done rest once))
      ∙ parse_added-map rest (done ++ ((u, e) ∷ [])) b (subst KeysOnce (sym seam) once) keyed hs
      ∙ ap (λ t. (record b { added = t }, true)) seam
    where
      seam : (done ++ ((u, e) ∷ [])) ++ rest ≡ done ++ ((u, e) ∷ rest)
      seam = append_assoc done ((u, e) ∷ []) rest

  parse_removed-map :
      (entries done : List (Bytes × RemoveEntry)) (b : CrdtWhiteboard)
      → KeysOnce (done ++ entries)
      → All (λ e. e.1.ts < 2 ^ 64) entries
      → parse_removed J (map (remove_json J) entries) (record b { removed = done })
        ≡ (record b { removed = done ++ entries }, true)
  unfolding parse_removed
  parse_removed-map [] done b once h =
      ap (λ t. (record b { removed = t }, true)) (sym (append-nil done))
  parse_removed-map ((u, e) ∷ rest) done b once (h, hs) =
      ap
        (λ o.
          attempt o (record b { removed = done })
            (λ r.
              parse_removed J (map (remove_json J) rest)
                (record b { removed = insert r.0 r.1 done })))
        (parse_remove-remove_json J L u e h)
      ∙ ap (λ t. parse_removed J (map (remove_json J) rest) (record b { removed = t }))
          (insert_new u e done (lookup_front u e done rest once))
      ∙ parse_removed-map rest (done ++ ((u, e) ∷ [])) b (subst KeysOnce (sym seam) once) hs
      ∙ ap (λ t. (record b { removed = t }, true)) seam
    where
      seam : (done ++ ((u, e) ∷ [])) ++ rest ≡ done ++ ((u, e) ∷ rest)
      seam = append_assoc done ((u, e) ∷ []) rest

  parse_maps-board_json :
      (b c : CrdtWhiteboard)
      → IsStored b
      → parse_maps J (board_json J b) c ≡ (record c { added = b.added; removed = b.removed }, true)
  unfolding parse_maps board_json lookup bytes_beq
  parse_maps-board_json b c h =
      let fields : List (Bytes × J.Json) =
        (codes "peer_id", J.string b.peer_id)
        ∷ (codes "lamport_ts", J.unsigned b.lamport_ts)
        ∷ (codes "added", J.array (map (add_json J) b.added))
        ∷ (codes "removed", J.array (map (remove_json J) b.removed))
        ∷ [] in
      rw (L.at-object (codes "added") fields) (
        rw (L.elements-array (map (add_json J) b.added)) (
          rw (parse_added-map b.added [] c h.board.added_once h.board.keyed h.added_IsAdd) (
            rw (L.at-object (codes "removed") fields) (
              rw (L.elements-array (map (remove_json J) b.removed)) (
                parse_removed-map b.removed [] (record c { added = b.added }) h.board.removed_once
                  h.removed_lt)))))

-- Into any board, `parse_json` reads the board of which `serialize_json` made the text, with the name of the
-- peer and the clock: where the library says of its values what is documented and reads the text that it
-- wrote, the ids stand once and the strokes under their own, the numbers are of their types and the floats finite.
pub parse_json-serialize_json :
    (J : JsonLibrary) (b c : CrdtWhiteboard) (text : Bytes)
    → IsJson J
    → IsStored b
    → serialize_json J b ≡ some text
    → J.parse text ≡ some (board_json J b)
    → parse_json J c text ≡ (b, true)
unfolding parse_json parse_fields board_json lookup bytes_beq
parse_json-serialize_json J b c text L h written read =
    let fields : List (Bytes × J.Json) =
      (codes "peer_id", J.string b.peer_id)
      ∷ (codes "lamport_ts", J.unsigned b.lamport_ts)
      ∷ (codes "added", J.array (map (add_json J) b.added))
      ∷ (codes "removed", J.array (map (remove_json J) b.removed))
      ∷ [] in
    rw read (
      rw (string_field J L (codes "peer_id") fields b.peer_id refl) (
        rw (u64_field J L (codes "lamport_ts") fields b.lamport_ts h.clock_lt refl) (
          parse_maps-board_json J L b (record c { peer_id = b.peer_id; lamport_ts = b.lamport_ts })
            h)))
