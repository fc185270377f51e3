-- ===== src/Dtls/Sending.antt =====
-- What `pending_send` and `encrypt` take out of the memory BIO.
use cpp_meet.Common.{
  ℕ, zero, suc, ◌<◌, ◌≡◌, ◌≢◌, refl, sym, ap, ap₂, ◌∙◌, Option, none, some, [], ◌∷◌, ◌++◌, arith,
  length, take, drop, take-append-drop, length-drop,
}
use cpp_meet.Wire.{Bytes}
use cpp_meet.Dtls.{DtlsTransport, OpenSsl, append_read, pending_send, read_all, with_ssl}

-- A memory BIO gives the bytes that wait in it from the front, as many as are asked for.
pub record IsMemoryBio (O : OpenSsl) (waiting : O.Ssl → Bytes) : Type 0 where
  pub front : (n : ℕ) (s : O.Ssl) → (O.bio_read n s).0 ≡ take n (waiting s)
  pub rest : (n : ℕ) (s : O.Ssl) → waiting (O.bio_read n s).1 ≡ drop n (waiting s)

take_empty : (n : ℕ) (d : Bytes) → 0 < n → take n d ≡ [] → d ≡ []
take_empty zero d h e = absurd (omega arith)
take_empty (suc n) [] h e = refl
take_empty (suc n) (c ∷ d) h e = absurd cc

length_pos : (d : Bytes) → d ≢ [] → 0 < length d
length_pos [] h = absurd (h refl)
length_pos (c ∷ d) h = omega arith

module _ (O : OpenSsl) (waiting : O.Ssl → Bytes) (M : IsMemoryBio O waiting) where
  -- All that waits, and nothing is left.
  abbrev pub IsDrained : O.Ssl → Option (Bytes × O.Ssl) → Type 0
  IsDrained s none = ⊥
  IsDrained s (some (d, left)) = (d ≡ waiting s) × (waiting left ≡ [])

  append_read-IsDrained :
      (chunk : Bytes) (s left : O.Ssl) (o : Option (Bytes × O.Ssl))
      → chunk ++ waiting left ≡ waiting s
      → IsDrained left o
      → IsDrained s (append_read O chunk o)
  append_read-IsDrained chunk s left none e h = h
  append_read-IsDrained chunk s left (some (later, behind)) e (h, k) =
      (ap (λ t. chunk ++ t) h ∙ e, k)

  -- One round, by the chunk that is read.
  round-IsDrained :
      (chunk : Bytes) (s left : O.Ssl) (o : Option (Bytes × O.Ssl))
      → chunk ≡ take 4096 (waiting s)
      → waiting left ≡ drop 4096 (waiting s)
      → (chunk ≢ [] → IsDrained left o)
      → IsDrained s (elim chunk [ [] ↦ some ([], left) | c ∷ cs ↦ append_read O (c ∷ cs) o ])
  round-IsDrained [] s left o front rest h =
      let nothing : waiting s ≡ [] = take_empty 4096 (waiting s) (omega arith) (sym front) in
      (sym nothing, rest ∙ ap (drop 4096) nothing)
  round-IsDrained (c ∷ cs) s left o front rest h =
      append_read-IsDrained (c ∷ cs) s left o
        (ap₂ (λ x y. x ++ y) front rest ∙ take-append-drop 4096 (waiting s)) (h (λ e. cc))

  read_all-IsDrained :
      (fuel : ℕ) (s : O.Ssl)
      → length (waiting s) < fuel
      → IsDrained s (read_all O O.bio_read fuel s)
  unfolding read_all
  read_all-IsDrained zero s h = absurd (omega arith)
  read_all-IsDrained (suc fuel) s h =
      let left = (O.bio_read 4096 s).1 in
      round-IsDrained (O.bio_read 4096 s).0 s left (read_all O O.bio_read fuel left)
        (M.front 4096 s) (M.rest 4096 s)
        (λ some_read. read_all-IsDrained fuel left (shorter some_read))
    where
      shorter : (O.bio_read 4096 s).0 ≢ [] → length (waiting (O.bio_read 4096 s).1) < fuel
      shorter some_read =
          let w = waiting s in
          let filled : 0 < length w =
            length_pos w (λ e. some_read (M.front 4096 s ∙ ap (take 4096) e)) in
          omega (arith, h, filled, ap length (M.rest 4096 s), length-drop 4096 w)

  -- The whole of what waits, with a transport in whose BIO nothing is left.
  abbrev pub IsSent : DtlsTransport O.Ssl → Option (Bytes × DtlsTransport O.Ssl) → Type 0
  IsSent t none = ⊥
  IsSent t (some (d, u)) =
      (d ≡ waiting t.ssl) × ((waiting u.ssl ≡ []) × (u.handshake_done ≡ t.handshake_done))

  with_ssl-IsSent :
      (t : DtlsTransport O.Ssl) (o : Option (Bytes × O.Ssl))
      → IsDrained t.ssl o
      → IsSent t (with_ssl O t o)
  with_ssl-IsSent t none h = h
  with_ssl-IsSent t (some (d, ssl)) (h, k) = (h, (k, refl))

  -- With more fuel than bytes wait in the BIO, `pending_send` ends and gives them all in their order, and
  -- nothing is left in the BIO: where a memory BIO gives what waits from the front.
  pub pending_send-IsSent :
      (fuel : ℕ) (t : DtlsTransport O.Ssl)
      → length (waiting t.ssl) < fuel
      → IsSent t (pending_send O fuel t)
  unfolding pending_send
  pending_send-IsSent fuel t h =
      with_ssl-IsSent t (read_all O O.bio_read fuel t.ssl) (read_all-IsDrained fuel t.ssl h)
