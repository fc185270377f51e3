-- ===== src/WebSocket/Server/Handshake.antt =====
-- `do_ws_handshake` on a request with a key, and the first read of a connection.
use cpp_meet.Common.Text.{codes, find, search}
use cpp_meet.Common.{
  ℕ, zero, suc, ◌+◌, ◌-◌, ◌≡◌, refl, ap, ap₂, sym, ◌∙◌, [], ◌∷◌, ◌++◌, some, arith, length, take,
  drop, drop-append, drop-drop, length-replicate, replicate, take-append,
}
use cpp_meet.Common.Keys.{nat_eq}
use cpp_meet.Wire.{Bytes}
use cpp_meet.WebSocket.Server.{crlf, key_behind, key_until, spaces, ws_key}

-- The index counts from where the search starts.
search_shift :
    (s : Bytes) (i j k m : ℕ) (text : Bytes)
    → m ≡ i + j
    → search s j text ≡ some k
    → search s m text ≡ some (i + k)
unfolding search
search_shift s i j k m [] e h = ground arith
search_shift s i j k m (b ∷ bs) e h =
    ground (arith, search_shift s i (suc j) k (suc m) bs (omega arith))

spaces-replicate : (n : ℕ) (text : Bytes) → spaces text ≡ 0 → spaces (replicate n 32 ++ text) ≡ n
unfolding spaces
spaces-replicate zero text h = h
spaces-replicate (suc n) text h = ap suc (spaces-replicate n text h)

-- A request with a key: what stands before the name of the header and behind the key is free.
abbrev pub request : Bytes → ℕ → Bytes → Bytes → Bytes
request front gap key rest =
    front ++ (codes "Sec-WebSocket-Key:" ++ (replicate gap 32 ++ (key ++ (crlf ++ rest))))

module _ (front key rest : Bytes) (gap : ℕ) where
  abbrev pub req : Bytes
  req = request front gap key rest

  abbrev header : Bytes
  header = codes "Sec-WebSocket-Key:"

  abbrev value : Bytes
  value = replicate gap 32 ++ (key ++ (crlf ++ rest))

  abbrev start : ℕ
  start = length front + 18 + gap

  drop_front : drop (length front + 18) req ≡ replicate gap 32 ++ (key ++ (crlf ++ rest))
  drop_front =
      sym (drop-drop 18 (length front) (length front + 18) req (omega arith))
      ∙ ap (drop 18) (drop-append front (header ++ value) (length front) refl)

  drop_gap : drop start req ≡ key ++ (crlf ++ rest)
  drop_gap =
      sym (drop-drop gap (length front + 18) start req (omega arith))
      ∙ ap (drop gap) drop_front
      ∙ drop-append (replicate gap 32) (key ++ (crlf ++ rest)) gap (sym (length-replicate gap 32))

  -- The value of the header, without the spaces in front of it.
  pub ws_key-request :
      find (codes "Sec-WebSocket-Key:") req 0 ≡ some (length front)
      → spaces (key ++ (crlf ++ rest)) ≡ 0
      → find crlf (key ++ (crlf ++ rest)) 0 ≡ some (length key)
      → ws_key req ≡ some key
  unfolding ws_key key_behind key_until
  ws_key-request at no_space ends =
      let gap_found : length front + 18 + spaces (drop (length front + 18) req) ≡ start =
        ap (λ t. length front + 18 + spaces t) drop_front
        ∙ ap (λ n. length front + 18 + n) (spaces-replicate gap (key ++ (crlf ++ rest)) no_space) in
      let end_found : find crlf req start ≡ some (start + length key) =
        ap (search crlf start) drop_gap
        ∙ search_shift crlf start 0 (length key) start (key ++ (crlf ++ rest)) (omega arith) ends in
      let size : start + length key - start ≡ length key = omega arith in
      ap (key_behind req) at
      ∙ ap (λ pos. key_until req pos (find crlf req pos)) gap_found
      ∙ ap (key_until req start) end_found
      ∙ ap₂ (λ n t. some (take n t)) size drop_gap
      ∙ ap some (take-append key (crlf ++ rest) (length key) refl)
