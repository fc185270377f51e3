-- ===== src/WebSocket/Frame.antt =====
-- One round of `parse_ws_frames`: what it takes from the buffer, and that later bytes do not change it.
use cpp_meet.Common.{
  ℕ, zero, suc, ◌+◌, ◌%◌, ◌^◌, ◌≤◌, ◌<◌, ◌≡◌, refl, ap, sym, ◌∙◌, inl, inr, none, some, [], ◌∷◌,
  ◌++◌, ltb, arith, length, take, drop, ◌≢◌, ltb→lt, ltb→le, Bool-cases, Option-cases,
  length-append, length-drop, take-append_le, get_or-append_lt,
}
use cpp_meet.Wire.{Bytes, byte_at, read_u16}
use cpp_meet.WebSocket.{
  incomplete, too_long, frame, frame_head, mask_size, next_frame, payload, read_be, sized_frame,
  unmask,
}

pub drop-append_le : (xs ys : Bytes) (n : ℕ) → n ≤ length xs → drop n (xs ++ ys) ≡ drop n xs ++ ys
drop-append_le xs ys zero h = refl
drop-append_le [] ys (suc n) h = absurd (omega arith)
drop-append_le (x ∷ xs) ys (suc n) h = drop-append_le xs ys n (omega arith)

-- The header, of which two to ten bytes are there.
frame_head_bounds :
    (buf : Bytes) (len h : ℕ)
    → frame_head buf ≡ some (len, h)
    → 2 ≤ length buf
    → (2 ≤ h) × (h ≤ 10) × (h ≤ length buf)
unfolding frame_head
frame_head_bounds buf len h e two = ground arith

-- A frame is there in full, so that nothing wraps.
sized_frame_inv :
    (buf : Bytes) (len h opcode : ℕ) (body rest : Bytes)
    → h ≤ 10
    → sized_frame buf (some (len, h)) ≡ frame opcode body rest
    → (h + mask_size buf + len ≤ length buf)
      × (((h + mask_size buf + len) % 2 ^ 64 ≡ h + mask_size buf + len) × (len < 2 ^ 63))
      × (opcode ≡ byte_at buf 0 % 16)
      × (body ≡ payload buf len h)
      × (rest ≡ drop (h + mask_size buf + len) buf)
unfolding sized_frame
sized_frame_inv buf len h opcode body rest small e = ground arith

module _ (buf more : Bytes) where
  byte_kept : (i : ℕ) → i < length buf → byte_at (buf ++ more) i ≡ byte_at buf i
  byte_kept i h = get_or-append_lt buf more i 0 h

  short_kept : 4 ≤ length buf → read_u16 (buf ++ more) 2 ≡ read_u16 buf 2
  unfolding read_u16
  short_kept h = omega (arith, byte_kept 2 (omega arith), byte_kept 3 (omega arith))

  slice_kept : (n h : ℕ) → h + n ≤ length buf → take n (drop h (buf ++ more)) ≡ take n (drop h buf)
  slice_kept n h fits =
      ap (take n) (drop-append_le buf more h (omega arith))
      ∙ take-append_le (drop h buf) more n (omega (arith, length-drop h buf))

  long_kept :
      10 ≤ length buf → read_be 0 (take 8 (drop 2 (buf ++ more))) ≡ read_be 0 (take 8 (drop 2 buf))
  long_kept h = ap (read_be 0) (slice_kept 8 2 h)

  frame_head-append :
      (q : ℕ × ℕ) → 2 ≤ length buf → frame_head buf ≡ some q → frame_head (buf ++ more) ≡ some q
  unfolding frame_head
  frame_head-append q two e =
      ground (arith, length-append buf more, byte_kept 1 (omega arith), short_kept, long_kept)

  payload_kept :
      (len h : ℕ)
      → 2 ≤ length buf
      → h + mask_size buf + len ≤ length buf
      → payload (buf ++ more) len h ≡ payload buf len h
  unfolding payload
  payload_kept len h two fits = ground (
    arith,
    byte_kept 1 (omega arith),
    slice_kept len h (omega arith),
    slice_kept 4 h,
    slice_kept len (h + 4),
    ap (λ b. unmask b 0 (take len (drop (h + 4) (buf ++ more)))),
  )

  sized_frame-append :
      (len h opcode : ℕ) (body rest : Bytes)
      → 2 ≤ length buf
      → h ≤ 10
      → sized_frame buf (some (len, h)) ≡ frame opcode body rest
      → sized_frame (buf ++ more) (some (len, h)) ≡ frame opcode body (rest ++ more)
  unfolding sized_frame
  sized_frame-append len h opcode body rest two small e =
      let (fits, no_wrap, opcode_eq, body_eq, rest_eq) =
        sized_frame_inv buf len h opcode body rest small e in
      ground (
        arith,
        length-append buf more,
        byte_kept 0 (omega arith),
        byte_kept 1 (omega arith),
        payload_kept len h two fits,
        drop-append_le buf more (h + mask_size buf + len) fits,
        opcode_eq,
        body_eq,
        rest_eq,
        no_wrap,
      )

  too_long-append :
      (len h : ℕ)
      → 2 ≤ length buf
      → sized_frame buf (some (len, h)) ≡ too_long
      → sized_frame (buf ++ more) (some (len, h)) ≡ too_long
  unfolding sized_frame
  too_long-append len h two e = ground (arith, length-append buf more, byte_kept 1 (omega arith))

pub next_frame_lem :
    (buf : Bytes) → 2 ≤ length buf → next_frame buf ≡ sized_frame buf (frame_head buf)
unfolding next_frame
next_frame_lem buf two = ground arith

next_frame_short : (buf : Bytes) → length buf < 2 → next_frame buf ≡ incomplete
unfolding next_frame
next_frame_short buf short = ground arith

sized_frame-none : (buf : Bytes) → sized_frame buf none ≡ incomplete
unfolding sized_frame
sized_frame-none buf = refl

-- A round that finds something has two bytes and their header.
next_frame_head :
    (buf : Bytes)
    → next_frame buf ≢ incomplete
    → (2 ≤ length buf)
      × (q : ℕ × ℕ) × (frame_head buf ≡ some q)
      × (q.1 ≤ 10)
      × (2 ≤ q.1)
      × (next_frame buf ≡ sized_frame buf (some q))
next_frame_head buf e =
    let two : 2 ≤ length buf = elim (Bool-cases (ltb (length buf) 2)) [
      | inl short ↦ absurd (e (next_frame_short buf (ltb→lt (length buf) 2 short)))
      | inr two ↦ ltb→le (length buf) 2 two
    ] in
    elim (Option-cases (frame_head buf)) [
      | inl no_head ↦
          absurd (e (next_frame_lem buf two ∙ ap (sized_frame buf) no_head ∙ sized_frame-none buf))
      | inr (q, head) ↦
          let (low, high, _) = frame_head_bounds buf q.0 q.1 head two in
          (two, q, head, high, low, next_frame_lem buf two ∙ ap (sized_frame buf) head)
    ]

module _ (buf : Bytes) where
  -- The same header in front of more bytes.
  next_frame_longer :
      (more : Bytes) (q : ℕ × ℕ)
      → 2 ≤ length buf
      → frame_head buf ≡ some q
      → next_frame (buf ++ more) ≡ sized_frame (buf ++ more) (some q)
  next_frame_longer more q two head =
      next_frame_lem (buf ++ more) (omega (arith, length-append buf more))
      ∙ ap (sized_frame (buf ++ more)) (frame_head-append buf more q two head)

  pub next_frame-append :
      (more : Bytes) (opcode : ℕ) (body rest : Bytes)
      → next_frame buf ≡ frame opcode body rest
      → next_frame (buf ++ more) ≡ frame opcode body (rest ++ more)
  next_frame-append more opcode body rest e =
      let (two, q, head, high, low, eq) = next_frame_head buf (λ i. cc) in
      next_frame_longer more q two head
      ∙ sized_frame-append buf more q.0 q.1 opcode body rest two high (sym eq ∙ e)

  pub too_long_kept :
      (more : Bytes) → next_frame buf ≡ too_long → next_frame (buf ++ more) ≡ too_long
  too_long_kept more e =
      let (two, q, head, high, low, eq) = next_frame_head buf (λ i. cc) in
      next_frame_longer more q two head ∙ too_long-append buf more q.0 q.1 two (sym eq ∙ e)

  pub next_frame_shorter :
      (opcode : ℕ) (body rest : Bytes)
      → next_frame buf ≡ frame opcode body rest
      → length rest + 2 ≤ length buf
  next_frame_shorter opcode body rest e =
      let (two, q, head, high, low, eq) = next_frame_head buf (λ i. cc) in
      let (fits, _, _, _, rest_eq) =
        sized_frame_inv buf q.0 q.1 opcode body rest high (sym eq ∙ e) in
      omega (arith, ap length rest_eq, length-drop (q.1 + mask_size buf + q.0) buf)
