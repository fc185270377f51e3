-- ===== src/WebSocket/Loop.antt =====
-- The loop of `parse_ws_frames` without its fuel, by what a round finds.
use cpp_meet.Common.{
  ℕ, zero, suc, ◌≤◌, ◌≡◌, refl, ap, sym, ◌∙◌, true, false, ◌⊎◌, inl, inr, List, [], ◌∷◌, ◌==◌,
  arith, length, if◌then◌else◌,
}
use cpp_meet.Wire.{Bytes}
use cpp_meet.WebSocket.{
  Action, closed, after_round, Parsed, Round, incomplete, too_long, frame, frames_loop, hung_up,
  next_frame, parse_ws_frames, prepend, respond, threw, waits,
}
use cpp_meet.WebSocket.Frame.{next_frame_shorter}

pub Round-cases :
    (r : Round)
    → (r ≡ incomplete)
      ⊎ (r ≡ too_long)
      ⊎ ((opcode : ℕ) × (body : Bytes) × (rest : Bytes) × (r ≡ frame opcode body rest))
Round-cases incomplete = inl refl
Round-cases too_long = inr (inl refl)
Round-cases (frame opcode body rest) = inr (inr (opcode, body, rest, refl))

after_round_cong :
    (fd : ℕ) (buf : Bytes) (r : Round) (f g : Bytes → Parsed)
    → ((opcode : ℕ) (body rest : Bytes) → r ≡ frame opcode body rest → f rest ≡ g rest)
    → after_round fd buf r f ≡ after_round fd buf r g
unfolding after_round
after_round_cong fd buf incomplete f g h = refl
after_round_cong fd buf too_long f g h = refl
after_round_cong fd buf (frame opcode body rest) f g h =
    ap
      (λ (t : Parsed).
        if opcode == 8
        then record { actions = respond fd opcode body; ws_buf = rest; ending = hung_up }
        else prepend (respond fd opcode body) t)
      (h opcode body rest refl)

frames_loop-suc :
    (fuel fd : ℕ) (buf : Bytes)
    → frames_loop (suc fuel) fd buf ≡ after_round fd buf (next_frame buf) (frames_loop fuel fd)
unfolding frames_loop
frames_loop-suc fuel fd buf = refl

nil_round : next_frame [] ≡ incomplete
unfolding next_frame
nil_round = refl

frames_loop_nil :
    (fuel fd : ℕ) → frames_loop fuel fd [] ≡ record { actions = []; ws_buf = []; ending = waits }
unfolding frames_loop next_frame after_round
frames_loop_nil zero fd = refl
frames_loop_nil (suc fuel) fd = refl

-- Any two amounts of fuel that the buffer does not exceed give the same.
fuel_enough :
    (m n fd : ℕ) (buf : Bytes)
    → length buf ≤ m
    → length buf ≤ n
    → frames_loop m fd buf ≡ frames_loop n fd buf
fuel_enough m n fd [] hm hn = frames_loop_nil m fd ∙ sym (frames_loop_nil n fd)
fuel_enough zero n fd (b ∷ bs) hm hn = absurd (omega arith)
fuel_enough (suc m) zero fd (b ∷ bs) hm hn = absurd (omega arith)
fuel_enough (suc m) (suc n) fd (b ∷ bs) hm hn =
    frames_loop-suc m fd (b ∷ bs)
    ∙ after_round_cong fd (b ∷ bs) (next_frame (b ∷ bs)) (frames_loop m fd) (frames_loop n fd)
        (λ opcode body rest e.
          let shorter = next_frame_shorter (b ∷ bs) opcode body rest e in
          fuel_enough m n fd rest (omega (arith, shorter, hm)) (omega (arith, shorter, hn)))
    ∙ sym (frames_loop-suc n fd (b ∷ bs))

-- The loop without its fuel.
pub parse_ws_frames_lem :
    (fd : ℕ) (buf : Bytes)
    → parse_ws_frames fd buf ≡ after_round fd buf (next_frame buf) (parse_ws_frames fd)
unfolding parse_ws_frames
parse_ws_frames_lem fd [] =
    frames_loop_nil 0 fd
    ∙ sym (frames_loop_nil 1 fd)
    ∙ frames_loop-suc 0 fd []
    ∙ after_round_cong fd [] (next_frame []) (frames_loop 0 fd) (parse_ws_frames fd)
        (λ opcode body rest e. cc (e, nil_round))
parse_ws_frames_lem fd (b ∷ bs) =
    frames_loop-suc (length bs) fd (b ∷ bs)
    ∙ after_round_cong fd (b ∷ bs) (next_frame (b ∷ bs)) (frames_loop (length bs) fd)
        (parse_ws_frames fd)
        (λ opcode body rest e.
          let shorter = next_frame_shorter (b ∷ bs) opcode body rest e in
          fuel_enough (length bs) (length rest) fd rest (omega (arith, shorter)) (omega arith))

pub parse_ws_frames_nil :
    (fd : ℕ) → parse_ws_frames fd [] ≡ record { actions = []; ws_buf = []; ending = waits }
unfolding parse_ws_frames
parse_ws_frames_nil fd = frames_loop_nil 0 fd

module _ (fd : ℕ) where
  pub round_incomplete :
      (buf : Bytes)
      → next_frame buf ≡ incomplete
      → parse_ws_frames fd buf ≡ record { actions = []; ws_buf = buf; ending = waits }
  unfolding after_round
  round_incomplete buf e =
      parse_ws_frames_lem fd buf ∙ ap (λ r. after_round fd buf r (parse_ws_frames fd)) e

  pub round_too_long :
      (buf : Bytes)
      → next_frame buf ≡ too_long
      → parse_ws_frames fd buf ≡ record { actions = []; ws_buf = buf; ending = threw }
  unfolding after_round
  round_too_long buf e =
      parse_ws_frames_lem fd buf ∙ ap (λ r. after_round fd buf r (parse_ws_frames fd)) e

  pub round_frame :
      (buf : Bytes) (opcode : ℕ) (body rest : Bytes)
      → next_frame buf ≡ frame opcode body rest
      → parse_ws_frames fd buf ≡ (
          if opcode == 8
          then record { actions = respond fd opcode body; ws_buf = rest; ending = hung_up }
          else prepend (respond fd opcode body) (parse_ws_frames fd rest))
  unfolding after_round
  round_frame buf opcode body rest e =
      parse_ws_frames_lem fd buf ∙ ap (λ r. after_round fd buf r (parse_ws_frames fd)) e

  close_last :
      (opcode : ℕ) (body : Bytes) → (opcode == 8) ≡ true → respond fd opcode body ≡ closed fd ∷ []
  unfolding respond
  close_last opcode body h = ground arith

  module _ (buf : Bytes) (opcode : ℕ) (body rest : Bytes)
      (e : next_frame buf ≡ frame opcode body rest) where
    pub round_close :
        (opcode == 8) ≡ true
        → parse_ws_frames fd buf
          ≡ record { actions = closed fd ∷ []; ws_buf = rest; ending = hung_up }
    round_close h =
        round_frame buf opcode body rest e
        ∙ ap
            (λ b.
              if b
              then record { actions = respond fd opcode body; ws_buf = rest; ending = hung_up }
              else prepend (respond fd opcode body) (parse_ws_frames fd rest))
            h
        ∙ ap (λ (t : List Action). record { actions = t; ws_buf = rest; ending = hung_up })
            (close_last opcode body h)

    pub round_open :
        (opcode == 8) ≡ false
        → parse_ws_frames fd buf ≡ prepend (respond fd opcode body) (parse_ws_frames fd rest)
    round_open h =
        round_frame buf opcode body rest e
        ∙ ap
            (λ b.
              if b
              then record { actions = respond fd opcode body; ws_buf = rest; ending = hung_up }
              else prepend (respond fd opcode body) (parse_ws_frames fd rest))
            h
