-- ===== src/WebSocket/Parser.antt =====
-- The loop of `parse_ws_frames`: it runs until no whole frame is left, and where the reads cut the stream
-- makes no difference.
use mathlib.Core.Path.{subst}
use cpp_meet.Common.{
  ℕ, ◌≡◌, refl, ap, sym, ◌∙◌, inl, inr, List, [], ◌∷◌, ◌++◌, ◌==◌, arith, length_induction,
  append_assoc, Bool-cases,
}
use cpp_meet.Wire.{Bytes}
use cpp_meet.WebSocket.{
  Action, closed, Ending, Parsed, incomplete, too_long, hung_up, next_frame, parse_ws_frames,
  prepend, respond, threw, waits,
}
use cpp_meet.WebSocket.Loop.{Round-cases, round_incomplete, round_too_long, round_close, round_open}
use cpp_meet.WebSocket.Frame.{next_frame-append, next_frame_shorter, too_long_kept}

-- What the end of a call says: no whole frame is left, or the next one has a length that no string can
-- have, or the last action closed the connection.
abbrev Stopped : ℕ → List Action → Bytes → Ending → Type 0
Stopped fd acts buf waits = next_frame buf ≡ incomplete
Stopped fd acts buf threw = next_frame buf ≡ too_long
Stopped fd acts buf hung_up = (before : List Action) × (acts ≡ before ++ (closed fd ∷ []))

abbrev pub IsStopped : ℕ → Parsed → Type 0
IsStopped fd r = Stopped fd r.actions r.ws_buf r.ending

-- One more call on what a call left, with `more` received behind it; none after an exception or a close.
abbrev pub resume_at : ℕ → List Action → Bytes → Ending → Bytes → Parsed
resume_at fd acts buf waits more = prepend acts (parse_ws_frames fd (buf ++ more))
resume_at fd acts buf threw more = record { actions = acts; ws_buf = buf ++ more; ending = threw }
resume_at fd acts buf hung_up more = record {
  actions = acts;
  ws_buf = buf ++ more;
  ending = hung_up;
}

abbrev pub resume : ℕ → Parsed → Bytes → Parsed
resume fd r more = resume_at fd r.actions r.ws_buf r.ending more

module _ (fd : ℕ) where
  resume-prepend :
      (front acts : List Action) (buf : Bytes) (e : Ending) (more : Bytes)
      → resume_at fd (front ++ acts) buf e more ≡ prepend front (resume_at fd acts buf e more)
  resume-prepend front acts buf waits more =
      let r = parse_ws_frames fd (buf ++ more) in
      ap (λ (t : List Action). record { actions = t; ws_buf = r.ws_buf; ending = r.ending })
        (append_assoc front acts r.actions)
  resume-prepend front acts buf threw more = refl
  resume-prepend front acts buf hung_up more = refl

  Stopped-prepend :
      (front acts : List Action) (buf : Bytes) (e : Ending)
      → Stopped fd acts buf e
      → Stopped fd (front ++ acts) buf e
  Stopped-prepend front acts buf waits h = h
  Stopped-prepend front acts buf threw h = h
  Stopped-prepend front acts buf hung_up (before, h) =
      (front ++ before, ap (λ t. front ++ t) h ∙ sym (append_assoc front before (closed fd ∷ [])))

  -- For every buffer the loop ends, and for one of three reasons: no whole frame is left in the
  -- buffer, the next frame has a length that no string can have, or the last thing done was to close
  -- the connection.
  pub parse_ws_frames-IsStopped : (buf : Bytes) → IsStopped fd (parse_ws_frames fd buf)
  parse_ws_frames-IsStopped =
      length_induction (λ buf. IsStopped fd (parse_ws_frames fd buf))
        (λ buf before. elim (Round-cases (next_frame buf)) [
          | inl e ↦ subst (IsStopped fd) (sym (round_incomplete fd buf e)) e
          | inr (inl e) ↦ subst (IsStopped fd) (sym (round_too_long fd buf e)) e
          | inr (inr (opcode, body, rest, e)) ↦ elim (Bool-cases (opcode == 8)) [
            | inl h ↦
                subst (IsStopped fd) (sym (round_close fd buf opcode body rest e h)) ([], refl)
            | inr h ↦
                let r = parse_ws_frames fd rest in
                let shorter = next_frame_shorter buf opcode body rest e in
                subst (IsStopped fd) (sym (round_open fd buf opcode body rest e h)) (
                  Stopped-prepend (respond fd opcode body) r.actions r.ws_buf r.ending
                    (before rest (omega (arith, shorter))))
          ]
        ])

  -- A call on a buffer and what comes behind it does what a call on the buffer and then one on what it
  -- left and what comes behind do; after an exception or a close frame the second call does nothing.
  pub parse_ws_frames-append :
      (buf more : Bytes)
      → parse_ws_frames fd (buf ++ more) ≡ resume fd (parse_ws_frames fd buf) more
  parse_ws_frames-append buf more =
      length_induction
        (λ buf. parse_ws_frames fd (buf ++ more) ≡ resume fd (parse_ws_frames fd buf) more)
        (λ buf before. elim (Round-cases (next_frame buf)) [
          | inl e ↦ ap (λ r. resume fd r more) (sym (round_incomplete fd buf e))
          | inr (inl e) ↦
              round_too_long fd (buf ++ more) (too_long_kept buf more e)
              ∙ ap (λ r. resume fd r more) (sym (round_too_long fd buf e))
          | inr (inr (opcode, body, rest, e)) ↦
              let longer = next_frame-append buf more opcode body rest e in
              elim (Bool-cases (opcode == 8)) [
                | inl h ↦
                    round_close fd (buf ++ more) opcode body (rest ++ more) longer h
                    ∙ ap (λ r. resume fd r more) (sym (round_close fd buf opcode body rest e h))
                | inr h ↦
                    let r = parse_ws_frames fd rest in
                    let shorter = next_frame_shorter buf opcode body rest e in
                    round_open fd (buf ++ more) opcode body (rest ++ more) longer h
                    ∙ ap (prepend (respond fd opcode body)) (before rest (omega (arith, shorter)))
                    ∙ sym (resume-prepend (respond fd opcode body) r.actions r.ws_buf r.ending more)
                    ∙ ap (λ r. resume fd r more) (sym (round_open fd buf opcode body rest e h))
              ]
        ])
        buf
