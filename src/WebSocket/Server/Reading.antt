-- ===== src/WebSocket/Server/Reading.antt =====
-- `handle_client` on a connection whose handshake is done: the chunks in which the stream arrives make
-- no difference, and the texts of a client are delivered in their order.
use mathlib.Core.Path.{subst}
use cpp_meet.Common.{
  ℕ, ◌+◌, ◌^◌, ◌≤◌, ◌<◌, ◌≡◌, refl, ap, sym, ◌∙◌, true, false, List, [], ◌∷◌, ◌++◌, map, some, All,
  append-nil, append_assoc,
}
use cpp_meet.Common.Keys.{insert, lookup, lookup-insert_self, nat_eq}
use cpp_meet.Wire.{Bytes}
use cpp_meet.WebSocket.{
  Action, Ending, Parsed, be_bytes, hung_up, message, parse_ws_frames, prepend, threw, waits,
}
use cpp_meet.WebSocket.Lengths.{next_frame_overflow}
use cpp_meet.WebSocket.Messages.{IsSendable, parse_ws_frames-stream, stream}
use cpp_meet.WebSocket.Loop.{parse_ws_frames_nil, round_too_long}
use cpp_meet.WebSocket.Parser.{parse_ws_frames-append, resume, resume_at}
use cpp_meet.WebSocket.Server.{
  Conns, Handled, Net, ReadResult, WsConnection, behind, bytes, go_on, handle_client, receive,
  receive_frames, round, next_of,
}

abbrev pub joined : List Bytes → Bytes
joined [] = []
joined (chunk ∷ chunks) = chunk ++ joined chunks

abbrev pub established : Bytes → Bytes → WsConnection
established req buf = record { handshake_done = true; recv_buf = req; ws_buf = buf }

-- A call that waits in the end has waited before.
waits_before :
    (fd : ℕ) (acts : List Action) (buf : Bytes) (e : Ending) (more : Bytes)
    → (resume_at fd acts buf e more).ending ≡ waits
    → e ≡ waits
waits_before fd acts buf waits more h = refl
waits_before fd acts buf threw more h = h
waits_before fd acts buf hung_up more h = h

module _ (net : Net) (fd : ℕ) where
  -- One chunk.
  handle_client_step :
      (req buf chunk : Bytes) (reads : List ReadResult) (conns : Conns)
      → lookup fd conns ≡ some (established req buf)
      → (parse_ws_frames fd (buf ++ chunk)).ending ≡ waits
      → handle_client net fd (bytes chunk ∷ reads) conns
        ≡ behind (parse_ws_frames fd (buf ++ chunk)).actions (
            handle_client net fd reads
              (insert fd (established req (parse_ws_frames fd (buf ++ chunk)).ws_buf) conns))
  unfolding handle_client round receive receive_frames go_on
  handle_client_step req buf chunk reads conns here h =
      let r = parse_ws_frames fd (buf ++ chunk) in
      let later : Conns → Handled = handle_client net fd reads in
      ap (round net fd chunk conns later) here
      ∙ ap (λ e. go_on fd r.actions (insert fd (established req r.ws_buf) conns) (next_of e) later)
          h

  -- What a call says of the stream: the actions, no exception, and the buffer left.
  abbrev pub IsHandled : Bytes → Parsed → Handled → Type 0
  IsHandled req r h =
      (h.actions ≡ r.actions)
      × (h.crashed ≡ false)
      × (lookup fd h.conns ≡ some (established req r.ws_buf))

  IsHandled-cong :
      (req : Bytes) (r r2 : Parsed) (h h2 : Handled)
      → r ≡ r2
      → h ≡ h2
      → IsHandled req r h
      → IsHandled req r2 h2
  IsHandled-cong req r r2 h h2 e e2 p =
      subst (λ t. IsHandled req t h2) e (subst (IsHandled req r) e2 p)

  IsHandled-behind :
      (req : Bytes) (acts : List Action) (r : Parsed) (h : Handled)
      → IsHandled req r h
      → IsHandled req (prepend acts r) (behind acts h)
  IsHandled-behind req acts r h p = (ap (λ t. acts ++ t) p.0, p.1, p.2)

  nothing_more :
      (req : Bytes) (r : Parsed) (conns : Conns)
      → lookup fd conns ≡ some (established req r.ws_buf)
      → IsHandled req r (behind r.actions (handle_client net fd [] conns))
  unfolding handle_client
  nothing_more req r conns here = (append-nil r.actions, refl, here)

  -- However the bytes are cut into chunks.
  pub handle_client-joined :
      (req buf chunk : Bytes) (chunks : List Bytes) (conns : Conns)
      → lookup fd conns ≡ some (established req buf)
      → (parse_ws_frames fd (buf ++ (chunk ++ joined chunks))).ending ≡ waits
      → IsHandled req
          (parse_ws_frames fd (buf ++ (chunk ++ joined chunks)))
          (handle_client net fd (map bytes (chunk ∷ chunks)) conns)
  handle_client-joined req buf chunk [] conns here h =
      let whole : buf ++ (chunk ++ []) ≡ buf ++ chunk = ap (λ t. buf ++ t) (append-nil chunk) in
      let alone : (parse_ws_frames fd (buf ++ chunk)).ending ≡ waits =
        sym (ap (λ t. (parse_ws_frames fd t).ending) whole) ∙ h in
      let r = parse_ws_frames fd (buf ++ chunk) in
      let conns_after = insert fd (established req r.ws_buf) conns in
      IsHandled-cong req r (parse_ws_frames fd (buf ++ (chunk ++ [])))
        (behind r.actions (handle_client net fd [] conns_after))
        (handle_client net fd (bytes chunk ∷ []) conns) (sym (ap (parse_ws_frames fd) whole))
        (sym (handle_client_step req buf chunk [] conns here alone))
        (nothing_more req r conns_after (lookup-insert_self fd (established req r.ws_buf) conns))
  handle_client-joined req buf chunk (next ∷ chunks) conns here h =
      let r = parse_ws_frames fd (buf ++ chunk) in
      let more = next ++ joined chunks in
      let cut : parse_ws_frames fd (buf ++ (chunk ++ more)) ≡ resume fd r more =
        ap (parse_ws_frames fd) (sym (append_assoc buf chunk more))
        ∙ parse_ws_frames-append fd (buf ++ chunk) more in
      let first : r.ending ≡ waits =
        waits_before fd r.actions r.ws_buf r.ending more (sym (ap (λ p. p.ending) cut) ∙ h) in
      let conns_after = insert fd (established req r.ws_buf) conns in
      let resumed : resume fd r more ≡ prepend r.actions (parse_ws_frames fd (r.ws_buf ++ more)) =
        ap (λ e. resume_at fd r.actions r.ws_buf e more) first in
      let later =
        handle_client-joined req r.ws_buf next chunks conns_after
          (lookup-insert_self fd (established req r.ws_buf) conns)
          (sym (ap (λ p. p.ending) (cut ∙ resumed)) ∙ h) in
      IsHandled-cong req (prepend r.actions (parse_ws_frames fd (r.ws_buf ++ more)))
        (parse_ws_frames fd (buf ++ (chunk ++ more)))
        (behind r.actions (handle_client net fd (map bytes (next ∷ chunks)) conns_after))
        (handle_client net fd (map bytes (chunk ∷ next ∷ chunks)) conns) (sym (cut ∙ resumed))
        (sym (handle_client_step req buf chunk (map bytes (next ∷ chunks)) conns here first))
        (IsHandled-behind req r.actions (parse_ws_frames fd (r.ws_buf ++ more))
          (handle_client net fd (map bytes (next ∷ chunks)) conns_after) later)

  -- On a connection past its handshake with an empty buffer, the texts of a client, each shorter than
  -- 2 ^ 63 bytes and in a frame with a mask of four bytes, are given to the callback whole and in
  -- their order, into however many chunks, at least one, the reads cut them and wherever; nothing else
  -- is done, no exception is thrown, and the buffer is empty again.
  pub handle_client-stream :
      (req chunk : Bytes) (chunks : List Bytes) (frames : List (Bytes × Bytes)) (conns : Conns)
      → All IsSendable frames
      → chunk ++ joined chunks ≡ stream frames
      → lookup fd conns ≡ some (established req [])
      → IsHandled req
          (record { actions = map (λ f. message fd f.1) frames; ws_buf = []; ending = waits })
          (handle_client net fd (map bytes (chunk ∷ chunks)) conns)
  handle_client-stream req chunk chunks frames conns sendable split here =
      let texts = map (λ f. message fd f.1) frames in
      let arrived : parse_ws_frames fd ([] ++ (chunk ++ joined chunks))
          ≡ record { actions = texts; ws_buf = []; ending = waits } =
        ap (parse_ws_frames fd) (split ∙ sym (append-nil (stream frames)))
        ∙ parse_ws_frames-stream fd frames [] sendable
        ∙ ap (prepend texts) (parse_ws_frames_nil fd)
        ∙ ap (λ (t : List Action). record { actions = t; ws_buf = []; ending = waits })
            (append-nil texts) in
      subst (λ r. IsHandled req r (handle_client net fd (map bytes (chunk ∷ chunks)) conns)) arrived
        (handle_client-joined req [] chunk chunks conns here (ap (λ r. r.ending) arrived))

  -- On a connection past its handshake with an empty buffer, a chunk that starts with any first byte,
  -- a second byte 127 and eight bytes of a length from 2 ^ 64 - 10 up ends the program by an
  -- exception, whatever follows.
  pub handle_client_overflow :
      (req more : Bytes) (b0 len : ℕ) (reads : List ReadResult) (conns : Conns)
      → 2 ^ 64 ≤ len + 10
      → len < 2 ^ 64
      → lookup fd conns ≡ some (established req [])
      → (handle_client net fd (bytes (b0 ∷ 127 ∷ (be_bytes 8 len ++ more)) ∷ reads) conns).crashed
        ≡ true
  unfolding handle_client round receive receive_frames go_on
  handle_client_overflow req more b0 len reads conns wraps fits here =
      let buf = b0 ∷ 127 ∷ (be_bytes 8 len ++ more) in
      let later : Conns → Handled = handle_client net fd reads in
      let thrown = round_too_long fd buf (next_frame_overflow b0 len more wraps fits) in
      let r = parse_ws_frames fd buf in
      ap (λ h. h.crashed)
        (ap (round net fd buf conns later) here
          ∙ ap
              (λ e.
                go_on fd r.actions (insert fd (established req r.ws_buf) conns) (next_of e) later)
              (ap (λ p. p.ending) thrown))
