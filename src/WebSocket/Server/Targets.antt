-- ===== src/WebSocket/Server/Targets.antt =====
-- The descriptor that an action of a handler is on, in the `handle_client` of
-- module05_signaling/src/websocket_server.cpp.
use cpp_meet.Common.{
  ℕ, ◌≡◌, refl, zero, suc, ◌%◌, ◌++◌, ◌==◌, ltb, if◌then◌else◌, if_elim, length, All, All-append,
  Bool, true, false, List, [], ◌∷◌, none, some,
}
use cpp_meet.Common.Keys.{nat_eq}
use cpp_meet.Common.Text.{find}
use cpp_meet.Wire.{Bytes}
use cpp_meet.WebSocket.{
  Action, Parsed, Round, after_round, closed, connected, disconnected, frame, frames_loop, hung_up,
  incomplete, message, next_frame, parse_ws_frames, prepend, respond, too_long, wrote,
}
use cpp_meet.WebSocket.Server.{
  Net, Next, WsConnection, read_on, crlf, do_ws_handshake, response, ws_key, receive_frames,
  receive_request, drop_client, receive,
}

-- The descriptor of the connection that an action is on.
abbrev pub target : Action → ℕ
target (message fd body) = fd
target (wrote fd d) = fd
target (closed fd) = fd
target (connected fd) = fd
target (disconnected fd) = fd

abbrev pub AreOn : ℕ → List Action → Type 0
AreOn fd acts = All (λ a. target a ≡ fd) acts

respond-AreOn : (fd opcode : ℕ) (body : Bytes) → AreOn fd (respond fd opcode body)
unfolding respond
respond-AreOn fd opcode body =
    let pong = 138 ∷ (length body % 128) ∷ [] in
    let echo = if ltb 0 (length body) then wrote fd body ∷ [] else [] in
    if_elim (AreOn fd) (opcode == 1) (message fd body ∷ []) _ (λ _. (refl, tt))
      (λ _.
        if_elim (AreOn fd) (opcode == 8) (closed fd ∷ []) _ (λ _. (refl, tt))
          (λ _.
            if_elim (AreOn fd) (opcode == 9) (wrote fd pong ∷ echo) []
              (λ _. (
                refl,
                if_elim (AreOn fd) (ltb 0 (length body)) (wrote fd body ∷ []) [] (λ _. (refl, tt))
                    (λ _. tt),
              ))
              (λ _. tt)))

after_round-AreOn :
    (fd : ℕ) (buf : Bytes) (r : Round) (later : Bytes → Parsed)
    → ((rest : Bytes) → AreOn fd (later rest).actions)
    → AreOn fd (after_round fd buf r later).actions
unfolding after_round
after_round-AreOn fd buf incomplete later h = tt
after_round-AreOn fd buf too_long later h = tt
after_round-AreOn fd buf (frame opcode body rest) later h =
    let acts = respond fd opcode body in
    let on_fd = respond-AreOn fd opcode body in
    if_elim (λ (r : Parsed). AreOn fd r.actions) (opcode == 8)
      (record { actions = acts; ws_buf = rest; ending = hung_up }) (prepend acts (later rest))
      (λ _. on_fd) (λ _. All-append (λ a. target a ≡ fd) acts (later rest).actions on_fd (h rest))

frames_loop-AreOn : (fuel fd : ℕ) (buf : Bytes) → AreOn fd (frames_loop fuel fd buf).actions
unfolding frames_loop
frames_loop-AreOn zero fd buf = tt
frames_loop-AreOn (suc fuel) fd buf =
    after_round-AreOn fd buf (next_frame buf) (frames_loop fuel fd) (frames_loop-AreOn fuel fd)

handshake-AreOn : (net : Net) (fd : ℕ) (req : Bytes) → AreOn fd (do_ws_handshake net fd req).0
unfolding do_ws_handshake
handshake-AreOn net fd req =
    elim (ws_key req)
      as (λ o.
        AreOn fd
          (elim o as (λ _. List Action × Bool) [
            | none ↦ ([], false)
            | some key ↦ (
              wrote fd (response net key) ∷ [],
              elim (net.write fd (response net key)) as (λ _. Bool) [
                | none ↦ false
                | some sent ↦ sent == length (response net key)
              ],
            )
          ]).0) [ none ↦ tt | some key ↦ (refl, tt) ]

receive_request-AreOn :
    (net : Net) (fd : ℕ) (conn : WsConnection) (req : Bytes)
    → AreOn fd (receive_request net fd conn req).0
unfolding receive_request
receive_request-AreOn net fd conn req =
    let acts = (do_ws_handshake net fd req).0 in
    let sent = handshake-AreOn net fd req in
    let waiting : List Action × WsConnection × Next =
      ([], record { handshake_done = false; recv_buf = req; ws_buf = conn.ws_buf }, read_on) in
    let greeted : List Action × WsConnection × Next = (
      acts ++ (connected fd ∷ []),
      record { handshake_done = true; recv_buf = req; ws_buf = conn.ws_buf },
      read_on,
    ) in
    let refused : List Action × WsConnection × Next = (
      acts,
      record { handshake_done = false; recv_buf = req; ws_buf = conn.ws_buf },
      drop_client,
    ) in
    let answered : List Action × WsConnection × Next =
      if (do_ws_handshake net fd req).1 then greeted else refused in
    elim (find (crlf ++ crlf) req 0)
      as (λ o.
        AreOn fd
          (elim o as (λ _. List Action × WsConnection × Next) [
            | none ↦ waiting
            | some end ↦ answered
          ]).0) [
            | none ↦ tt
            | some end ↦
                if_elim {A = List Action × WsConnection × Next} (λ r. AreOn fd r.0)
                  (do_ws_handshake net fd req).1 greeted refused
                  (λ _. All-append (λ a. target a ≡ fd) acts (connected fd ∷ []) sent (refl, tt))
                  (λ _. sent)
          ]

pub receive-AreOn :
    (net : Net) (fd : ℕ) (conn : WsConnection) (chunk : Bytes)
    → AreOn fd (receive net fd conn chunk).0
unfolding receive receive_frames parse_ws_frames
receive-AreOn net fd conn chunk =
    if_elim {A = List Action × WsConnection × Next} (λ r. AreOn fd r.0) conn.handshake_done
      (receive_frames fd conn (conn.ws_buf ++ chunk))
      (receive_request net fd conn (conn.recv_buf ++ chunk))
      (λ _. frames_loop-AreOn (length (conn.ws_buf ++ chunk)) fd (conn.ws_buf ++ chunk))
      (λ _. receive_request-AreOn net fd conn (conn.recv_buf ++ chunk))
