-- ===== src/WebSocket/Server.antt =====
-- The connections of `WebSocketServer`: `do_ws_handshake`, `handle_client`, `accept_client`, `send` and
-- `broadcast` of module05_signaling/src/websocket_server.cpp. The digest of OpenSSL and the result of
-- `::write` are parameters; what the kernel gives to `::read` is the list of `ReadResult`, at whose end
-- it has no more for now. The three callbacks are taken to be set. The lock and `epoll_ctl` are left out.
pub mod Reading
pub mod Handshake
pub mod Service
pub mod Isolation
pub mod Targets
use cpp_meet.Common.Text.{codes, find, search, starts_with}
use cpp_meet.Common.{
  ℕ, zero, suc, ◌+◌, ◌-◌, Bool, true, false, List, [], ◌∷◌, ◌++◌, ◌==◌, ◌&&◌, if◌then◌else◌, length,
  take, drop, map, Option, none, some,
}
use cpp_meet.Common.Keys.{erase, insert, lookup, nat_eq}
use cpp_meet.Wire.{Bytes}
use cpp_meet.WebSocket.{
  Action, Ending, build_ws_frame, closed, connected, disconnected, hung_up, parse_ws_frames, threw,
  waits, wrote,
}

-- Its field `fd` is the key under which it stands.
pub record WsConnection : Type 0 where
  pub handshake_done : Bool
  pub recv_buf : Bytes
  pub ws_buf : Bytes

-- `conns_`, by file descriptor.
abbrev pub Conns : Type 0
Conns = List (ℕ × WsConnection)

pub record Net : Type 0 where
  pub sha1_base64 : Bytes → Bytes
  pub write : ℕ → Bytes → Option ℕ

-- The spaces in front, which the loop over `pos` skips.
unfoldable pub spaces : Bytes → ℕ
spaces [] = 0
spaces (b ∷ bs) = let later = spaces bs in if b == 32 then suc later else 0

abbrev pub crlf : Bytes
crlf = 13 ∷ 10 ∷ []

-- What stands from `pos` to the end of the line, if the line has one.
unfoldable pub key_until : Bytes → ℕ → Option ℕ → Option Bytes
key_until req pos none = none
key_until req pos (some end) = some (take (end - pos) (drop pos req))

-- What stands behind the name of the header and the spaces, if the header is there.
unfoldable pub key_behind : Bytes → Option ℕ → Option Bytes
key_behind req none = none
key_behind req (some at) =
    let after = at + 18 in
    let pos = after + spaces (drop after req) in key_until req pos (find crlf req pos)

-- `Sec-WebSocket-Key` of a request.
unfoldable pub ws_key : Bytes → Option Bytes
ws_key req = key_behind req (find (codes "Sec-WebSocket-Key:") req 0)

unfoldable pub response : Net → Bytes → Bytes
response net key =
    codes "HTTP/1.1 101 Switching Protocols"
    ++ crlf
    ++ codes "Upgrade: websocket"
    ++ crlf
    ++ codes "Connection: Upgrade"
    ++ crlf
    ++ codes "Sec-WebSocket-Accept: "
    ++ net.sha1_base64 (key ++ codes "258EAFA5-E914-47DA-95CA-C5AB0DC85B11")
    ++ crlf
    ++ crlf

unfoldable pub do_ws_handshake : Net → ℕ → Bytes → List Action × Bool
do_ws_handshake net fd req = elim (ws_key req) [
  | none ↦ ([], false)
  | some key ↦
      let answer = response net key in
      let all_sent : Bool = elim (net.write fd answer) [
        | none ↦ false
        | some sent ↦ sent == length answer
      ] in
      (wrote fd answer ∷ [], all_sent)
]

-- What follows on the bytes of one `::read`: the next one, the label `disconnect`, or an exception.
pub data Next : Type 0 where
  read_on drop_client terminated : Next

-- The bytes before the handshake, the request so far given.
unfoldable pub receive_request : Net → ℕ → WsConnection → Bytes → List Action × WsConnection × Next
receive_request net fd conn req = elim (find (crlf ++ crlf) req 0) [
  | none ↦ ([], record { handshake_done = false; recv_buf = req; ws_buf = conn.ws_buf }, read_on)
  | some end ↦
      let (acts, ok) = do_ws_handshake net fd req in
      if ok
      then (
        acts ++ (connected fd ∷ []),
        record { handshake_done = true; recv_buf = req; ws_buf = conn.ws_buf },
        read_on,
      )
      else (
        acts,
        record { handshake_done = false; recv_buf = req; ws_buf = conn.ws_buf },
        drop_client,
      )
]

-- An exception leaves the handler; after a close frame it reads on like after any other.
abbrev pub next_of : Ending → Next
next_of waits = read_on
next_of hung_up = read_on
next_of threw = terminated

-- The bytes behind it, the buffer so far given.
unfoldable pub receive_frames : ℕ → WsConnection → Bytes → List Action × WsConnection × Next
receive_frames fd conn buf =
    let r = parse_ws_frames fd buf in
    (
      r.actions,
      record { handshake_done = true; recv_buf = conn.recv_buf; ws_buf = r.ws_buf },
      next_of r.ending,
    )

unfoldable pub receive : Net → ℕ → WsConnection → Bytes → List Action × WsConnection × Next
receive net fd conn chunk =
    if conn.handshake_done
    then receive_frames fd conn (conn.ws_buf ++ chunk)
    else receive_request net fd conn (conn.recv_buf ++ chunk)

pub data ReadResult : Type 0 where
  bytes : Bytes → ReadResult
  end_of_file : ReadResult
  failed : ReadResult

pub record Handled : Type 0 where
  pub actions : List Action
  pub conns : Conns
  pub crashed : Bool

abbrev pub disconnect : ℕ → Conns → Handled
disconnect fd conns = record {
  actions = closed fd ∷ disconnected fd ∷ [];
  conns = erase fd conns;
  crashed = false;
}

abbrev pub behind : List Action → Handled → Handled
behind acts h = record { actions = acts ++ h.actions; conns = h.conns; crashed = h.crashed }

-- How a round goes on, the later rounds given.
unfoldable pub go_on : ℕ → List Action → Conns → Next → (Conns → Handled) → Handled
go_on fd acts conns read_on later = behind acts (later conns)
go_on fd acts conns drop_client later = behind acts (disconnect fd conns)
go_on fd acts conns terminated later = record { actions = acts; conns = conns; crashed = true }

-- What `find` gives for the connection.
unfoldable pub round : Net → ℕ → Bytes → Conns → (Conns → Handled) → Option WsConnection → Handled
round net fd chunk conns later none = record { actions = []; conns = conns; crashed = false }
round net fd chunk conns later (some conn) =
    let (acts, conn_after, next) = receive net fd conn chunk in
    go_on fd acts (insert fd conn_after conns) next later

unfoldable pub handle_client : Net → ℕ → List ReadResult → Conns → Handled
handle_client net fd [] conns = record { actions = []; conns = conns; crashed = false }
handle_client net fd (end_of_file ∷ reads) conns = disconnect fd conns
handle_client net fd (failed ∷ reads) conns = disconnect fd conns
handle_client net fd (bytes chunk ∷ reads) conns =
    round net fd chunk conns (handle_client net fd reads) (lookup fd conns)

-- The clients that `::accept` gives, until it gives none.
unfoldable pub accept_client : List ℕ → Conns → Conns
accept_client [] conns = conns
accept_client (fd ∷ fds) conns =
    accept_client fds
      (insert fd (record { handshake_done = false; recv_buf = []; ws_buf = [] }) conns)

unfoldable pub send : ℕ → Bytes → Conns → List Action
send fd msg conns = elim (lookup fd conns) [
  | none ↦ []
  | some conn ↦ wrote fd (build_ws_frame msg) ∷ []
]

unfoldable pub broadcast : Bytes → Conns → List Action
broadcast msg [] = []
broadcast msg ((fd, conn) ∷ conns) =
    let later = broadcast msg conns in
    if conn.handshake_done then wrote fd (build_ws_frame msg) ∷ later else later
