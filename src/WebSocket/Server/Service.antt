-- ===== src/WebSocket/Server/Service.antt =====
-- The server's thread: `start`, `stop` and `run_loop` of module05_signaling/src/websocket_server.cpp. What the
-- system calls give is an argument, a descriptor where they succeed; descriptors that are closed are actions.
pub mod Shutdown
use cpp_meet.Common.{
  ℕ, Bool, true, false, List, [], ◌∷◌, ◌++◌, ◌==◌, if◌then◌else◌, Option, none, some,
}
use cpp_meet.WebSocket.{Action, closed}
use cpp_meet.WebSocket.Server.{
  Conns, Handled, Net, ReadResult, accept_client, behind, handle_client,
}

pub record WebSocketServer : Type 0 where
  pub port : ℕ
  pub server_fd : Option ℕ
  pub epoll_fd : Option ℕ
  pub running : Bool
  pub conns : Conns

abbrev pub new_server : ℕ → WebSocketServer
new_server port = record {
  port = port;
  server_fd = none;
  epoll_fd = none;
  running = false;
  conns = [];
}

-- What `socket`, `bind`, `listen` and `epoll_create1` give.
pub record Opening : Type 0 where
  pub socket : Option ℕ
  pub bound : Bool
  pub listening : Bool
  pub epoll : Option ℕ

-- A server that is not running behind `start`, and whether it returned; else it threw. The thread begins with
-- `run_loop`.
unfoldable pub start : Opening → WebSocketServer → WebSocketServer × Bool
start o s = elim o.socket [
  | none ↦ (record s { server_fd = none }, false)
  | some fd ↦
      let opened : WebSocketServer = record s { server_fd = some fd } in
      if o.bound
      then (if o.listening
          then elim o.epoll [
            | none ↦ (record opened { epoll_fd = none }, false)
            | some epoll ↦ (record opened { epoll_fd = some epoll; running = true }, true)
          ]
          else (opened, false))
      else (opened, false)
]

abbrev pub closing : Option ℕ → List Action
closing none = []
closing (some fd) = closed fd ∷ []

-- `stop` stores the flag, waits for the thread, and closes.
abbrev pub stop_flag : WebSocketServer → WebSocketServer
stop_flag s = record s { running = false }

unfoldable pub stop_joined : WebSocketServer → WebSocketServer × List Action
stop_joined s = (
  record s { running = false; server_fd = none; epoll_fd = none },
  closing s.server_fd ++ closing s.epoll_fd,
)

-- A descriptor that is ready, with what `accept` and `read` give then.
pub record Event : Type 0 where
  pub fd : ℕ
  pub accepted : List ℕ
  pub reads : List ReadResult

abbrev pub is_server : ℕ → Option ℕ → Bool
is_server fd none = false
is_server fd (some server_fd) = fd == server_fd

unfoldable pub handle_event : Net → Option ℕ → Event → Conns → Handled
handle_event net server_fd e conns =
    if is_server e.fd server_fd
    then record { actions = []; conns = accept_client e.accepted conns; crashed = false }
    else handle_client net e.fd e.reads conns

-- The inner loop; an exception ends the program.
unfoldable pub handle_events : Net → Option ℕ → List Event → Conns → Handled
handle_events net server_fd [] conns = record { actions = []; conns = conns; crashed = false }
handle_events net server_fd (e ∷ es) conns =
    let h = handle_event net server_fd e conns in
    let later = handle_events net server_fd es h.conns in
    if h.crashed then h else behind h.actions later

abbrev pub close_all : Conns → List Action
close_all [] = []
close_all ((fd, conn) ∷ conns) = closed fd ∷ close_all conns

-- What happens to the thread in `epoll_wait`: it returns, with no event where it fails or its time is over, or
-- another thread stores the flag.
pub data Happening : Type 0 where
  woken : List Event → Happening
  stopped : Happening

-- Where the thread is: in `epoll_wait`, behind its end, or stopped by an exception.
pub data Stage : Type 0 where
  serving finished terminated : Stage

pub record Served : Type 0 where
  pub stage : Stage
  pub actions : List Action
  pub server : WebSocketServer

abbrev pub after : List Action → Served → Served
after acts r = record r { actions = acts ++ r.actions }

-- The test of the flag, and behind the loop the closing of the connections.
abbrev pub check : WebSocketServer → Served → Served
check s later =
    if s.running
    then later
    else record { stage = finished; actions = close_all s.conns; server = record s { conns = [] } }

unfoldable pub serve : Net → List Happening → WebSocketServer → Served
serve net [] s = record { stage = serving; actions = []; server = s }
serve net (stopped ∷ hs) s = serve net hs (stop_flag s)
serve net (woken es ∷ hs) s =
    let h = handle_events net s.server_fd es s.conns in
    let t : WebSocketServer = record s { conns = h.conns } in
    let later = serve net hs t in
    if h.crashed
    then record { stage = terminated; actions = h.actions; server = t }
    else after h.actions (check t later)

unfoldable pub run_loop : Net → List Happening → WebSocketServer → Served
run_loop net hs s = let later = serve net hs s in check s later
