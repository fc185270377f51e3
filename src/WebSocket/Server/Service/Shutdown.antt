-- ===== src/WebSocket/Server/Service/Shutdown.antt =====
-- How the server's thread ends.
use cpp_meet.Common.{◌≡◌, refl, true, List, [], ◌∷◌, ◌++◌, if_elim}
use cpp_meet.WebSocket.Server.{Net}
use cpp_meet.WebSocket.Server.Service.{
  WebSocketServer, Event, Happening, woken, stopped, Stage, serving, finished, terminated, Served,
  after, check, handle_events, run_loop, serve, stop_flag,
}

-- The thread is not in `epoll_wait` any more; if no exception ended it, no connection is left.
abbrev pub IsOverAt : Stage → WebSocketServer → Type 0
IsOverAt serving s = ⊥
IsOverAt finished s = s.conns ≡ []
IsOverAt terminated s = Unit

abbrev pub IsOver : Served → Type 0
IsOver r = IsOverAt r.stage r.server

check-IsOver :
    (s : WebSocketServer) (later : Served)
    → (s.running ≡ true → IsOver later)
    → IsOver (check s later)
check-IsOver s later h = if_elim IsOver s.running later _ h (λ e. refl)

serve_ends :
    (net : Net) (before later : List Happening) (es : List Event) (s : WebSocketServer)
    → IsOver (serve net (before ++ (stopped ∷ woken es ∷ later)) s)
unfolding serve
serve_ends net [] later es s =
    if_elim IsOver (handle_events net s.server_fd es s.conns).crashed _ _ (λ e. tt) (λ e. refl)
serve_ends net (stopped ∷ before) later es s = serve_ends net before later es (stop_flag s)
serve_ends net (woken batch ∷ before) later es s =
    let h = handle_events net s.server_fd batch s.conns in
    let t : WebSocketServer = record s { conns = h.conns } in
    let rest = serve net (before ++ (stopped ∷ woken es ∷ later)) t in
    if_elim IsOver h.crashed _ (after h.actions (check t rest)) (λ e. tt)
      (λ e. check-IsOver t rest (λ r. serve_ends net before later es t))

-- Behind a `stop`, the next return of `epoll_wait` is the last one, whatever came before and whatever it returns:
-- the thread is over, and unless an exception ended the program no connection is left.
pub run_loop-stop :
    (net : Net) (before later : List Happening) (es : List Event) (s : WebSocketServer)
    → IsOver (run_loop net (before ++ (stopped ∷ woken es ∷ later)) s)
unfolding run_loop
run_loop-stop net before later es s =
    check-IsOver s (serve net (before ++ (stopped ∷ woken es ∷ later)) s)
      (λ e. serve_ends net before later es s)
