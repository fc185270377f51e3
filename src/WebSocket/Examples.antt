-- ===== src/WebSocket/Examples.antt =====
-- Two frames of a client in three chunks, a request, and a length that wraps.
use cpp_meet.Common.Text.{codes}
use cpp_meet.Common.{
  ◌-◌, ◌^◌, ◌≡◌, refl, true, false, List, [], ◌∷◌, ◌++◌, some, arith, length, replicate,
}
use cpp_meet.Common.Keys.{lookup, nat_eq}
use cpp_meet.Wire.{Bytes}
use cpp_meet.WebSocket.{
  after_round, be_bytes, build_ws_frame, closed, frame, frame_head, frames_loop, hung_up, len_bytes,
  message, next_frame, parse_ws_frames, payload, respond, sized_frame, unmask, waits, wrote,
}
use cpp_meet.WebSocket.Messages.{next_frame-build_ws_frame, stream}
use cpp_meet.WebSocket.Parser.{IsStopped, parse_ws_frames-IsStopped, parse_ws_frames-append, resume}
use cpp_meet.WebSocket.Server.Isolation.{KeepsTo, SameWork, handle_client-others}
use cpp_meet.WebSocket.Server.{Conns, Net, bytes, crlf, end_of_file, handle_client}
use cpp_meet.WebSocket.Server.Reading.{
  IsHandled, established, handle_client-stream, handle_client_overflow,
}

abbrev two_texts : List (Bytes × Bytes)
two_texts = (1 ∷ 2 ∷ 3 ∷ 4 ∷ [], codes "offer") ∷ (9 ∷ 8 ∷ 7 ∷ 6 ∷ [], codes "ok") ∷ []

-- "offer" and "ok" on the wire.
abbrev first_chunk : Bytes
first_chunk = 129 ∷ []

abbrev second_chunk : Bytes
second_chunk = 133 ∷ 1 ∷ 2 ∷ 3 ∷ 4 ∷ 110 ∷ 100 ∷ []

abbrev third_chunk : Bytes
third_chunk = 101 ∷ 97 ∷ 115 ∷ 129 ∷ 130 ∷ 9 ∷ 8 ∷ 7 ∷ 6 ∷ 102 ∷ 99 ∷ []

-- OpenSSL and the kernel: a digest that gives a part of the text, and a write that takes everything.
abbrev toy_net : Net
toy_net = record { sha1_base64 = λ text. text; write = λ fd text. some (length text) }

abbrev one_client : Conns
one_client = (7, established [] []) ∷ []

two_texts-stream : stream two_texts ≡ first_chunk ++ second_chunk ++ third_chunk
unfolding len_bytes unmask
two_texts-stream = refl

handle_client-stream_example :
    IsHandled toy_net 7 []
      (record {
        actions = message 7 (codes "offer") ∷ message 7 (codes "ok") ∷ [];
        ws_buf = [];
        ending = waits;
      })
      (handle_client toy_net 7
        (bytes first_chunk ∷ bytes second_chunk ∷ bytes third_chunk ∷ [])
        one_client)
unfolding len_bytes unmask lookup
handle_client-stream_example =
    handle_client-stream toy_net 7 [] first_chunk (second_chunk ∷ third_chunk ∷ []) two_texts
      one_client ((refl, omega arith), ((refl, omega arith), tt)) refl refl

parse_ws_frames-append_example :
    parse_ws_frames 7 ((first_chunk ++ second_chunk) ++ third_chunk)
    ≡ resume 7 (parse_ws_frames 7 (first_chunk ++ second_chunk)) third_chunk
parse_ws_frames-append_example = parse_ws_frames-append 7 (first_chunk ++ second_chunk) third_chunk

parse_ws_frames-IsStopped_example :
    IsStopped 7 (parse_ws_frames 7 (first_chunk ++ second_chunk ++ third_chunk))
parse_ws_frames-IsStopped_example =
    parse_ws_frames-IsStopped 7 (first_chunk ++ second_chunk ++ third_chunk)

next_frame-build_ws_frame_example :
    next_frame (build_ws_frame (replicate 300 65) ++ third_chunk)
    ≡ frame 1 (replicate 300 65) third_chunk
next_frame-build_ws_frame_example =
    next_frame-build_ws_frame (replicate 300 65) third_chunk (omega arith)

handle_client_overflow_example :
    (handle_client toy_net 7
      (bytes (129 ∷ 127 ∷ (be_bytes 8 (2 ^ 64 - 1) ++ [])) ∷ [])
      one_client).crashed
    ≡ true
unfolding lookup
handle_client_overflow_example =
    handle_client_overflow toy_net 7 [] [] 129 (2 ^ 64 - 1) [] one_client (omega arith)
      (omega arith) refl

-- A request in two reads, cut in the name of the header.
abbrev early : Bytes
early = codes "GET / HTTP/1.1" ++ crlf ++ codes "Sec-Web"

abbrev late : Bytes
late = codes "Socket-Key: x3JJ==" ++ crlf ++ crlf

abbrev new_client : Conns
new_client = (7, record { handshake_done = false; recv_buf = early; ws_buf = [] }) ∷ []

-- A ping is answered, and behind a close frame nothing is taken.
ping_and_close : parse_ws_frames 7 (137 ∷ 1 ∷ 5 ∷ 136 ∷ 0 ∷ 129 ∷ 0 ∷ []) ≡ record {
  actions = wrote 7 (138 ∷ 1 ∷ []) ∷ wrote 7 (5 ∷ []) ∷ closed 7 ∷ [];
  ws_buf = 129 ∷ 0 ∷ [];
  ending = hung_up;
}
unfolding parse_ws_frames frames_loop after_round next_frame sized_frame frame_head payload respond
ping_and_close = refl

abbrev two_clients : Conns
two_clients = (8, established [] []) ∷ one_client

-- The connection 7 hangs up, and 8 is still there.
handle_client-others_example :
    KeepsTo 7 8 two_clients
      (handle_client toy_net 7 (bytes first_chunk ∷ end_of_file ∷ []) two_clients)
    × SameWork 7
        (handle_client toy_net 7 (bytes first_chunk ∷ end_of_file ∷ []) two_clients)
        (handle_client toy_net 7 (bytes first_chunk ∷ end_of_file ∷ []) one_client)
unfolding lookup
handle_client-others_example =
    handle_client-others toy_net 8 7 (bytes first_chunk ∷ end_of_file ∷ []) two_clients one_client
      (λ e. omega arith) refl
