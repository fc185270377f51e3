-- ===== src/WebSocket.antt =====
-- `WebSocketServer` of module05_signaling/src/websocket_server.cpp and include/sig/websocket_server.h:
-- the frames that a connection sends and receives, its handshake, and the handler of a readable socket.
-- What the server does to the outside (`::write`, `::close`, its callbacks) is a list of actions.
pub mod Frame
pub mod Loop
pub mod Parser
pub mod Lengths
pub mod Messages
pub mod Server
mod Examples
use Prim.Native.Char.{code}
use Prim.Native.String.{String}
use cpp_meet.Common.{
  ℕ, zero, suc, ◌+◌, ◌*◌, ◌/◌, ◌%◌, ◌^◌, Bool, true, false, List, [], ◌∷◌, ◌++◌, ◌==◌, ltb, leb,
  if◌then◌else◌, length, take, drop, bit_xor, Option, none, some,
}
use cpp_meet.Wire.{Bytes, byte_at, read_u16}

-- What the server does, on the connection of this file descriptor.
pub data Action : Type 0 where
  -- `on_message_`
  message : ℕ → Bytes → Action
  -- `::write`
  wrote : ℕ → Bytes → Action
  -- `::close`
  closed : ℕ → Action
  -- `on_connect_`
  connected : ℕ → Action
  -- `on_disconnect_`
  disconnected : ℕ → Action

-- `payload_len = (payload_len << 8) | buf[2 + i]`, over the bytes from `buf[2]` on.
unfoldable pub read_be : ℕ → Bytes → ℕ
read_be n [] = n
read_be n (b ∷ bs) = read_be ((n * 2 ^ 8 + b) % 2 ^ 64) bs

-- The length of the payload and the size of the header without the mask, if the header is there.
unfoldable pub frame_head : Bytes → Option (ℕ × ℕ)
frame_head buf =
    if byte_at buf 1 % 128 == 126
    then (if ltb (length buf) 4 then none else some (read_u16 buf 2, 4))
    else if byte_at buf 1 % 128 == 127
    then (if ltb (length buf) 10 then none else some (read_be 0 (take 8 (drop 2 buf)), 10))
    else some (byte_at buf 1 % 128, 2)

-- `payload[i] = ... ^ mask[i % 4]`, from index `i` on.
unfoldable pub unmask : Bytes → ℕ → Bytes → Bytes
unmask mask i [] = []
unmask mask i (b ∷ bs) = bit_xor b (byte_at mask (i % 4)) ∷ unmask mask (suc i) bs

-- What a round of the loop finds: no whole frame, a length that no `std::string` can have, or a frame
-- with its opcode and its payload, in front of what is left of the buffer.
pub data Round : Type 0 where
  incomplete : Round
  too_long : Round
  frame : ℕ → Bytes → Bytes → Round

abbrev pub mask_size : Bytes → ℕ
mask_size buf = if byte_at buf 1 / 128 % 2 == 1 then 4 else 0

unfoldable pub payload : Bytes → ℕ → ℕ → Bytes
payload buf len header_size =
    if byte_at buf 1 / 128 % 2 == 1
    then unmask (take 4 (drop header_size buf)) 0 (take len (drop (header_size + 4) buf))
    else take len (drop header_size buf)

-- `total` is a `size_t`, so it wraps; `std::string` throws for a length from 2 ^ 63 on.
unfoldable pub sized_frame : Bytes → Option (ℕ × ℕ) → Round
sized_frame buf none = incomplete
sized_frame buf (some (len, header_size)) =
    let total = (header_size + mask_size buf + len) % 2 ^ 64 in
    if ltb (length buf) total
    then incomplete
    else if leb (2 ^ 63) len
    then too_long
    else frame (byte_at buf 0 % 16) (payload buf len header_size) (drop total buf)

unfoldable pub next_frame : Bytes → Round
next_frame buf = if ltb (length buf) 2 then incomplete else sized_frame buf (frame_head buf)

-- Text, close and ping; `payload_len` is the length of the payload.
unfoldable pub respond : ℕ → ℕ → Bytes → List Action
respond fd opcode body =
    if opcode == 1
    then message fd body ∷ []
    else if opcode == 8
    then closed fd ∷ []
    else if opcode == 9
    then wrote fd (138 ∷ (length body % 128) ∷ [])
      ∷ (if ltb 0 (length body) then wrote fd body ∷ [] else [])
    else []

-- How a call of `parse_ws_frames` ends: for want of a whole frame, behind a close frame, or by an exception.
pub data Ending : Type 0 where
  waits : Ending
  hung_up : Ending
  threw : Ending

pub record Parsed : Type 0 where
  pub actions : List Action
  pub ws_buf : Bytes
  pub ending : Ending

abbrev pub prepend : List Action → Parsed → Parsed
prepend acts r = record { actions = acts ++ r.actions; ws_buf = r.ws_buf; ending = r.ending }

-- What follows in a round, the later rounds given.
unfoldable pub after_round : ℕ → Bytes → Round → (Bytes → Parsed) → Parsed
after_round fd buf incomplete later = record { actions = []; ws_buf = buf; ending = waits }
after_round fd buf too_long later = record { actions = []; ws_buf = buf; ending = threw }
after_round fd buf (frame opcode body rest) later =
    if opcode == 8
    then record { actions = respond fd opcode body; ws_buf = rest; ending = hung_up }
    else prepend (respond fd opcode body) (later rest)

-- The loop: a frame takes at least two bytes, so that the length of the buffer is fuel enough.
unfoldable pub frames_loop : ℕ → ℕ → Bytes → Parsed
frames_loop zero fd buf = record { actions = []; ws_buf = buf; ending = waits }
frames_loop (suc fuel) fd buf = after_round fd buf (next_frame buf) (frames_loop fuel fd)

unfoldable pub parse_ws_frames : ℕ → Bytes → Parsed
parse_ws_frames fd buf = frames_loop (length buf) fd buf

-- `(len >> (8 * i)) & 0xFF`, for `i` from seven to nought.
unfoldable pub be_bytes : ℕ → ℕ → Bytes
be_bytes zero len = []
be_bytes (suc i) len = (len / 2 ^ (8 * i) % 2 ^ 8) ∷ be_bytes i len

unfoldable pub len_bytes : ℕ → Bytes
len_bytes len =
    if ltb len 126
    then len ∷ []
    else if leb len 65535
    then 126 ∷ (len / 2 ^ 8 % 2 ^ 8) ∷ (len % 2 ^ 8) ∷ []
    else 127 ∷ be_bytes 8 len

unfoldable pub build_ws_frame : Bytes → Bytes
build_ws_frame msg = 129 ∷ (len_bytes (length msg) ++ msg)
