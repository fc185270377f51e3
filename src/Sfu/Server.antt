-- ===== src/Sfu/Server.antt =====
-- `SfuServer` of module09_sfu/src/sfu_server.cpp and include/sfu/sfu_server.h, over `IoContext` and `UdpSocket`.
-- What the system calls give is an argument. A room is found by its id, which stands for the pointer to it.
pub mod Rooms
use cpp_meet.Common.{
  ℕ, Bool, true, false, Option, none, some, List, [], ◌∷◌, ◌+◌, ltb, if◌then◌else◌, length,
}
use cpp_meet.Common.Keys.{bytes_eq, insert, lookup}
use cpp_meet.Net.IoContext.{IoContext, register_fd, stop}
use cpp_meet.Net.UdpSocket.{SockAddr, UdpSocket, bind}
use cpp_meet.Sfu.Room.{SfuRoom, new_room}
use cpp_meet.Wire.{Bytes}

-- The callbacks in the server's context.
pub data Callback : Type 0 where
  no_op : Callback
  receive : Callback

-- `io_thread` says whether the thread can be joined.
pub record SfuServer : Type 0 where
  pub udp_port : ℕ
  pub udp : UdpSocket
  pub io : IoContext Callback
  pub io_thread : Bool
  pub rooms : List (Bytes × SfuRoom)

abbrev pub new_server : ℕ → UdpSocket → IoContext Callback → SfuServer
new_server udp_port udp io = record {
  udp_port = udp_port;
  udp = udp;
  io = io;
  io_thread = false;
  rooms = [];
}

-- Behind `bind`. A second thread for the same object would end the program.
abbrev with_thread : SfuServer → Option (IoContext Callback) → Option SfuServer
with_thread s none = none
with_thread s (some io) =
    if s.io_thread then none else some (record s { io = io; io_thread = true })

-- `none` is an exception; `added` says whether `epoll_ctl` succeeds.
unfoldable pub start :
    (ℕ → ℕ) → (ℕ → ℕ) → Bool → (SockAddr → Bool) → Bool → ℕ → SfuServer → Option SfuServer
start htonl htons reused sys_bind added fd s =
    if bind htonl htons reused sys_bind s.udp_port
    then with_thread s (register_fd added fd receive s.io)
    else some s

-- The call of `stop`, behind which the thread has returned from `run`.
unfoldable pub stop_server : SfuServer → SfuServer
stop_server s = record s { io = stop s.io; io_thread = false }

unfoldable pub create_room : Bytes → SfuServer → Option SfuRoom → SfuServer × SfuRoom
create_room room_id s (some room) = (s, room)
create_room room_id s none =
    (record s { rooms = insert room_id (new_room room_id) s.rooms }, new_room room_id)

unfoldable pub get_or_create_room : Bytes → SfuServer → SfuServer × SfuRoom
get_or_create_room room_id s = create_room room_id s (lookup room_id s.rooms)

-- Nothing is done yet with a packet, whether it is too short or not.
unfoldable pub on_udp_packet : Bytes → SfuServer → SfuServer
on_udp_packet d s = if ltb (length d) 4 then s else s

-- What `recvfrom` gave, if it gave something.
unfoldable pub on_readable : Option Bytes → SfuServer → SfuServer
on_readable none s = s
on_readable (some d) s = if ltb 0 (length d) then on_udp_packet d s else s
