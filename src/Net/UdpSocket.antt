-- ===== src/Net/UdpSocket.antt =====
-- `UdpSocket` of module01_network_core/src/udp_socket.cpp and include/net/udp_socket.h. What the system
-- calls give is an argument; the calls that open and close a descriptor are logged, the newest first.
-- `Sockets` is any number of objects, which are constructed, moved and destroyed in any order.
pub mod Counting
pub mod Ownership
mod Examples
use cpp_meet.Common.{
  ℕ, ◌+◌, Bool, true, false, Option, none, some, List, [], ◌∷◌, ◌++◌, ◌==◌, ltb, if◌then◌else◌,
  get_or, length, set, ◌&&◌,
}

-- `fd_`, absent where it is -1.
pub record UdpSocket : Type 0 where
  pub fd : Option ℕ

pub data Call : Type 0 where
  opened : ℕ → Call
  closed : ℕ → Call

abbrev pub closing : Option ℕ → List Call
closing none = []
closing (some fd) = closed fd ∷ []

-- The constructor, by what `socket` gives and whether both calls of `fcntl` succeed; it throws without an object.
unfoldable pub new_socket : Option ℕ → Bool → Bool → Option UdpSocket × List Call
new_socket none got_flags set_flags = (none, [])
new_socket (some fd) got_flags set_flags =
    if got_flags && set_flags
    then (some (record { fd = some fd }), opened fd ∷ [])
    else (none, closed fd ∷ opened fd ∷ [])

unfoldable pub destroy : UdpSocket → UdpSocket × List Call
destroy s = (record { fd = none }, closing s.fd)

-- The new object and the other one.
unfoldable pub move_construct : UdpSocket → UdpSocket × UdpSocket
move_construct other = (record { fd = other.fd }, record { fd = none })

-- The assignment from another object: this one, the other one, and the calls.
unfoldable pub move_assign : UdpSocket → UdpSocket → UdpSocket × (UdpSocket × List Call)
move_assign s other = (record { fd = other.fd }, (record { fd = none }, closing s.fd))

-- `sockaddr_in`
pub record SockAddr : Type 0 where
  pub sin_family : ℕ
  pub s_addr : ℕ
  pub sin_port : ℕ

-- By whether `setsockopt` succeeds, and what `::bind` gives for an address.
unfoldable pub bind : (ℕ → ℕ) → (ℕ → ℕ) → Bool → (SockAddr → Bool) → ℕ → Bool
bind htonl htons false sys_bind port = false
bind htonl htons true sys_bind port =
    sys_bind (record { sin_family = 2; s_addr = htonl 0; sin_port = htons port })

pub record Sockets : Type 0 where
  pub objects : List UdpSocket
  pub log : List Call

-- What a program does with objects, which are named by their places; a destroyed one stays in its place.
pub data Operation : Type 0 where
  construct : Bool → Bool → Operation
  construct_from : ℕ → Operation
  assign_from : ℕ → ℕ → Operation
  destruct : ℕ → Operation

abbrev pub no_socket : UdpSocket
no_socket = record { fd = none }

-- An object in front of which nothing has been said.
abbrev pub put_new : Option UdpSocket × List Call → Sockets → Sockets
put_new (none, calls) w = record w { log = calls ++ w.log }
put_new (some s, calls) w = record { objects = w.objects ++ (s ∷ []); log = calls ++ w.log }

-- `socket` gives a descriptor by the calls so far. An object that is not there is not used.
unfoldable pub perform : (List Call → Option ℕ) → Operation → Sockets → Sockets
perform socket (construct got_flags set_flags) w =
    put_new (new_socket (socket w.log) got_flags set_flags) w
perform socket (construct_from j) w =
    let (s, other) = move_construct (get_or w.objects j no_socket) in
    record w { objects = set w.objects j other ++ (s ∷ []) }
perform socket (assign_from i j) w =
    let (s, (other, calls)) =
      move_assign (get_or w.objects i no_socket) (get_or w.objects j no_socket) in
    if i == j
    then w
    else if ltb i (length w.objects)
    then record { objects = set (set w.objects i s) j other; log = calls ++ w.log }
    else w
perform socket (destruct i) w =
    let (s, calls) = destroy (get_or w.objects i no_socket) in
    record { objects = set w.objects i s; log = calls ++ w.log }

unfoldable pub perform_all : (List Call → Option ℕ) → List Operation → Sockets → Sockets
perform_all socket [] w = w
perform_all socket (op ∷ ops) w = perform_all socket ops (perform socket op w)
