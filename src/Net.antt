-- ===== src/Net.antt =====
-- The classes of module01_network_core around sockets and epoll.
pub mod IoContext
pub mod UdpSocket
