-- ===== src/Lib.antt =====
-- cpp_meet: the protocol core of a video meeting system.
--
-- The program is a set of modules around UDP: an event loop and sockets, RTP and RTCP packets, STUN
-- and ICE, H.264 encoding and packetizing, DTLS and SRTP, an SFU that passes packets on in a room, a
-- WebSocket server with rooms and session descriptions for the signalling, and a shared whiteboard.
-- The encoder's NAL units go through the packetizer into RTP packets; a peer's agent finds a path
-- with STUN; the room rewrites and distributes what arrives; the receiver recovers a lost packet
-- with XOR FEC, puts packets in order in the jitter buffer and asks again with NACK.
--
-- Files, and the code each one is about:
--   Common, Common/*: tests, lists, bitwise exclusive or, texts and decimal numbers, and association
--     lists for the standard maps.
--   Wire: big-endian integers, which module02_rtp_rtcp/src/rtcp_packet.cpp and
--     module03_stun_ice/src/stun_message.cpp write and read alike.
--   Rtp/Packet: `RtpPacket` of module02_rtp_rtcp/src/rtp_packet.cpp. Parse is about `parse`, Build about
--     `build` and the getters, Seq about `seq_gt`.
--   Rtp/JitterBuffer: `RtpJitterBuffer` of module02_rtp_rtcp/src/rtp_jitter_buffer.cpp. Order and Drain
--     are about sequences of `push` and `pop_next`.
--   Rtcp/Sr, Rtcp/Nack: `RtcpSR` and `RtcpNack` of module02_rtp_rtcp/src/rtcp_packet.cpp. Nack/Packet
--     has the definitions; Sorting, Masks and Covering have the lemmas of the round trip.
--   Video/Packetizer: `RtpVideoPacketizer` of module07_video/src/rtp_video_packetizer.cpp. Fragments is
--     about one FU-A packet, Reassembly about all of them.
--   Video/Encoder: `H264Encoder` of module07_video/src/h264_encoder.cpp. Planes is about what of a frame
--     goes to x264.
--   Stun/Message, Stun/StunType, Stun/StunAttr: `StunMessage` of module03_stun_ice/src/stun_message.cpp.
--   Stun/Agent: `IceAgent` of module03_stun_ice/src/ice_agent.cpp. Reply is about one packet, Handshake
--     about two agents.
--   Fec: `XorFecEncoder` and `XorFecDecoder` of module08_weak_network/src/fec.cpp. Xor is about payloads,
--     Encoder and Decoder have the two `feed` methods, Decoder/Recovery is about one group, and
--     Decoder/Filling and Decoder/Session about sequences of packets.
--   Nack: `NackManager` of module08_weak_network/src/nack_manager.cpp. Missing is about the numbers it
--     holds to be missing.
--   Sfu/Room: `SfuRoom` of module09_sfu/src/sfu_room.cpp. Peers is about its containers, Routing about
--     what it sends.
--   Whiteboard: `CrdtWhiteboard` of module11_whiteboard/src/crdt_whiteboard.cpp. Order is about
--     `lww_wins`, Merge and Convergence about `merge`, Boards about all the operations, Clock about
--     local edits. Json has the text of a board: Entries is about one entry, RoundTrip about all of
--     it, Failure about parses that fail.
--   Srtp: `SrtpSession` of module04_dtls_srtp/src/srtp_session.cpp. KeyStream is about the counter mode,
--     Crypt about the payload, Protection about `protect` and `unprotect`, Reuse about sequences of
--     packets.
--   WebSocket: the frames of `WebSocketServer` of module05_signaling/src/websocket_server.cpp. Frame is
--     about one round of `parse_ws_frames`, Loop and Parser about all of them, Lengths and Messages about
--     what is written and read back. WebSocket/Server has the connections: Reading is about
--     `handle_client` behind the handshake, Handshake about the handshake, Targets about
--     the descriptors written to, Isolation about other connections, and Service has the server's
--     thread, whose end Shutdown is about.
--   RingBuffer: `RingBuffer` of module01_network_core/include/net/ring_buffer.h. Queue is the bounded
--     queue, Wrap and Content are about the slots, Simulation about one step, Refinement about runs,
--     Progress about a single call of `pop`.
--   Rooms: `RoomManager` of module05_signaling/src/room_manager.cpp. Members and Membership are about its
--     containers, Notices about whom it tells of a change, Relay about what it passes on.
--   Sdp: `Sdp` of module05_signaling/src/sdp.cpp. Lines is about lines, Digits and Numbers about numbers,
--     Media and Attributes about the lines of a medium, RoundTrip about whole descriptions.
--   Net/IoContext, Net/UdpSocket: `IoContext` and `UdpSocket` of module01_network_core/src/io_context.cpp
--     and udp_socket.cpp. Dispatch is about `run`, Counting and Ownership about descriptors.
--   Sfu/Server: `SfuServer` of module09_sfu/src/sfu_server.cpp. Rooms is about its table of rooms.
--   Dtls: `DtlsTransport` of module04_dtls_srtp/src/dtls_transport.cpp. Setup is about `init` and what it
--     makes, Sending about the memory BIO, Fingerprint about the digest's text, Demux about `is_dtls`.
--   Gcc: `GccEstimator` of module08_weak_network/src/gcc_estimator.cpp. Bitrate is about its window and its
--     estimate.
--   AdaptiveBuffer: `JitterBuffer` of module08_weak_network/src/jitter_buffer.cpp. Order is about the order
--     of what it gives out.
--   The modules named Examples hold runs of the code and the theorems at concrete inputs.
--
-- How the code is read. A method takes the object's state and returns the new one beside its result;
-- a callback that sends is the list of what is sent, in order. A buffer is a list of numbers, each a
-- byte where a theorem says so. Shifts and masks are products, quotients and remainders, and what
-- wraps in the code is taken modulo 2 ^ 16, 2 ^ 32 or 2 ^ 64. A `std::map` or `std::unordered_map`
-- is an association list that is used by key; in AdaptiveBuffer it is in the order of its keys.
--
-- Loops and fuel. A loop over a sequence is a recursion on the list. The loops that step by another
-- amount run on fuel: `fua_loop` and `pack_pairs` get the length of their input and take at least
-- one element a round; `parse_attrs` gives `none` without fuel, and `parse` gives it as much as the
-- buffer has bytes, of which a round takes four; `counter_loop` gets the length of the payload and
-- takes sixteen bytes a round, and `frames_loop` the length of the buffer, of which a frame has two
-- bytes; `mark_gap` gets 2 ^ 16, more than any gap has numbers; `read_fmts` gets the length of the
-- text, of which a number takes a byte, and `digits` twenty digits, which every number below 10 ^ 20
-- has at most. `read_all` is given fuel by its caller, since the content of the BIO is OpenSSL's.
--
-- Threads. The steps of the ring buffer's two threads interleave in every order, and a load sees the
-- last store. The other classes with a mutex run one method at a time. For a thread in `epoll_wait`,
-- the calls of `stop` by other threads stand between its returns.
--
-- Parameters. HMAC-SHA1, SHA-1 with Base64 and AES of OpenSSL, `rand`, `htonl`, `ntohl` and `ntohs`,
-- the results of system calls, the arithmetic of `double`, nlohmann/json, x264, and the DTLS of
-- OpenSSL are not in the repository: they are arguments of the definitions that use them. The
-- hypotheses on them are that a digest has twenty bytes and a block of AES sixteen, that the byte
-- orders undo one another, and, where a theorem says so, that a write takes everything or a message
-- parses, and that 0.85 of a number that is not negative is at most the number; of the JSON library,
-- that a value is found again under its key and with its type, and that it reads the text that it
-- wrote; that `socket` gives no descriptor that is open, and that a memory BIO gives what waits in
-- it from the front.
--
-- Not modelled: the start of threads, the audio device and codec, and the Qt client, which are calls
-- of other libraries.
pub mod Common
pub mod Wire
pub mod Rtp
pub mod Rtcp
pub mod Video
pub mod Stun
pub mod Sfu
pub mod Whiteboard
pub mod Fec
pub mod Nack
pub mod Net
pub mod Srtp
pub mod Dtls
pub mod WebSocket
pub mod Rooms
pub mod Sdp
pub mod Gcc
pub mod AdaptiveBuffer
pub mod RingBuffer
