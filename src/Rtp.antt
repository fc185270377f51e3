-- ===== src/Rtp.antt =====
-- RTP and RTCP: module02_rtp_rtcp.
pub mod Packet
pub mod JitterBuffer
