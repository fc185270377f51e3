-- ===== src/Rtcp.antt =====
-- RTCP: module02_rtp_rtcp/src/rtcp_packet.cpp and include/rtp/rtcp_packet.h.
pub mod Sr
pub mod Nack
mod Examples
