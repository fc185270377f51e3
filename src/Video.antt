-- ===== src/Video.antt =====
-- Video: module07_video.
pub mod Packetizer
pub mod Encoder
