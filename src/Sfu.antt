-- ===== src/Sfu.antt =====
-- The selective forwarding unit: module09_sfu.
pub mod Room
pub mod Server
