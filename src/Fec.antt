-- ===== src/Fec.antt =====
-- XOR forward error correction of module08_weak_network/src/fec.cpp.
pub mod Xor
pub mod Encoder
pub mod Decoder
mod Examples
