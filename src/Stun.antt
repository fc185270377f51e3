-- ===== src/Stun.antt =====
-- STUN messages and the ICE agent: module03_stun_ice.
pub mod StunType
pub mod StunAttr
pub mod Message
pub mod Agent
