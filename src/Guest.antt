-- ===== src/Guest.antt =====
-- The agent in the guest, native/mjolnir_guest_agent/src.
pub mod Channels
pub mod Hex
pub mod Mail
pub mod Names
pub mod Secrets
pub mod Env
