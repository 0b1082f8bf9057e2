-- ===== src/Biscuit.antt =====
-- Sessions issued to the holder of an identity, native/mjolnir_biscuit/src/direct_challenge.rs.
pub mod Bind
pub mod Issue
