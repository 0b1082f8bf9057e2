-- ===== src/Login.antt =====
-- The login of the command line, native/mjolnir_api/src/auth.rs.
pub mod Token
pub mod Device
pub mod Loopback
pub mod Base64
