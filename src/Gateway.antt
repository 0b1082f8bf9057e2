-- ===== src/Gateway.antt =====
-- The HTTP gateway, native/mjolnir_gateway/src.
pub mod Config
pub mod Pool
pub mod Route
pub mod Classify
pub mod Subdomain
pub mod San
pub mod Headers
pub mod Tunnel
pub mod Parked
pub mod Sites
pub mod Handler
pub mod Certs
