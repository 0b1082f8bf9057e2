-- ===== src/Tests.antt =====
-- Tests of the definitions, and the theorems at concrete inputs.
mod Protocol
mod Guest
mod Machine
mod Biscuit
mod BlobDoor
mod Gateway
mod Web
mod Tools
mod Certs
