-- ===== src/Client.antt =====
-- The command line, native/mjolnir_client/src: what it does to keys, its encodings and its texts.
pub mod Keys
pub mod Encode
pub mod Cipher
