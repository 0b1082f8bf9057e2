-- ===== src/BlobDoor.antt =====
-- The blob door, native/mjolnir_blob_door/src: content-addressed objects over a canonical store,
-- with a write-through cache on disk. The contents of a file or of an object are its bytes.
pub mod Store
pub mod Put
pub mod Cache
pub mod Http
pub mod Router
