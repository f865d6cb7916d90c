-- ===== src/Object.antt =====
-- internal/object/object.go: manifests, and the cutting of a stream into chunks and back.
pub mod Crc
pub mod Manifest
pub mod Write
pub mod Read
pub mod Tests
