-- ===== src/Sigv4.antt =====
-- internal/sigv4: the verification of a request's signature (sigv4.go).
pub mod Request
pub mod Authorization
pub mod Canonical
pub mod Verify
pub mod Signed
pub mod Tests
