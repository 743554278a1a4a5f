-- ===== src/Vault/RoundTrip.antt =====
-- writer.go with reader.go and internal/engine/container.go: what a writer closed, opened again.
pub mod Trailer
pub mod Small
pub mod GcmOnly
pub mod Whole
pub mod Strong
pub mod Damage
