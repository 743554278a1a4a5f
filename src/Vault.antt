-- ===== src/Vault.antt =====
-- The package secvault itself: the reader and the writer of a container.
pub mod Reader
pub mod Writer
pub mod Scrub
pub mod RoundTrip
