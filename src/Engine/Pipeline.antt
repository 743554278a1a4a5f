-- ===== src/Engine/Pipeline.antt =====
-- internal/engine/pipeline.go, the write side of rs-dual. The producer cuts the plaintext into chunks
-- (Split), workers encode them (Chunk) in any order, the write loop puts them in order (Order), and
-- the parity loop writes the parity of each full group (Groups).
pub mod Split
pub mod Order
pub mod Groups
