-- ===== src/Engine.antt =====
-- internal/engine: the read side of an open container, the write back ends and the scrub. The
-- primitives, the coding and the device are parameters of every operation.
pub mod Stats
pub mod Window
pub mod GcmOnly
pub mod Strong
pub mod Rebuild
pub mod Container
pub mod Chunk
pub mod Sweep
pub mod Regroup
pub mod FileParity
pub mod Scrub
pub mod Pipeline
