-- ===== src/Examples.antt =====
-- Concrete primitives, a concrete code and the file in memory, and the theorems at them.
mod Numbers
mod Parameters
mod Theorems
mod Damage
mod Chunks
mod Writers
mod Wrap
mod Scrubs
mod Pipelines
mod Sessions
mod Survival
mod Faults
