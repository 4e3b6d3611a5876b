-- ===== src/Memory.antt =====
-- src/memory: addresses, flags and mappers of regions, frames.
pub mod Addr
pub mod Flags
pub mod Region
pub mod Frame
pub mod Mmio
pub mod MemorySet
