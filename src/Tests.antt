-- ===== src/Tests.antt =====
-- Concrete states, and each property at one of them.
pub mod BitSet
pub mod Paging
pub mod Regions
pub mod Zones
pub mod Machine
pub mod Boot
pub mod Devices
