-- ===== src/Zone.antt =====
-- src/zone.rs
pub mod Access
pub mod Boot
pub mod Create
pub mod DeviceTree
pub mod MmioRegions
pub mod ZoneList
