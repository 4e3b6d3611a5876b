-- ===== src/Paging.antt =====
-- src/arch/aarch64/paging.rs
pub mod PageSize
pub mod Pte
pub mod Entry
pub mod Stage1
pub mod Stage2
pub mod Table
pub mod Map
pub mod Tree
