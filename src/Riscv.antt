-- ===== src/Riscv.antt =====
-- The entries of the page tables for riscv64: src/arch/riscv64/s1pt.rs and s2pt.rs.
pub mod Entry
pub mod Stage1
pub mod Stage2
pub mod RoundTrip
