-- ===== src/Percpu.antt =====
-- src/percpu.rs
pub mod CpuSet
pub mod PerCpu
