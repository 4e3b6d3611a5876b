-- ===== src/Trap.antt =====
-- src/arch/aarch64/trap.rs: the traps of a guest on the CPU `me`.
pub mod Syndrome
pub mod Psci
pub mod DataAbort
pub mod Completion
pub mod Emulation
pub mod Exit
pub mod Wakeup
