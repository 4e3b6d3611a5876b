-- ===== src/Irqchip.antt =====
-- src/device/irqchip/gicv3
pub mod ListRegisters
pub mod Gicd
pub mod Reset
pub mod Vgic
