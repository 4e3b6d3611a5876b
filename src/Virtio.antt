-- ===== src/Virtio.antt =====
-- src/device/virtio_trampoline.rs, and `hv_virtio_init` and `hv_virtio_inject_irq` of
-- src/hypercall/mod.rs.
pub mod Bridge
pub mod Irqs
