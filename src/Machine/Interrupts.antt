-- ===== src/Machine/Interrupts.antt =====
-- `check_events` of src/event.rs, `handle_virtio_irq` of src/device/virtio_trampoline.rs and
-- `gicv3_handle_irq_el1` of src/device/irqchip/gicv3/mod.rs, on the CPU `me`. What the hardware
-- answers is an argument: the value `iar` of `icc_iar1_el1`, by which an interrupt is acknowledged,
-- and the register `ich_elrsr_el2`.
pub mod Waiting
use sys_hyper.Base.{
  ℕ, ◌+◌, ◌%◌, ◌^◌, Bool, true, false, ◌==◌, leb, ltb, if◌then◌else◌, Option, none, some, List, [],
  ◌∷◌,
}
use sys_hyper.Base.Run.{◌>>=◌, ◌>>◌, pure, get, put, unwrap}
use sys_hyper.Event.{
  fetch, ipi_event_wakeup, ipi_event_shutdown, ipi_event_virtio_inject_irq,
  ipi_event_wakeup_virtio_device,
}
use sys_hyper.Irqchip.ListRegisters.{inject_irq}
use sys_hyper.Machine.{MachineM, Core, update, set_core, on_events, on_interface}
use sys_hyper.Machine.Guest.{run, idle}
use sys_hyper.Virtio.Irqs.{take_waiting}

abbrev pub irq_wakeup_virtio_device : ℕ
irq_wakeup_virtio_device = 32 + 0x20

abbrev pub sgi_ipi_id : ℕ
sgi_ipi_id = 7

unfoldable pub pending_irq : ℕ → Option ℕ
pending_irq iar = if leb 0x3fe iar then none else some iar

abbrev pub acknowledged : ℕ → Core → Core
acknowledged irq_id c = record c {
  eoir = irq_id ∷ c.eoir;
  dir = if ltb irq_id 16 then irq_id ∷ c.dir else c.dir;
}

module _ {Handler Gpm Device : Type 0} (elrsr : (ℕ → ℕ) → ℕ) (me : ℕ) where
  unfoldable pub inject : ℕ → Bool → MachineM Handler Gpm Device (Unit {0})
  unfolding inject_irq
  inject irq_id is_hardware = on_interface me (inject_irq elrsr irq_id is_hardware)

  unfoldable pub inject_all : List ℕ → MachineM Handler Gpm Device (Unit {0})
  unfolding inject
  inject_all [] = pure tt
  inject_all (x ∷ xs) = do inject x false; inject_all xs

  -- The interrupts that wait are injected, and the array that is left is stored.
  abbrev deliver : List ℕ × List ℕ → MachineM Handler Gpm Device (Unit {0})
  deliver (irqs, irq_list) = do
    inject_all irqs
    s ← get
    put (record s { virtio_irqs = update me (some irq_list) s.virtio_irqs })

  -- An injection that finds no list register free is a panic.
  unfoldable pub handle_virtio_irq : MachineM Handler Gpm Device (Unit {0})
  unfolding inject_all take_waiting
  handle_virtio_irq = do
    s ← get
    irq_list ← unwrap (s.virtio_irqs me)
    delivered ← unwrap (take_waiting irq_list)
    deliver delivered

  abbrev react : Option ℕ → MachineM Handler Gpm Device Bool
  react none = pure false
  react (some event) =
      if event == ipi_event_wakeup
      then run me
      else if event == ipi_event_shutdown
      then idle me
      else if event == ipi_event_virtio_inject_irq
      then handle_virtio_irq >> pure true
      else if event == ipi_event_wakeup_virtio_device
      then inject irq_wakeup_virtio_device false >> pure true
      else pure false

  unfoldable pub check_events : MachineM Handler Gpm Device Bool
  unfolding inject handle_virtio_irq run idle
  check_events = do s ← get; event ← on_events (fetch (s.cpus me).id); react event

  unfoldable pub deactivate_irq : ℕ → MachineM Handler Gpm Device (Unit {0})
  deactivate_irq irq_id = do s ← get; set_core me (acknowledged irq_id (s.core me))

  unfoldable pub handle_sgi : ℕ → MachineM Handler Gpm Device (Unit {0})
  unfolding deactivate_irq check_events inject
  handle_sgi irq_id = do
    deactivate_irq irq_id
    ipi_handled ← if irq_id == sgi_ipi_id then check_events else pure false
    if ipi_handled then pure tt else inject irq_id false

  abbrev count_timer : ℕ → MachineM Handler Gpm Device (Unit {0})
  count_timer irq_id s =
      if irq_id == 27
      then put (record s { timer_interrupt_counter = (s.timer_interrupt_counter + 1) % 2 ^ 64 }) s
      else pure tt s

  unfoldable pub handle_device_irq : ℕ → MachineM Handler Gpm Device (Unit {0})
  unfolding deactivate_irq inject
  handle_device_irq irq_id = do count_timer irq_id; deactivate_irq irq_id; inject irq_id true

  abbrev handle_pending : Option ℕ → MachineM Handler Gpm Device (Unit {0})
  handle_pending none = pure tt
  handle_pending (some irq_id) =
      if ltb irq_id 8
      then handle_sgi irq_id
      else if ltb irq_id 16
      then deactivate_irq irq_id
      else handle_device_irq irq_id

  unfoldable pub gicv3_handle_irq_el1 : ℕ → MachineM Handler Gpm Device (Unit {0})
  unfolding pending_irq handle_sgi handle_device_irq deactivate_irq
  gicv3_handle_irq_el1 iar = handle_pending (pending_irq iar)
