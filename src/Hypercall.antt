-- ===== src/Hypercall.antt =====
-- src/hypercall/mod.rs: the calls by which the root zone starts and shuts down zones and answers the
-- requests of virtio devices, on the CPU `me`. `config_at` is the zone configuration in the guest's
-- memory at an address.
pub mod Root
pub mod Results
pub mod Shutdown
use sys_hyper.Base.{
  ℕ, zero, suc, ◌+◌, ◌-◌, ◌*◌, ◌%◌, ◌^◌, Bool, true, false, ◌==◌, if◌then◌else◌, Option, none, some,
  List, [], ◌∷◌, get_elem?, bit_and,
}
use sys_hyper.Base.Run.{
  M, Run, ok, err, panic, hang, ◌>>=◌, ◌>>◌, pure, fail, get, put, assert, unwrap,
}
use sys_hyper.Config.{HvZoneConfig}
use sys_hyper.Error.{HvErrorNum}
use sys_hyper.Event.{send_event, ipi_event_wakeup, ipi_event_shutdown, ipi_event_virtio_inject_irq}
use sys_hyper.Irqchip.Reset.{arch_irqchip_reset}
use sys_hyper.Machine.{
  Machine, MachineM, Stop, lifted, update, set_cpu, leave_zone, is_this_root_zone, on_events,
  on_zones, released,
}
use sys_hyper.Machine.Interrupts.{sgi_ipi_id}
use sys_hyper.Machine.NewZone.{Host, HostM, Devices, zone_create}
use sys_hyper.Memory.Addr.{page_size}
use sys_hyper.Memory.Frame.Bitmap.{BitAlloc}
use sys_hyper.Memory.Mmio.{Bus}
use sys_hyper.Paging.Pte.{GenericPte}
use sys_hyper.Percpu.CpuSet.{CpuSet, first_cpu, iter}
use sys_hyper.Percpu.PerCpu.{invalid_address}
use sys_hyper.Virtio.Bridge.{
  HvisorDeviceRes, VirtioBridge, max_req, region, set_base_addr, is_res_list_empty,
}
use sys_hyper.Virtio.Irqs.{add_irq, no_irqs}
use sys_hyper.Zone.ZoneList.{Zone, remove_zone, with_id}

abbrev pub irqs_or_none : Option (List ℕ) → List ℕ
irqs_or_none none = no_irqs
irqs_or_none (some irq_list) = irq_list

module _ {Handler Gpm Device : Type 0} where
  abbrev pub eperm_unless : ℕ → MachineM Handler Gpm Device ℕ → MachineM Handler Gpm Device ℕ
  eperm_unless me m = do
    root ← is_this_root_zone me
    if root then m else fail (Stop.hv_err HvErrorNum.eperm)

  unfoldable pub hv_virtio_init : ℕ → ℕ → MachineM Handler Gpm Device ℕ
  unfolding set_base_addr
  hv_virtio_init me shared_region_addr = eperm_unless me (do
    assert (shared_region_addr % page_size == 0)
    s ← get
    put (record s { bridge = set_base_addr shared_region_addr s.bridge })
    pure 0)

  abbrev pub first_of : CpuSet → MachineM Handler Gpm Device ℕ
  first_of cpu_set = do first ← unwrap (first_cpu cpu_set); unwrap first

  abbrev pub note_irq : ℕ → List ℕ × Bool → MachineM Handler Gpm Device (Unit {0})
  note_irq cpu (irq_list, sent) = do
    s ← get
    put (record s { virtio_irqs = update cpu (some irq_list) s.virtio_irqs })
    if sent then on_events (send_event cpu sgi_ipi_id ipi_event_virtio_inject_irq) else pure tt

  -- `res_front` moves on.
  abbrev pub advance : MachineM Handler Gpm Device (Unit {0})
  advance t = ok tt (record t {
    bridge = record t.bridge {
      shared = record t.bridge.shared {
        res_front = bit_and (t.bridge.shared.res_front + 1) (max_req - 1);
      };
    };
  })

  -- The interrupt is noted for the first CPU of the target zone.
  abbrev pub deliver_result : ℕ → ℕ → MachineM Handler Gpm Device (Unit {0})
  deliver_result irq_id target = do
    s ← get
    cpu ← first_of (s.zones.zone target).cpu_set
    added ← unwrap (add_irq irq_id (irqs_or_none (s.virtio_irqs cpu)))
    note_irq cpu added
    advance

  -- The body of the `while`.
  unfoldable pub take_result : MachineM Handler Gpm Device (Unit {0})
  unfolding region with_id first_cpu add_irq send_event
  take_result = do
    s ← get
    shared ← unwrap (region s.bridge)
    res ← unwrap (get_elem? shared.res_list shared.res_front)
    target ← unwrap (with_id s.zones.zone res.target_zone s.zones.zone_list)
    deliver_result res.irq_id target

  abbrev hangs : MachineM Handler Gpm Device (Unit {0})
  hangs s = hang

  -- The `while`, with fuel: running out of it is an endless loop.
  unfoldable pub take_results : ℕ → MachineM Handler Gpm Device (Unit {0})
  unfolding is_res_list_empty take_result
  take_results zero = hangs
  take_results (suc fuel) = do
    s ← get
    empty ← unwrap (is_res_list_empty s.bridge)
    let rest = take_results fuel
    if empty then pure tt else take_result >> rest

  -- There are `max_req` results at most.
  unfoldable pub hv_virtio_inject_irq : ℕ → MachineM Handler Gpm Device ℕ
  unfolding take_results
  hv_virtio_inject_irq me = eperm_unless me (take_results (max_req + 1) >> pure 0)

  -- The `for_each` over the CPUs of a zone that is shut down.
  unfoldable pub shut_cpus : List ℕ → MachineM Handler Gpm Device (Unit {0})
  unfolding leave_zone send_event
  shut_cpus [] = pure tt
  shut_cpus (cpu ∷ cpus) = do
    leave_zone cpu
    s ← get
    set_cpu cpu (record (s.cpus cpu) { cpu_on_entry = invalid_address })
    on_events (send_event cpu sgi_ipi_id ipi_event_shutdown)
    shut_cpus cpus

module _ {State Device : Type 0} (D : Bus Device) where
  abbrev pub on_bus : M Stop Device (Unit {0}) → HostM State Device (Unit {0})
  on_bus m s = lifted (λ t. record s { device = record s.device { bus = t } }) (m s.device.bus)

  abbrev shut_zone : Option ℕ → ℕ → HostM State Device ℕ
  shut_zone none zone_id = fail (Stop.hv_err HvErrorNum.eexist)
  shut_zone (some z) zone_id = do
    s ← get
    let zone = s.zones.zone z
    cpus ← unwrap (iter zone.cpu_set)
    shut_cpus cpus
    on_bus (arch_irqchip_reset D s.gic zone.irq_bitmap)
    on_zones (remove_zone zone_id)
    pure 0

  unfoldable pub hv_zone_shutdown : ℕ → ℕ → HostM State Device ℕ
  unfolding with_id iter shut_cpus arch_irqchip_reset remove_zone
  hv_zone_shutdown me zone_id = eperm_unless me (
      if zone_id == 0
      then fail (Stop.hv_err HvErrorNum.einval)
      else do s ← get; shut_zone (with_id s.zones.zone zone_id s.zones.zone_list) zone_id)

module _ {State Device : Type 0} (B : BitAlloc State) (P : GenericPte) where
  abbrev wake_boot_cpu : ℕ → HostM State Device ℕ
  wake_boot_cpu cpu = do
    s ← get
    if (s.cpus cpu).arch_cpu.psci_on
        then fail (Stop.hv_err HvErrorNum.ebusy)
        else on_events (send_event cpu sgi_ipi_id ipi_event_wakeup) >> pure 0

  -- The reference to the new zone is dropped at the end, on every path.
  unfoldable pub hv_zone_start : ℕ → ℕ → ℕ → HvZoneConfig → ℕ → HostM State Device ℕ
  unfolding zone_create first_cpu send_event
  hv_zone_start level invalid me config address = eperm_unless me (do
    zone ← zone_create B P level invalid config address
    s ← get
    boot_cpu ← first_of (s.zones.zone zone).cpu_set
    put (record s { zones = released (some zone) s.zones })
    wake_boot_cpu boot_cpu)

module _ {State Device : Type 0} (D : Bus Device) (B : BitAlloc State) (P : GenericPte)
    (config_at : ℕ → HvZoneConfig) where
  -- `HyperCall::hypercall`; a number that is no `HyperCallCode` does nothing.
  unfoldable pub hypercall : ℕ → ℕ → ℕ → ℕ → ℕ → ℕ → HostM State Device ℕ
  unfolding hv_virtio_init hv_virtio_inject_irq hv_zone_start hv_zone_shutdown
  hypercall level invalid address me code arg0 =
      if code == 0
      then hv_virtio_init me arg0
      else if code == 1
      then hv_virtio_inject_irq me
      else if code == 2
      then hv_zone_start B P level invalid me (config_at arg0) address
      else if code == 3
      then hv_zone_shutdown D me arg0
      else pure 0
