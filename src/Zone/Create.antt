-- ===== src/Zone/Create.antt =====
-- `zone_create` of src/zone.rs, with `pt_init` of src/arch/aarch64/zone.rs and `vgicv3_mmio_init` of
-- src/device/irqchip/gicv3/vgic.rs.
use sys_hyper.Base.{
  ℕ, zero, suc, ◌+◌, ◌*◌, ◌==◌, ◌||◌, if◌then◌else◌, Option, List, [], ◌∷◌, bit_or,
}
use sys_hyper.Base.Run.{
  M, Run, ok, err, panic, hang, ◌>>=◌, ◌>>◌, pure, panics, get, put, assert, unwrap, checked_add,
}
use sys_hyper.Config.{
  HvConfigMemoryRegion, HvArchZoneConfig, HvZoneConfig, memory_regions, interrupts, cpus,
  mem_type_ram, mem_type_io, mem_type_virtio,
}
use sys_hyper.Error.{HvErrorNum}
use sys_hyper.Irqchip.Gicd.{
  Gic, host_gicr_base, host_gicd_base, host_gicd_size, max_cpu_num, per_gicr_size,
}
use sys_hyper.Irqchip.Vgic.Bitmap.{irq_bitmap_init}
use sys_hyper.Memory.Flags
use sys_hyper.Memory.Frame.{PhysMemory, new_zero}
use sys_hyper.Memory.Frame.Bitmap.{BitAlloc}
use sys_hyper.Memory.MemorySet.{MemorySet, insert}
use sys_hyper.Memory.Region.{MemoryRegion, new_with_offset_mapper}
use sys_hyper.Paging.Pte.{GenericPte}
use sys_hyper.Paging.Table.{HvPageTable}
use sys_hyper.Percpu.CpuSet.{set_bits}
use sys_hyper.Zone.MmioRegions.{mmio_region_register}
use sys_hyper.Zone.ZoneList.{Zone}

-- The functions that the code registers as handlers.
pub data MmioHandler : Type 0 where
  vgicv3_dist_handler vgicv3_redist_handler mmio_virtio_handler : MmioHandler

-- A zone's regions and its table; physical memory is shared by all zones.
pub record GuestMemory : Type 0 where
  pub regions : List MemoryRegion
  pub pt : HvPageTable

-- A zone under construction, and physical memory.
pub record Building (State : Type 0) : Type 0 where
  pub zone : Zone MmioHandler GuestMemory
  pub memory : PhysMemory State

module _ {State : Type 0} where
  unfoldable pub register : ℕ → ℕ → MmioHandler → ℕ → M HvErrorNum (Building State) (Unit {0})
  unfolding mmio_region_register
  register start size handler arg = do
    s ← get
    mmio ← unwrap (mmio_region_register start size handler arg s.zone.mmio)
    put (record s { zone = record s.zone { mmio = mmio } })

  -- The `for` over the CPUs from `cpu`, of which there are `n`.
  unfoldable pub redist_init : ℕ → ℕ → ℕ → M HvErrorNum (Building State) (Unit {0})
  unfolding register
  redist_init gicr_base cpu zero = pure tt
  redist_init gicr_base cpu (suc n) = do
    base ← checked_add gicr_base (cpu * per_gicr_size)
    register base per_gicr_size MmioHandler.vgicv3_redist_handler cpu
    redist_init gicr_base (cpu + 1) n

  unfoldable pub vgicv3_mmio_init :
      Option Gic → HvArchZoneConfig → M HvErrorNum (Building State) (Unit {0})
  unfolding host_gicd_base host_gicd_size host_gicr_base register redist_init
  vgicv3_mmio_init GIC arch = do
    gicd_base ←
        (if arch.gicd_base == 0
          then (unwrap GIC >>= λ gic. pure (host_gicd_base gic))
          else pure arch.gicd_base)
    gicr_base ←
        (if arch.gicr_base == 0
          then (unwrap GIC >>= λ gic. unwrap (host_gicr_base gic 0))
          else pure arch.gicr_base)
    gicd_size ←
        (if arch.gicd_size == 0
          then (unwrap GIC >>= λ gic. pure (host_gicd_size gic))
          else pure arch.gicd_size)
    register gicd_base gicd_size MmioHandler.vgicv3_dist_handler 0
    redist_init gicr_base 0 max_cpu_num

module _ {State : Type 0} (B : BitAlloc State) (P : GenericPte) where
  -- An operation of the zone's memory set.
  abbrev on_gpm :
      Building State
      → Run HvErrorNum (MemorySet State) (Unit {0})
      → Run HvErrorNum (Building State) (Unit {0})
  on_gpm s (ok u m) = ok u (record {
    zone = record s.zone { gpm = record { regions = m.regions; pt = m.page_table.pt } };
    memory = m.page_table.memory;
  })
  on_gpm s (err e m) = err e (record {
    zone = record s.zone { gpm = record { regions = m.regions; pt = m.page_table.pt } };
    memory = m.page_table.memory;
  })
  on_gpm s panic = panic
  on_gpm s hang = hang

  unfoldable pub insert_region : MemoryRegion → M HvErrorNum (Building State) (Unit {0})
  unfolding insert
  insert_region region s = on_gpm s (
      insert B P region (record {
        regions = s.zone.gpm.regions;
        page_table = record { pt = s.zone.gpm.pt; memory = s.memory };
      }))

  abbrev rwx : ℕ
  rwx = bit_or (bit_or Flags.read Flags.write) Flags.execute

  -- The body of the `for` of `pt_init`.
  unfoldable pub init_region : HvConfigMemoryRegion → M HvErrorNum (Building State) (Unit {0})
  unfolding insert_region new_with_offset_mapper register
  init_region r =
      let flags = if r.mem_type == mem_type_io then bit_or rwx Flags.io else rwx in
      if r.mem_type == mem_type_ram || r.mem_type == mem_type_io
      then insert_region (new_with_offset_mapper r.virtual_start r.physical_start r.size flags)
      else if r.mem_type == mem_type_virtio
      then register r.physical_start r.size MmioHandler.mmio_virtio_handler r.physical_start
      else panics

  unfoldable pub pt_init : List HvConfigMemoryRegion → M HvErrorNum (Building State) (Unit {0})
  unfolding init_region
  pt_init [] = pure tt
  pt_init (r ∷ rs) = do init_region r; pt_init rs

  abbrev expected : {S A : Type 0} → Run HvErrorNum S A → Run HvErrorNum S A
  expected (ok a s) = ok a s
  expected (err e s) = panic
  expected panic = panic
  expected hang = hang

  -- `new_s2_memory_set`, for the number of levels that the CPU's physical addresses need.
  unfoldable pub new_s2_memory_set : ℕ → M HvErrorNum (PhysMemory State) GuestMemory
  unfolding new_zero
  new_s2_memory_set level = do
    assert (level == 3 || level == 4)
    root ← λ m. expected (new_zero B m)
    pure (record { regions = []; pt = record { root = root; level = level; intrm_tables = [] } })

  -- The zone of a configuration, up to the registration with its CPUs; `zone_id` is in no use.
  unfoldable pub build_zone : Option Gic → HvZoneConfig → M HvErrorNum (Building State) (Unit {0})
  unfolding memory_regions pt_init vgicv3_mmio_init interrupts irq_bitmap_init cpus set_bits
  build_zone GIC config = do
    regions ← unwrap (memory_regions config)
    λ s. expected (pt_init regions s)
    vgicv3_mmio_init GIC config.arch
    irqs ← unwrap (interrupts config)
    s ← get
    irq_bitmap ← unwrap (irq_bitmap_init irqs s.zone.irq_bitmap)
    cpu_set ← unwrap (set_bits (cpus config) s.zone.cpu_set)
    put (record s { zone = record s.zone { irq_bitmap = irq_bitmap; cpu_set = cpu_set } })
