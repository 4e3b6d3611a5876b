-- ===== src/Machine/NewZone.antt =====
-- `zone_create` of src/zone.rs on the machine: the zone is built, its CPUs are given to it, and it is
-- added to the list. What the environment chooses is an argument: the address at which the shared
-- zone is allocated, the levels of the page table, and psci's `INVALID_ADDRESS`.
use sys_hyper.Base.{ℕ, ◌+◌, Bool, true, false, if◌then◌else◌, Option, none, some, List, [], ◌∷◌}
use sys_hyper.Base.Run.{M, Run, ok, err, panic, hang, ◌>>=◌, ◌>>◌, pure, fail, get, put, unwrap}
use sys_hyper.Config.{HvZoneConfig, memory_regions}
use sys_hyper.Error.{HvErrorNum}
use sys_hyper.Machine.{Machine, Stop, update, released, on_zones}
use sys_hyper.Memory.Frame.{PhysMemory}
use sys_hyper.Memory.Frame.Bitmap.{BitAlloc}
use sys_hyper.Paging.Pte.{GenericPte}
use sys_hyper.Percpu.CpuSet.{iter}
use sys_hyper.Percpu.PerCpu.{PerCpu}
use sys_hyper.Zone.Boot.{boot_cpus}
use sys_hyper.Zone.Create.{Building, GuestMemory, MmioHandler, build_zone, new_s2_memory_set}
use sys_hyper.Zone.DeviceTree.{find_dtb}
use sys_hyper.Zone.ZoneList.{Zone, Zones, count_set, new_zone, with_id, add_zone}

-- Physical memory, which holds the page tables, and the devices.
pub record Devices (State Device : Type 0) : Type 0 where
  pub memory : PhysMemory State
  pub bus : Device

abbrev is_some : Option ℕ → Bool
is_some none = false
is_some (some z) = true

abbrev pub Host : Type 0 → Type 0 → Type 0
Host State Device = Machine MmioHandler GuestMemory (Devices State Device)

abbrev pub HostM : Type 0 → Type 0 → Type 0 → Type 0
HostM State Device A = M Stop (Host State Device) A

module _ {Handler Gpm : Type 0} where
  abbrev pub referred : ℕ → Zones Handler Gpm → Zones Handler Gpm
  referred zone y = record y {
    strong_count = count_set zone (y.strong_count zone + 1) y.strong_count;
  }

  -- The CPUs drop the zones that they had, and refer to the new one.
  abbrev pub refer : ℕ → (ℕ → PerCpu) → List ℕ → Zones Handler Gpm → Zones Handler Gpm
  refer zone cpus [] z = z
  refer zone cpus (c ∷ cs) z = refer zone cpus cs (referred zone (released (cpus c).zone z))

module _ {State : Type 0} where
  abbrev built :
      Run HvErrorNum (Building State) (Unit {0})
      → M HvErrorNum (PhysMemory State) (Zone MmioHandler GuestMemory)
  built (ok u b) m = ok b.zone b.memory
  built (err e b) m = err e b.memory
  built panic m = panic
  built hang m = hang

module _ {State Device : Type 0} where
  abbrev with_memory : PhysMemory State → Host State Device → Host State Device
  with_memory t s = record s { device = record s.device { memory = t } }

  module _ {A : Type 0} where
    abbrev kept :
        Host State Device → Run HvErrorNum (PhysMemory State) A → Run Stop (Host State Device) A
    kept s (ok a t) = ok a (with_memory t s)
    kept s (err e t) = err (Stop.hv_err e) (with_memory t s)
    kept s panic = panic
    kept s hang = hang

    -- An operation of physical memory.
    abbrev on_memory : M HvErrorNum (PhysMemory State) A → HostM State Device A
    on_memory m s = kept s (m s.device.memory)

  -- The end of `zone_create`, for a zone at `address`. The caller has a reference too.
  unfoldable pub enter_zone :
      ℕ → HvZoneConfig → ℕ → Zone MmioHandler GuestMemory → HostM State Device ℕ
  unfolding boot_cpus iter add_zone memory_regions find_dtb
  enter_zone invalid config address zone = do
    regions ← unwrap (memory_regions config)
    dtb_ipa ← unwrap (find_dtb config.dtb_load_paddr invalid regions)
    s ← get
    cpu_ids ← unwrap (iter zone.cpu_set)
    cpus ← unwrap (boot_cpus zone.cpu_set address config.entry_point dtb_ipa s.cpus)
    let zones = record s.zones {
      zone = update address zone s.zones.zone;
      strong_count = count_set address 2 s.zones.strong_count;
    }
    put (record s { cpus = cpus; zones = refer address s.cpus cpu_ids zones })
    on_zones (add_zone address)
    pure address

module _ {State Device : Type 0} (B : BitAlloc State) (P : GenericPte) where
  unfoldable pub zone_create : ℕ → ℕ → HvZoneConfig → ℕ → HostM State Device ℕ
  unfolding with_id new_s2_memory_set new_zone build_zone enter_zone
  zone_create level invalid config address = do
    s ← get
    let there = is_some (with_id s.zones.zone config.zone_id s.zones.zone_list)
    if there then fail (Stop.hv_err HvErrorNum.eexist) else do
      gpm ← on_memory (new_s2_memory_set B P level)
      zone ← on_memory (λ m.
          built
            (build_zone B P s.gic config
              (record { zone = new_zone gpm config.zone_id; memory = m }))
            m)
      enter_zone invalid config address zone
