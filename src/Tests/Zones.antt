-- ===== src/Tests/Zones.antt =====
-- Zones at concrete states.
use sys_hyper.Base.{ℕ, refl, true, ◌==◌, if◌then◌else◌, [], ◌∷◌, arith}
use sys_hyper.Config.{HvConfigMemoryRegion}
use sys_hyper.Error.{HvErrorNum}
use sys_hyper.Memory.Mmio.{MmioAccess}
use sys_hyper.Percpu.CpuSet.{CpuSet}
use sys_hyper.Percpu.PerCpu
use sys_hyper.Zone.Boot.{Boots, boot_cpus, boot_cpus-Boots}
use sys_hyper.Zone.DeviceTree.{Located, find_dtb, find_dtb-Located}
use sys_hyper.Zone.MmioRegions.{MmioConfig}
use sys_hyper.Zone.ZoneList.{Zones, Removes, new_zone, with_id, remove_zone, remove_zone-Removes}

-- Two zones, 0 at address 100 and 1 at address 200, each referred to by the list only.
abbrev two_zones : Zones ℕ ℕ
two_zones = record {
  zone_list = 100 ∷ 200 ∷ [];
  zone = λ z. new_zone 0 (if z == 100 then 0 else 1);
  strong_count = λ z. 1;
}

remove_zone-Removes_example : Removes {E = HvErrorNum} 1 two_zones (remove_zone 1 two_zones)
unfolding new_zone with_id
remove_zone-Removes_example = remove_zone-Removes HvErrorNum 1 two_zones (refl, (refl, tt))

-- CPUs 1 and 2 of four.
abbrev two_cpus : CpuSet
two_cpus = record { max_cpu_id = 4; bitmap = 6 }

boot_cpus-Boots_example :
    Boots two_cpus 200 0x8020_0000 0x8000_0000 PerCpu.new
      (boot_cpus two_cpus 200 0x8020_0000 0x8000_0000 PerCpu.new)
boot_cpus-Boots_example =
    boot_cpus-Boots two_cpus 200 0x8020_0000 0x8000_0000 PerCpu.new
      (record { max_small = omega arith })

abbrev ram : HvConfigMemoryRegion
ram = record {
  mem_type = 0;
  physical_start = 0x7000_0000;
  virtual_start = 0x4000_0000;
  size = 0x1000_0000;
}

find_dtb-Located_example : Located 0x7100_0000 0 (ram ∷ []) (find_dtb 0x7100_0000 0 (ram ∷ []))
find_dtb-Located_example = find_dtb-Located 0x7100_0000 0 (ram ∷ []) (omega arith, omega arith, tt)

abbrev device : MmioConfig ℕ
device = record { region = record { start = 0x2000; size = 0x1000 }; handler = 7; arg = 0 }

abbrev word_write : MmioAccess
word_write = record { address = 0x2010; size = 4; is_write = true; value = 1 }
