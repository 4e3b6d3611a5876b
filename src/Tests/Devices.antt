-- ===== src/Tests/Devices.antt =====
-- Interrupts, events, the virtio region, CPUs and device regions, at concrete states.
use sys_hyper.Base.{
  ℕ, ◌*◌, ◌%◌, ◌^◌, ◌≡◌, refl, true, false, ◌==◌, if◌then◌else◌, List, [], ◌∷◌, ◌++◌, some,
  replicate, inl, arith,
}
use native.Mathlib.Nat.{mod-lt, one-le-pow}
use sys_hyper.Config.{HvZoneConfig}
use sys_hyper.Error.{HvErrorNum}
use sys_hyper.Event.{EventManager, add_event, fetch_event}
use sys_hyper.Event.Fifo.{Step, Steps, queue, added, fetched, steps-Balances}
use sys_hyper.Irqchip.ListRegisters.{VirtualInterface, inject_irq}
use sys_hyper.Irqchip.ListRegisters.Inject.{Injects, inject_irq-Injects}
use sys_hyper.Irqchip.Vgic.{restrict_bitmask_access}
use sys_hyper.Irqchip.Vgic.Access.{Restricts, restrict_bitmask_access-Restricts}
use sys_hyper.Irqchip.Vgic.Bitmap.{irq_bitmap_init, Initialises, irq_bitmap_init-Initialises}
use sys_hyper.Memory.Mmio.{Bus, MmioAccess}
use sys_hyper.Percpu.CpuSet.{CpuSet, IsCpuSet}
use sys_hyper.Virtio.Bridge.{
  VirtioBridgeRegion, Pushes, no_req, push_req, is_req_list_full, push_req-Pushes, region,
}
use sys_hyper.Virtio.Irqs.{Adds, Waits, add_irq, waiting, add_irq-Adds}
use sys_hyper.Zone.MmioRegions.Lookup.{FindsFirst, find_mmio_region-FindsFirst}
use sys_hyper.Zone.MmioRegions.{
  MmioConfig, Registers, mmio_region_register, find_mmio_region, mmio_region_register-Registers,
}

-- Two list registers, the first in use for interrupt 27.
abbrev interface : VirtualInterface
interface = record { vtr = 1; lr = λ i. if i == 0 then 27 else 0 }

abbrev elrsr : (ℕ → ℕ) → ℕ
elrsr lr = if lr 1 == 0 then 2 else 0

inject_irq-Injects_example :
    Injects elrsr HvErrorNum 33 true interface (inject_irq elrsr 33 true interface)
inject_irq-Injects_example = inject_irq-Injects elrsr HvErrorNum 33 true interface

-- Device memory of one word, read and written whole.
abbrev one_word : Bus ℕ
one_word = record {
  read = λ addr size d. (d % 2 ^ (8 * size), d);
  write = λ addr size value d. value;
  read-lt = λ addr size d. mod-lt d (one-le-pow (8 * size) 2 (omega arith));
}

abbrev empty_bitmap : List ℕ
empty_bitmap = replicate 32 0

irq_bitmap_init-Initialises_example :
    Initialises (33 ∷ 78 ∷ []) empty_bitmap (irq_bitmap_init (33 ∷ 78 ∷ []) empty_bitmap)
irq_bitmap_init-Initialises_example =
    irq_bitmap_init-Initialises (33 ∷ 78 ∷ []) empty_bitmap (omega arith, (omega arith, tt)) refl

-- Interrupt 33 belongs to the zone.
abbrev bitmap : List ℕ
bitmap = 0 ∷ 2 ∷ replicate 30 0

abbrev group_write : MmioAccess
group_write = record { address = 0x84; size = 4; is_write = true; value = 0xff }

restrict_bitmask_access-Restricts_example :
    Restricts one_word bitmap 0x800_0000 1 0x80 group_write 0xf0 false
      (restrict_bitmask_access one_word bitmap group_write 1 1 false 0x800_0000 0xf0)
restrict_bitmask_access-Restricts_example =
    restrict_bitmask_access-Restricts one_word bitmap 0x800_0000 1 0x80 group_write 0xf0 1 false
      refl refl (inl refl) (omega arith) (omega arith) refl

-- CPU 1 gets two events and takes one.
abbrev start : EventManager
start = record { inner = [] ∷ [] ∷ [] }

abbrev three_calls : Steps start ((fetch_event 1 ((add_event 1 3 ((add_event 1 0 start).0)).0)).0)
three_calls =
    Steps.step (Step.add 1 0 refl)
      (Steps.step (Step.add 1 3 refl) (Steps.step (Step.fetch 1 refl) Steps.done))

steps-Balances_example :
    queue start 1 ++ added three_calls 1
    ≡ fetched three_calls 1
      ++ queue ((fetch_event 1 ((add_event 1 3 ((add_event 1 0 start).0)).0)).0) 1
steps-Balances_example = steps-Balances three_calls 1 (omega arith)

abbrev shared : VirtioBridgeRegion
shared = record {
  base_address = 0x9000_0000;
  is_enable = true;
  shared = record {
    req_front = 30;
    req_rear = 31;
    res_front = 0;
    res_rear = 0;
    req_list = replicate 32 no_req;
    res_list = [];
    cfg_flags = [];
    cfg_values = [];
    need_wakeup = 0;
  };
}

not_full : is_req_list_full shared ≡ some false
unfolding is_req_list_full region
not_full = refl

push_req-Pushes_example :
    Pushes shared (record no_req { value = 5 }) (push_req (record no_req { value = 5 }) shared)
push_req-Pushes_example =
    push_req-Pushes shared (record no_req { value = 5 })
      (record { front = omega arith; rear = omega arith; room = refl }) not_full

add_irq-Adds_example : Adds 79 (78 ∷ []) (add_irq 79 (1 ∷ 78 ∷ 0 ∷ 0 ∷ 0 ∷ []))
add_irq-Adds_example = add_irq-Adds 79 1 (78 ∷ 0 ∷ 0 ∷ 0 ∷ []) refl (omega arith)

one-Waits : Waits (1 ∷ 78 ∷ 0 ∷ 0 ∷ 0 ∷ []) (78 ∷ [])
unfolding waiting
one-Waits = record { size = refl; content = refl }

abbrev two_cpus : CpuSet
two_cpus = record { max_cpu_id = 4; bitmap = 6 }

two_cpus-IsCpuSet : IsCpuSet two_cpus
two_cpus-IsCpuSet = record { max_small = omega arith }

abbrev config : ℕ → ℕ → MmioConfig ℕ
config start handler = record {
  region = record { start = start; size = 0x1000 };
  handler = handler;
  arg = 0;
}

mmio_region_register-Registers_example :
    Registers 0x2000 0x1000 7 0
      (config 0x1000 1 ∷ [])
      (mmio_region_register 0x2000 0x1000 7 0 (config 0x1000 1 ∷ []))
mmio_region_register-Registers_example =
    mmio_region_register-Registers 0x2000 0x1000 7 0 (config 0x1000 1 ∷ []) (refl, tt)

find_mmio_region-FindsFirst_example :
    FindsFirst 0x2004 4
      (config 0x1000 1 ∷ config 0x2000 2 ∷ [])
      (find_mmio_region 0x2004 4 (config 0x1000 1 ∷ config 0x2000 2 ∷ []))
find_mmio_region-FindsFirst_example =
    find_mmio_region-FindsFirst 0x2004 4 (config 0x1000 1 ∷ config 0x2000 2 ∷ []) (omega arith)
      (omega arith, (omega arith, tt))

abbrev zone_config : HvZoneConfig
zone_config = record {
  zone_id = 1;
  cpu_bits = 6;
  num_memory_regions = 0;
  memory_region_array = [];
  num_interrupts = 0;
  interrupt_array = [];
  entry_point = 0x8020_0000;
  kernel_load_paddr = 0x8020_0000;
  kernel_size = 0x10_0000;
  dtb_load_paddr = 0x8000_0000;
  dtb_size = 0x1000;
  arch = record { gicd_base = 0; gicr_base = 0; gicd_size = 0; gicr_size = 0 };
}
