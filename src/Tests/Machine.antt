-- ===== src/Tests/Machine.antt =====
-- Traps, interrupts and hypercalls on a machine with a root zone at address 100, on CPU 0, and a
-- zone at 200, on CPU 1.
use sys_hyper.Base.{
  ℕ, zero, suc, ◌-◌, ◌*◌, ◌%◌, ◌^◌, ◌≡◌, refl, true, false, ◌==◌, if◌then◌else◌, [], ◌∷◌, none,
  some, inl, replicate, arith,
}
use native.Mathlib.Nat.{mod-lt, one-le-pow}
use sys_hyper.Base.Bits.{test_bit}
use sys_hyper.Base.Run.{Run, ok}
use sys_hyper.Error.{HvErrorNum}
use sys_hyper.Config.{HvZoneConfig}
use sys_hyper.Event.{EventManager}
use sys_hyper.Hypercall.{hypercall, hv_virtio_inject_irq, hv_zone_shutdown}
use sys_hyper.Hypercall.Root.{answer, handle_hvc-refused}
use sys_hyper.Hypercall.Results.{Ends, hv_virtio_inject_irq-Ends}
use sys_hyper.Hypercall.Shutdown.{Shuts, hv_zone_shutdown-Shuts}
use sys_hyper.Irqchip.Gicd.{Gic}
use sys_hyper.Machine.{Core}
use sys_hyper.Machine.Interrupts.{handle_virtio_irq}
use sys_hyper.Machine.Interrupts.Waiting.{Delivers, handle_virtio_irq-Delivers}
use sys_hyper.Machine.NewZone.{Host}
use sys_hyper.Machine.VirtioAccess.{VirtioCall, turn}
use sys_hyper.Machine.VirtioAccess.Turns.{Turns, IsReady, turn-Turns}
use sys_hyper.Memory.Mmio.{Bus, MmioAccess}
use sys_hyper.Paging.Stage2.{stage2_pte}
use sys_hyper.Percpu.CpuSet.{member, iter, first_cpu, find_cpu, contains_cpu}
use sys_hyper.Percpu.PerCpu.{PerCpu}
use sys_hyper.Tests.BitSet.{BitSet, bit_set}
use sys_hyper.Trap.Emulation.{sign_extend_lem, Serves, handle_dabt-Serves}
use sys_hyper.Trap.DataAbort.{sign_extend, handle_dabt}
use sys_hyper.Trap.Exit.{handle_hvc}
use sys_hyper.Trap.Psci.{psci_emulate_cpu_on, mpidr_to_cpuid}
use sys_hyper.Trap.Syndrome.{Syndrome, ExceptionClass}
use sys_hyper.Trap.Wakeup.{Wakes, target_of, psci_emulate_cpu_on-Wakes}
use sys_hyper.Virtio.Bridge.{VirtioBridge, no_req}
use sys_hyper.Zone.Create.{MmioHandler, GuestMemory}
use sys_hyper.Zone.ZoneList.{Zone, with_id}

abbrev per_cpu : ℕ → PerCpu
per_cpu i = record {
  id = i;
  cpu_on_entry = 0;
  dtb_ipa = 0x4000_0000;
  arch_cpu = record { cpuid = i; psci_on = i == 0 };
  zone = some (if i == 0 then 100 else 200);
  boot_cpu = i == 0;
}

-- The guest of CPU 0 asks for CPU 1, to start at 0x80000; that of CPU 1 for a hypercall.
abbrev core : ℕ → Core
core i = record {
  regs = record { exit_reason = 2; usr = λ k. if k == 1 then 1 else if k == 2 then 0x80000 else 3 };
  elr = 0x8000_0000;
  interface = record { vtr = 1; lr = λ k. 0 };
  eoir = [];
  dir = [];
}

abbrev zone_at : ℕ → Zone MmioHandler GuestMemory
zone_at z = record {
  id = if z == 100 then 0 else 1;
  mmio =
      record {
        region = record { start = 0x2000; size = 0x1000 };
        handler = MmioHandler.mmio_virtio_handler;
        arg = 0x2000;
      }
      ∷ [];
  cpu_set = record { max_cpu_id = 4; bitmap = if z == 100 then 1 else 2 };
  irq_bitmap = 0 ∷ 2 ∷ [];
  gpm = record {
    regions = [];
    pt = record {
      root = record { start_paddr = 0x1000; frame_count = 1 };
      level = 3;
      intrm_tables = [];
    };
  };
}

abbrev queues : EventManager
queues = record { inner = replicate 4 [] }

abbrev gic : Gic
gic = record {
  gicd_base = 0x800_0000;
  gicr_base = 0x80a_0000;
  gicd_size = 0x10000;
  gicr_size = 0xf6_0000;
}

abbrev ring : VirtioBridge
ring = record {
  req_front = 0;
  req_rear = 0;
  res_front = 31;
  res_rear = 0;
  req_list = replicate 32 no_req;
  res_list = replicate 32 (record { target_zone = 1; irq_id = 78 });
  cfg_flags = replicate 16 0;
  cfg_values = replicate 16 0;
  need_wakeup = 1;
}

abbrev machine : Host BitSet ℕ
machine = record {
  cpus = per_cpu;
  core = core;
  zones = record { zone_list = 100 ∷ 200 ∷ []; zone = zone_at; strong_count = λ z. 2 };
  events = record { manager = some queues; sent = [] };
  virtio_irqs = λ c. none;
  bridge = record { base_address = 0x5000; is_enable = true; shared = ring };
  gic = some gic;
  timer_interrupt_counter = 0;
  device = record {
    memory = record {
      word = λ p i. 0;
      allocator = record { base = 0x10000; inner = record { bits = λ i. true; bound = 8 } };
    };
    bus = 0;
  };
}

-- CPU 1 with its entry point, before it has been started.
target_one : target_of 0 machine ≡ 1
unfolding mpidr_to_cpuid
target_one = refl

psci_emulate_cpu_on-Wakes_example : Wakes 0 queues [] machine (psci_emulate_cpu_on 0 machine)
psci_emulate_cpu_on-Wakes_example =
    psci_emulate_cpu_on-Wakes 0 queues [] machine refl (omega (arith, target_one))
      (rw target_one refl)

abbrev no_config : ℕ → HvZoneConfig
no_config addr = record {
  zone_id = 0;
  cpu_bits = 0;
  num_memory_regions = 0;
  memory_region_array = [];
  num_interrupts = 0;
  interrupt_array = [];
  entry_point = 0;
  kernel_load_paddr = 0;
  kernel_size = 0;
  dtb_load_paddr = 0;
  dtb_size = 0;
  arch = record { gicd_base = 0; gicr_base = 0; gicd_size = 0; gicr_size = 0 };
}

-- A device of one word.
abbrev word_device : Bus ℕ
word_device = record {
  read = λ addr size d. (d % 2 ^ (8 * size), d);
  write = λ addr size value d. value;
  read-lt = λ addr size d. mod-lt d (one-le-pow (8 * size) 2 (omega arith));
}

handle_hvc-refused_example :
    handle_hvc (hypercall word_device bit_set stage2_pte no_config 3 0 300) 1 machine
    ≡ ok tt (answer 1 (2 ^ 64 - 1) machine)
handle_hvc-refused_example =
    handle_hvc-refused word_device bit_set stage2_pte no_config 3 0 300 1 machine
      (record { zone = 200; root = 100; mine = refl; first = refl; foreign = omega arith })

hv_virtio_inject_irq-Ends_example : Ends machine (hv_virtio_inject_irq 0 machine)
hv_virtio_inject_irq-Ends_example = hv_virtio_inject_irq-Ends 0 machine (omega arith) (omega arith)

one_cpu : iter (zone_at 200).cpu_set ≡ some (1 ∷ [])
unfolding iter
one_cpu = refl

member_one : (j : ℕ) → member (zone_at 200).cpu_set j ≡ true → (per_cpu j).zone ≡ some 200
unfolding test_bit
member_one zero h = cc h
member_one (suc j) h = let m : (suc j == 0) ≡ false = ground arith in rw m refl

zone_one : with_id zone_at 1 (100 ∷ 200 ∷ []) ≡ some 200
unfolding with_id
zone_one = refl

hv_zone_shutdown-Shuts_example : Shuts 1 200 machine (hv_zone_shutdown word_device 0 1 machine)
unfolding with_id
hv_zone_shutdown-Shuts_example =
    hv_zone_shutdown-Shuts word_device 0 1 200 (1 ∷ []) queues gic machine (record {
      root = 100;
      mine = refl;
      first = refl;
      not_root = omega arith;
      found = zone_one;
      distinct = (refl, (refl, tt));
      small = record { max_small = omega arith };
      listed = one_cpu;
      members = member_one;
      counted = refl;
      queues = refl;
      controller = refl;
    })

sign_extend_lem_example : sign_extend (32 - 8 * 1) 0x80 ≡ 0xff_ffff_ff80
sign_extend_lem_example = sign_extend_lem 1 0x80 (inl refl) (omega arith)

-- A read of one word at 0x2010 into register 2.
abbrev read_word : Syndrome
read_word = record {
  esr = 0x9282_0007;
  ec = ExceptionClass.data_abort_lower_el;
  il = 1;
  iss = 0x82_0007;
  far = 0x10;
  hpfar = 0x20;
}

abbrev called :
    MmioHandler → MmioAccess → ℕ → Host BitSet ℕ → Run HvErrorNum (Host BitSet ℕ) MmioAccess
called h mmio arg s = ok mmio s

handle_dabt-Serves_example :
    Serves called (zone_at 200).mmio read_word 1 machine (handle_dabt called read_word 1 machine)
handle_dabt-Serves_example =
    handle_dabt-Serves called read_word 1 200 machine refl (omega arith) (omega arith, tt)

-- The guest of CPU 1 reads a device register that needs no notification.
machine-IsReady : IsReady 1 machine 0 queues []
unfolding first_cpu find_cpu contains_cpu
machine-IsReady = record {
  enabled = refl;
  ring = record { front = omega arith; rear = omega arith; room = refl };
  flags = omega arith;
  values = omega arith;
  manager = refl;
  queue = refl;
  root = (100, refl, refl);
  root_below = omega arith;
}

turn-Turns_example :
    Turns 1 0 queues [] machine 200
      (VirtioCall.polls 0 (record { address = 0x2010; size = 4; is_write = false; value = 0 }))
      (turn 1
        (VirtioCall.polls 0 (record { address = 0x2010; size = 4; is_write = false; value = 0 }))
        machine)
turn-Turns_example =
    turn-Turns 1 0 queues []
      (VirtioCall.polls 0 (record { address = 0x2010; size = 4; is_write = false; value = 0 }))
      machine 200 machine-IsReady refl

-- Interrupts 78 and 79 wait for CPU 1, whose list registers 0 and 1 are free while they hold 0.
abbrev machine_with_irqs : Host BitSet ℕ
machine_with_irqs = record machine { virtio_irqs = λ c. some (2 ∷ 78 ∷ 79 ∷ 0 ∷ 0 ∷ []) }

abbrev two_registers : (ℕ → ℕ) → ℕ
two_registers lr = if lr 0 == 0 then 3 else if lr 1 == 0 then 2 else 0

handle_virtio_irq-Delivers_example :
    Delivers two_registers 1 2
      (78 ∷ 79 ∷ 0 ∷ 0 ∷ [])
      machine_with_irqs
      (handle_virtio_irq two_registers 1 machine_with_irqs)
handle_virtio_irq-Delivers_example =
    handle_virtio_irq-Delivers two_registers 1 2 (78 ∷ 79 ∷ 0 ∷ 0 ∷ []) machine_with_irqs refl
      (omega arith)
