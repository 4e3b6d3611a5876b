-- ===== src/Trap/Wakeup.antt =====
-- A guest starts a CPU: `psci_emulate_cpu_on` on its CPU, then the interrupt that this sends, on the
-- CPU that is started.
use sys_hyper.Base.{
  ℕ, ◌-◌, ◌*◌, ◌%◌, ◌^◌, ◌<◌, ◌≡◌, refl, true, ◌==◌, if◌then◌else◌, Bool-cases, inl, inr, some,
  List, [], ◌∷◌, get_elem?, set, ◌++◌, bit_or, arith, lt→ltb,
}
use sys_hyper.Base.Run.{Run, ok, err, panic, hang}
use sys_hyper.Event.{EventManager, add_event, send_event}
use sys_hyper.Irqchip.Gicd.{max_cpu_num}
use sys_hyper.Machine.{Machine, Stop, update}
use sys_hyper.Percpu.PerCpu.{PerCpu}
use sys_hyper.Trap.Psci.{psci_emulate_cpu_on, mpidr_to_cpuid, wake}

abbrev pub awake : ℕ → PerCpu → PerCpu
awake entry p = record p { cpu_on_entry = entry; arch_cpu = record p.arch_cpu { psci_on = true } }

-- The data of CPU `c` are its own, and it belongs to a zone.
pub record IsReady (c : ℕ) (p : PerCpu) : Type 0 where
  pub own_id : p.id ≡ c
  pub own_cpuid : p.arch_cpu.cpuid ≡ c
  pub zone_of : ℕ
  pub has_zone : p.zone ≡ some zone_of

module _ {Handler Gpm Device : Type 0} where
  -- The CPU that the guest of `me` asks for, and its data once it is woken.
  abbrev pub target_of : ℕ → Machine Handler Gpm Device → ℕ
  target_of me s = mpidr_to_cpuid ((s.core me).regs.usr 1)

  -- What the call does.
  abbrev pub Wakes :
      ℕ
      → EventManager
      → List ℕ
      → Machine Handler Gpm Device
      → Run Stop (Machine Handler Gpm Device) ℕ
      → Type 0
  Wakes me m q s (ok v s') =
      if (s.cpus (target_of me s)).arch_cpu.psci_on
      then (v ≡ 2 ^ 64 - 4) × (s' ≡ s)
      else (v ≡ 0)
        × (s' ≡ record s {
          cpus =
              update (target_of me s) (awake ((s.core me).regs.usr 2) (s.cpus (target_of me s)))
                s.cpus;
          events = record {
            manager = some (record { inner = set m.inner (target_of me s) (q ++ 0 ∷ []) });
            sent = bit_or (7 * 2 ^ 24 % 2 ^ 64) (2 ^ target_of me s) ∷ s.events.sent;
          };
        })
  Wakes me m q s (err e s') = ⊥
  Wakes me m q s panic = ⊥
  Wakes me m q s hang = ⊥

  wake-Wakes :
      (me : ℕ) (m : EventManager) (q : List ℕ) (s : Machine Handler Gpm Device)
      → s.events.manager ≡ some m
      → target_of me s < 64
      → get_elem? m.inner (target_of me s) ≡ some q
      → Wakes me m q s (psci_emulate_cpu_on me s)
  unfolding psci_emulate_cpu_on mpidr_to_cpuid wake send_event add_event
  wake-Wakes me m q s e small g = elim (Bool-cases (s.cpus (target_of me s)).arch_cpu.psci_on) [
    | inl on ↦ rw (on, on) (refl, refl)
    | inr off ↦ rw (off, e, g, lt→ltb (target_of me s) 64 small, off) (refl, refl)
  ]

  -- If the guest asks for one of the CPUs below MAX_CPU_NUM, and the event queues are set up with one
  -- for that CPU, the call returns. A CPU that is on already gives the error ALREADY_ON, -4, and
  -- nothing changes; another gets the entry point, is on, has the event WAKEUP behind those in its
  -- queue and is sent interrupt 7, and nothing else changes.
  pub psci_emulate_cpu_on-Wakes :
      (me : ℕ) (m : EventManager) (q : List ℕ) (s : Machine Handler Gpm Device)
      → s.events.manager ≡ some m
      → target_of me s < max_cpu_num
      → get_elem? m.inner (target_of me s) ≡ some q
      → Wakes me m q s (psci_emulate_cpu_on me s)
  psci_emulate_cpu_on-Wakes me m q s e small g = wake-Wakes me m q s e (omega arith) g

  -- CPU `c` has entered its guest at `entry`, with the device tree's address in register 0 and 0 in the
  -- others, and has deactivated interrupt 7.
  abbrev pub Enters : ℕ → ℕ → ℕ → List ℕ → Run Stop (Machine Handler Gpm Device) (Unit {0}) → Type 0
  Enters c entry dtb eoir (err Stop.runs u) =
      ((u.core c).elr ≡ entry)
      × ((u.core c).regs.usr ≡ (λ i. if i == 0 then dtb else 0))
      × ((u.core c).eoir ≡ 7 ∷ eoir)
      × ((u.cpus c).arch_cpu.psci_on ≡ true)
  Enters c entry dtb eoir (err Stop.idles u) = ⊥
  Enters c entry dtb eoir (err (Stop.hv_err e) u) = ⊥
  Enters c entry dtb eoir (ok a u) = ⊥
  Enters c entry dtb eoir panic = ⊥
  Enters c entry dtb eoir hang = ⊥
