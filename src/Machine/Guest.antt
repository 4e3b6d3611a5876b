-- ===== src/Machine/Guest.antt =====
-- A CPU enters its guest or is parked: `run` and `idle` of src/arch/aarch64/cpu.rs. Both leave by
-- `vmreturn`. The memory set that a parked CPU runs in, and the system registers that are reset to
-- fixed values, are left out.
use sys_hyper.Base.{ℕ, true, false, ◌==◌}
use sys_hyper.Base.Run.{◌>>=◌, ◌>>◌, fail, get, assert}
use sys_hyper.Machine.{MachineM, Stop, clear_regs, update, set_cpu, set_core, this_zone}

module _ {Handler Gpm Device : Type 0} where
  -- `reset`
  unfoldable pub reset : ℕ → ℕ → ℕ → MachineM Handler Gpm Device (Unit {0})
  unfolding clear_regs
  reset me entry dtb = do
    s ← get
    let regs = clear_regs (s.core me).regs
    set_core me
        (record (s.core me) { elr = entry; regs = record regs { usr = update 0 dtb regs.usr } })

  unfoldable pub run : {A : Type 0} → ℕ → MachineM Handler Gpm Device A
  unfolding reset
  run me = do
    s ← get
    assert (me == (s.cpus me).arch_cpu.cpuid)
    this_zone me
    reset me (s.cpus me).cpu_on_entry (s.cpus me).dtb_ipa
    set_cpu me (record (s.cpus me) { arch_cpu = record (s.cpus me).arch_cpu { psci_on = true } })
    fail Stop.runs

  unfoldable pub idle : {A : Type 0} → ℕ → MachineM Handler Gpm Device A
  unfolding reset
  idle me = do
    s ← get
    assert (me == (s.cpus me).arch_cpu.cpuid)
    set_cpu me (record (s.cpus me) { arch_cpu = record (s.cpus me).arch_cpu { psci_on = false } })
    reset me 0 (s.cpus me).dtb_ipa
    fail Stop.idles
