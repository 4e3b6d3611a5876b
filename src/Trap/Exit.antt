-- ===== src/Trap/Exit.antt =====
-- `arch_handle_exit` of src/arch/aarch64/trap.rs: what a CPU does when it leaves its guest. A guest's
-- trap is handled by its class; the traps that the code does not know, and those of the hypervisor
-- itself, end in an endless loop.
use sys_hyper.Base.{ℕ, ◌/◌, ◌^◌, ◌==◌, if◌then◌else◌, bit_and, ◌∷◌}
use sys_hyper.Base.Run.{M, Run, ok, err, panic, hang, ◌>>=◌, ◌>>◌, pure, get, put}
use sys_hyper.Error.{HvErrorNum, code}
use sys_hyper.Machine.{Machine, MachineM, Stop, usr, set_usr}
use sys_hyper.Machine.Interrupts.{gicv3_handle_irq_el1}
use sys_hyper.Memory.Mmio.{MmioAccess}
use sys_hyper.Trap.DataAbort.{handle_dabt}
use sys_hyper.Trap.Psci.{handle_smc}
use sys_hyper.Trap.Syndrome.{Syndrome, ExceptionClass, arch_skip_instruction}

abbrev exit_reason_el2_abort : ℕ
exit_reason_el2_abort = 0x0

abbrev exit_reason_el2_irq : ℕ
exit_reason_el2_irq = 0x1

abbrev pub exit_reason_el1_abort : ℕ
exit_reason_el1_abort = 0x2

abbrev pub exit_reason_el1_irq : ℕ
exit_reason_el1_irq = 0x3

module _ {Handler Gpm Device : Type 0} where
  -- A guest's write to `icc_sgi1r_el1`: it is sent only if the CPU has been started.
  unfoldable pub handle_sysreg : Syndrome → ℕ → MachineM Handler Gpm Device (Unit {0})
  unfolding arch_skip_instruction
  handle_sysreg syndrome me = do
    val ← usr me (bit_and (syndrome.esr / 2 ^ 5) 0x1f)
    s ← get
    (if (s.cpus me).arch_cpu.psci_on
        then put (record s { events = record s.events { sent = val ∷ s.events.sent } })
        else pure tt)
    arch_skip_instruction syndrome me

  abbrev answered :
      Run Stop (Machine Handler Gpm Device) ℕ → Run Stop (Machine Handler Gpm Device) ℕ
  answered (ok a s) = ok a s
  answered (err (Stop.hv_err e) s) = ok (code e) s
  answered (err Stop.runs s) = err Stop.runs s
  answered (err Stop.idles s) = err Stop.idles s
  answered panic = panic
  answered hang = hang

  -- `hypercall` is the dispatch of src/hypercall/mod.rs at its environment.
  unfoldable pub handle_hvc :
      (ℕ → ℕ → ℕ → MachineM Handler Gpm Device ℕ) → ℕ → MachineM Handler Gpm Device (Unit {0})
  unfolding code
  handle_hvc hypercall me = do
    number ← usr me 0
    arg0 ← usr me 1
    result ← λ s. answered (hypercall me number arg0 s)
    set_usr me 0 result

  abbrev hangs : MachineM Handler Gpm Device (Unit {0})
  hangs s = hang

  module _ (call : Handler → MmioAccess → ℕ → M HvErrorNum (Machine Handler Gpm Device) MmioAccess)
      (hypercall : ℕ → ℕ → ℕ → MachineM Handler Gpm Device ℕ)
      (system_off : MachineM Handler Gpm Device (Unit {0})) (elrsr : (ℕ → ℕ) → ℕ) where
    abbrev by_class : ExceptionClass → ℕ → Syndrome → ℕ → MachineM Handler Gpm Device (Unit {0})
    by_class ExceptionClass.hvc64 iar syndrome me = handle_hvc hypercall me
    by_class ExceptionClass.smc64 iar syndrome me = handle_smc system_off elrsr iar syndrome me
    by_class ExceptionClass.trapped_msr_mrs iar syndrome me = handle_sysreg syndrome me
    by_class ExceptionClass.data_abort_lower_el iar syndrome me = handle_dabt call syndrome me
    by_class ExceptionClass.instr_abort_lower_el iar syndrome me = hangs
    by_class ExceptionClass.other iar syndrome me = hangs

    unfoldable pub arch_handle_trap_el1 : ℕ → Syndrome → ℕ → MachineM Handler Gpm Device (Unit {0})
    unfolding handle_hvc handle_smc handle_sysreg handle_dabt
    arch_handle_trap_el1 iar syndrome me = by_class syndrome.ec iar syndrome me

    -- `ok` is the return to the guest by `vmreturn`.
    unfoldable pub arch_handle_exit : ℕ → Syndrome → ℕ → MachineM Handler Gpm Device (Unit {0})
    unfolding arch_handle_trap_el1 gicv3_handle_irq_el1
    arch_handle_exit iar syndrome me s =
        if (s.core me).regs.exit_reason == exit_reason_el1_irq
        then gicv3_handle_irq_el1 elrsr me iar s
        else if (s.core me).regs.exit_reason == exit_reason_el1_abort
        then arch_handle_trap_el1 iar syndrome me s
        else hang
