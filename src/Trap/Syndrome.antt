-- ===== src/Trap/Syndrome.antt =====
-- What the hardware says of a trap, and the return past the instruction that trapped
-- (`arch_skip_instruction` of src/arch/aarch64/trap.rs).
use sys_hyper.Base.{ℕ, ◌==◌, if◌then◌else◌}
use sys_hyper.Base.Run.{◌>>=◌, get, checked_add}
use sys_hyper.Machine.{MachineM, set_core}

-- The values of `ESR_EL2::EC` that the handlers name.
pub data ExceptionClass : Type 0 where
  hvc64 smc64 trapped_msr_mrs data_abort_lower_el instr_abort_lower_el other : ExceptionClass

-- `ESR_EL2` with its fields EC, IL and ISS, `FAR_EL2` and `HPFAR_EL2`.
pub record Syndrome : Type 0 where
  pub esr : ℕ
  pub ec : ExceptionClass
  pub il : ℕ
  pub iss : ℕ
  pub far : ℕ
  pub hpfar : ℕ

module _ {Handler Gpm Device : Type 0} where
  unfoldable pub arch_skip_instruction : Syndrome → ℕ → MachineM Handler Gpm Device (Unit {0})
  arch_skip_instruction syndrome me = do
    s ← get
    let ins = if syndrome.il == 0 then 2 else if syndrome.il == 1 then 4 else 0
    pc ← checked_add (s.core me).elr ins
    set_core me (record (s.core me) { elr = pc })
