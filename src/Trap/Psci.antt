-- ===== src/Trap/Psci.antt =====
-- The SMC calls of a guest: the power state coordination interface that the hypervisor emulates
-- (src/arch/aarch64/trap.rs). The call of the firmware that turns the machine off, and the interrupt
-- that ends a suspension, are arguments.
use sys_hyper.Base.{ℕ, ◌-◌, ◌^◌, true, ◌==◌, ◌||◌, if◌then◌else◌, List, [], ◌∷◌, bit_and}
use sys_hyper.Base.Run.{◌>>=◌, ◌>>◌, pure, get, panics, unwrap}
use sys_hyper.Event.{send_event, ipi_event_wakeup, ipi_event_shutdown}
use sys_hyper.Machine.{
  MachineM, usr, set_usr, set_cpu, leave_zone, this_zone, is_this_root_zone, on_events, on_zones,
}
use sys_hyper.Machine.Guest.{idle}
use sys_hyper.Machine.Interrupts.{sgi_ipi_id, gicv3_handle_irq_el1}
use sys_hyper.Percpu.CpuSet.{iter_except}
use sys_hyper.Trap.Syndrome.{Syndrome, arch_skip_instruction}
use sys_hyper.Zone.ZoneList.{remove_zone}

abbrev smc_type_mask : ℕ
smc_type_mask = 0x3F000000

abbrev arch_sc : ℕ
arch_sc = 0x0

abbrev standard_sc : ℕ
standard_sc = 0x4000000

abbrev psci_version_1_1 : ℕ
psci_version_1_1 = 0x10001

abbrev psci_tos_not_present_mp : ℕ
psci_tos_not_present_mp = 2

abbrev arm_smccc_version_1_0 : ℕ
arm_smccc_version_1_0 = 0x10000

abbrev pub psci_version : ℕ
psci_version = 0x84000000

abbrev pub psci_cpu_suspend_32 : ℕ
psci_cpu_suspend_32 = 0x84000001

abbrev pub psci_cpu_off_32 : ℕ
psci_cpu_off_32 = 0x84000002

abbrev pub psci_cpu_on_32 : ℕ
psci_cpu_on_32 = 0x84000003

abbrev pub psci_affinity_info_32 : ℕ
psci_affinity_info_32 = 0x84000004

abbrev pub psci_mig_info_type : ℕ
psci_mig_info_type = 0x84000006

abbrev pub psci_system_off : ℕ
psci_system_off = 0x84000008

abbrev pub psci_features : ℕ
psci_features = 0x8400000a

abbrev pub psci_cpu_suspend_64 : ℕ
psci_cpu_suspend_64 = 0xc4000001

abbrev pub psci_cpu_off_64 : ℕ
psci_cpu_off_64 = 0xc4000002

abbrev pub psci_cpu_on_64 : ℕ
psci_cpu_on_64 = 0xc4000003

abbrev pub psci_affinity_info_64 : ℕ
psci_affinity_info_64 = 0xc4000004

abbrev pub smccc_version : ℕ
smccc_version = 0x80000000

abbrev pub smccc_arch_features : ℕ
smccc_arch_features = 0x80000001

-- `!0`
abbrev pub all_ones : ℕ
all_ones = 2 ^ 64 - 1

unfoldable pub mpidr_to_cpuid : ℕ → ℕ
mpidr_to_cpuid mpidr = bit_and mpidr 0xff00ffffff

unfoldable pub psci_emulate_features_info : ℕ → ℕ
psci_emulate_features_info code =
    if code == psci_version
      || code == psci_cpu_suspend_32
      || code == psci_cpu_suspend_64
      || code == psci_cpu_off_32
      || code == psci_cpu_on_32
      || code == psci_cpu_on_64
      || code == psci_affinity_info_32
      || code == psci_affinity_info_64
      || code == psci_features
      || code == smccc_version
    then 0
    else all_ones

unfoldable pub handle_arch_smc : ℕ → ℕ
handle_arch_smc code =
    if code == smccc_version
    then arm_smccc_version_1_0
    else if code == smccc_arch_features
    then all_ones
    else all_ones

module _ {Handler Gpm Device : Type 0} where
  -- The CPU that is asked for, and the entry point that it is given.
  unfoldable pub wake : ℕ → ℕ → MachineM Handler Gpm Device ℕ
  unfolding send_event
  wake cpu entry = do
    s ← get
    set_cpu cpu (record (s.cpus cpu) {
      cpu_on_entry = entry;
      arch_cpu = record (s.cpus cpu).arch_cpu { psci_on = true };
    })
    on_events (send_event cpu sgi_ipi_id ipi_event_wakeup)
    pure 0

  -- `get_cpu_data` does not check the number. At MAX_CPU_NUM and above it gives memory outside the
  -- array of per-CPU data, which is undefined in the code; there `cpus` stands for whatever lies there.
  unfoldable pub psci_emulate_cpu_on : ℕ → MachineM Handler Gpm Device ℕ
  unfolding mpidr_to_cpuid wake
  psci_emulate_cpu_on me = do
    target ← usr me 1
    entry ← usr me 2
    s ← get
    if (s.cpus (mpidr_to_cpuid target)).arch_cpu.psci_on
        then pure (all_ones - 3)
        else wake (mpidr_to_cpuid target) entry

  unfoldable pub shut_down : List ℕ → MachineM Handler Gpm Device (Unit {0})
  unfolding leave_zone send_event
  shut_down [] = pure tt
  shut_down (cpu ∷ cpus) = do
    leave_zone cpu
    on_events (send_event cpu sgi_ipi_id ipi_event_shutdown)
    shut_down cpus

  module _ (system_off : MachineM Handler Gpm Device (Unit {0})) where
    unfoldable pub psci_emulate_system_off : ℕ → MachineM Handler Gpm Device ℕ
    unfolding shut_down is_this_root_zone leave_zone remove_zone idle iter_except
    psci_emulate_system_off me = do
      zone ← this_zone me
      s ← get
      let zone_id = (s.zones.zone zone).id
      is_root ← is_this_root_zone me
      others ← unwrap (iter_except (s.cpus me).id (s.zones.zone zone).cpu_set)
      shut_down others
      leave_zone me
      on_zones (remove_zone zone_id)
      if is_root then system_off else pure tt
      idle me

    unfoldable pub handle_psci_smc : ((ℕ → ℕ) → ℕ) → ℕ → ℕ → ℕ → ℕ → MachineM Handler Gpm Device ℕ
    unfolding psci_emulate_features_info psci_emulate_cpu_on psci_emulate_system_off
        gicv3_handle_irq_el1
    handle_psci_smc elrsr iar me code arg0 =
        if code == psci_version
        then pure psci_version_1_1
        else if code == psci_cpu_suspend_32 || code == psci_cpu_suspend_64
        then gicv3_handle_irq_el1 elrsr me iar >> pure 0
        else if code == psci_cpu_off_32 || code == psci_cpu_off_64
        then panics
        else if code == psci_affinity_info_32 || code == psci_affinity_info_64
        then (get >>= λ s. pure (if (s.cpus arg0).arch_cpu.psci_on then 0 else 1))
        else if code == psci_mig_info_type
        then pure psci_tos_not_present_mp
        else if code == psci_features
        then (usr me 1 >>= λ feature. pure (psci_emulate_features_info feature))
        else if code == psci_cpu_on_32 || code == psci_cpu_on_64
        then psci_emulate_cpu_on me
        else if code == psci_system_off
        then psci_emulate_system_off me
        else pure 0

    unfoldable pub handle_smc :
        ((ℕ → ℕ) → ℕ) → ℕ → Syndrome → ℕ → MachineM Handler Gpm Device (Unit {0})
    unfolding handle_arch_smc handle_psci_smc arch_skip_instruction
    handle_smc elrsr iar syndrome me = do
      code ← usr me 0
      arg0 ← usr me 1
      let service = bit_and code smc_type_mask
      result ←
          if service == arch_sc
          then pure (handle_arch_smc code)
          else if service == standard_sc
          then handle_psci_smc elrsr iar me code arg0
          else pure 0
      set_usr me 0 result
      arch_skip_instruction syndrome me
