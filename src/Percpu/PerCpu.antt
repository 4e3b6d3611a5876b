-- ===== src/Percpu/PerCpu.antt =====
-- `PerCpu` of src/percpu.rs and `ArchCpu` of src/arch/aarch64/cpu.rs: the data of one CPU. A zone
-- is named by its address. `ctrl_lock`, a lock of no data, is left out.
use sys_hyper.Base.{ℕ, ◌-◌, ◌^◌, Bool, false, Option, none}

pub record ArchCpu : Type 0 where
  pub cpuid : ℕ
  pub psci_on : Bool

unfoldable pub new_arch : ℕ → ArchCpu
new_arch cpuid = record { cpuid = cpuid; psci_on = false }

abbrev pub invalid_address : ℕ
invalid_address = 2 ^ 64 - 1

pub record PerCpu : Type 0 where
  pub id : ℕ
  pub cpu_on_entry : ℕ
  pub dtb_ipa : ℕ
  pub arch_cpu : ArchCpu
  pub zone : Option ℕ
  pub boot_cpu : Bool

unfoldable pub new : ℕ → PerCpu
unfolding new_arch
new cpu_id = record {
  id = cpu_id;
  cpu_on_entry = invalid_address;
  dtb_ipa = invalid_address;
  arch_cpu = new_arch cpu_id;
  zone = none;
  boot_cpu = false;
}
