-- ===== src/Machine.antt =====
-- The state that the CPUs of the machine share, and that of each CPU: what the handlers of traps,
-- interrupts and hypercalls read and change. A CPU is named by its number, and `cpus` holds its
-- `PerCpu` (src/percpu.rs); `core` holds the guest's registers (`GeneralRegisters` of
-- src/arch/aarch64/cpu.rs) and the system registers that are banked for each CPU.
pub mod Guest
pub mod Interrupts
pub mod Update
pub mod NewZone
pub mod VirtioAccess
use sys_hyper.Base.{
  ℕ, ◌+◌, ◌-◌, Bool, ◌==◌, if◌then◌else◌, Option, none, some, List, [], ◌∷◌, ltb, arith,
}
use sys_hyper.Base.Run.{M, Run, ok, err, panic, hang, ◌>>=◌, ◌>>◌, pure, get, put, unwrap, assert}
use sys_hyper.Error.{HvErrorNum}
use sys_hyper.Event
use sys_hyper.Event.{Events}
use sys_hyper.Irqchip.Gicd.{Gic}
use sys_hyper.Irqchip.ListRegisters.{VirtualInterface}
use sys_hyper.Percpu.PerCpu.{PerCpu}
use sys_hyper.Virtio.Bridge.{VirtioBridgeRegion}
use sys_hyper.Zone.ZoneList.{Zone, Zones, count_set}

pub record GeneralRegisters : Type 0 where
  pub exit_reason : ℕ
  pub usr : ℕ → ℕ

unfoldable pub clear_regs : GeneralRegisters → GeneralRegisters
clear_regs r = record { exit_reason = 0; usr = λ i. 0 }

-- The registers `elr_el2`, `ich_*_el2`, and what was written to `icc_eoir1_el1`, `icc_dir_el1`, last
-- first.
pub record Core : Type 0 where
  pub regs : GeneralRegisters
  pub elr : ℕ
  pub interface : VirtualInterface
  pub eoir : List ℕ
  pub dir : List ℕ

module _ (Handler Gpm Device : Type 0) where
  pub record Machine : Type 0 where
    pub cpus : ℕ → PerCpu
    pub core : ℕ → Core
    pub zones : Zones Handler Gpm
    pub events : Events
    pub virtio_irqs : ℕ → Option (List ℕ)
    pub bridge : VirtioBridgeRegion
    pub gic : Option Gic
    pub timer_interrupt_counter : ℕ
    pub device : Device

-- How an operation that does not return a value ends: with an error of `HvResult`, or, for those that
-- leave by `vmreturn`, with the guest running, or with the CPU parked.
pub data Stop : Type 0 where
  hv_err : HvErrorNum → Stop
  runs idles : Stop

abbrev pub MachineM : Type 0 → Type 0 → Type 0 → Type 0 → Type 0
MachineM Handler Gpm Device A = M Stop (Machine Handler Gpm Device) A

-- A table of values with one changed.
abbrev pub update {ℓ} : {A : Type ℓ} → ℕ → A → (ℕ → A) → ℕ → A
update k v f i = if i == k then v else f i

module _ {Handler Gpm : Type 0} where
  -- The drop of a reference to a zone.
  abbrev pub released : Option ℕ → Zones Handler Gpm → Zones Handler Gpm
  released none z = z
  released (some a) z = record z {
    strong_count = count_set a (z.strong_count a - 1) z.strong_count;
  }

abbrev pub first_zone : List ℕ → Option ℕ
first_zone [] = none
first_zone (z ∷ zs) = some z

module _ {E S T A : Type 0} where
  abbrev pub lifted : (T → S) → Run E T A → Run E S A
  lifted back (ok a t) = ok a (back t)
  lifted back (err e t) = err e (back t)
  lifted back panic = panic
  lifted back hang = hang

module _ {Handler Gpm Device : Type 0} where
  module _ {A : Type 0} where
    -- Operations of a part of the machine.
    abbrev pub on_events : M Stop Events A → MachineM Handler Gpm Device A
    on_events m s = lifted (λ t. record s { events = t }) (m s.events)

    abbrev pub on_zones : M Stop (Zones Handler Gpm) A → MachineM Handler Gpm Device A
    on_zones m s = lifted (λ t. record s { zones = t }) (m s.zones)

    abbrev pub on_interface : ℕ → M Stop VirtualInterface A → MachineM Handler Gpm Device A
    on_interface me m s =
        lifted (λ t. record s { core = update me (record (s.core me) { interface = t }) s.core })
          (m (s.core me).interface)

  abbrev pub set_cpu : ℕ → PerCpu → MachineM Handler Gpm Device (Unit {0})
  set_cpu cpu p s = ok tt (record s { cpus = update cpu p s.cpus })

  abbrev pub set_core : ℕ → Core → MachineM Handler Gpm Device (Unit {0})
  set_core cpu c s = ok tt (record s { core = update cpu c s.core })

  -- `regs.usr[i]`, read and written.
  abbrev pub usr : ℕ → ℕ → MachineM Handler Gpm Device ℕ
  usr me i s = if ltb i 31 then ok ((s.core me).regs.usr i) s else panic

  abbrev pub set_usr : ℕ → ℕ → ℕ → MachineM Handler Gpm Device (Unit {0})
  set_usr me i v s = if ltb i 31 then set_core me written s else panic
    where
      written : Core
      written = record (s.core me) {
        regs = record (s.core me).regs { usr = update i v (s.core me).regs.usr };
      }

  -- `get_cpu_data(cpu).zone = None`
  unfoldable pub leave_zone : ℕ → MachineM Handler Gpm Device (Unit {0})
  leave_zone cpu s = ok tt (record s {
    zones = released (s.cpus cpu).zone s.zones;
    cpus = update cpu (record (s.cpus cpu) { zone = none }) s.cpus;
  })

  -- `this_zone()`, the address of the zone; the reference is dropped by its users.
  abbrev pub this_zone : ℕ → MachineM Handler Gpm Device ℕ
  this_zone me s = unwrap (s.cpus me).zone s

  -- `is_this_root_zone`
  unfoldable pub is_this_root_zone : ℕ → MachineM Handler Gpm Device Bool
  is_this_root_zone me = do
    zone ← this_zone me
    s ← get
    root ← unwrap (first_zone s.zones.zone_list)
    pure (zone == root)
