-- ===== src/Boot.antt =====
-- The start of the CPUs (`rust_main` of src/main.rs) as steps of CPUs that interleave, up to the call of
-- `run_vm`: each step is one access to a counter or flag that the CPUs share, or a part of the start-up
-- that touches none. A CPU that waits goes on when it finds its condition, and spins while it does not:
-- such a round of a waiting loop is a step of a run that changes nothing.
pub mod Sum
pub mod Invariant
pub mod Safety
pub mod Progress
pub mod Rank
use sys_hyper.Base.{
  ℕ, ◌+◌, ◌<◌, ◌≡◌, ◌≢◌, Bool, true, false, ◌==◌, if◌then◌else◌, Option, none, some,
}
use sys_hyper.Irqchip.Gicd.{max_cpu_num}

-- Where a CPU is. `true` marks the primary CPU.
pub data Pc : Type 0 where
  off load_master store_master init_early init_late : Pc
  wake : ℕ → Pc
  enter wait_entered check_entered percpu_init wait_inited run_vm : Bool → Pc
  wait_early wait_late : Pc
  panicked : Pc

-- `MASTER_CPU`, `ENTERED_CPUS`, `INITED_CPUS`, `INIT_EARLY_OK`, `INIT_LATE_OK`, whether the root zone
-- exists, and where each CPU is.
pub record Boot : Type 0 where
  pub master : Option ℕ
  pub entered : ℕ
  pub inited : ℕ
  pub early : ℕ
  pub late : ℕ
  pub root_zone : Bool
  pub pc : ℕ → Pc

abbrev pub at : ℕ → Pc → (ℕ → Pc) → ℕ → Pc
at i p pc j = if j == i then p else pc j

-- `cpu_start` of the others: a CPU that runs already stays where it is.
unfoldable pub started : Pc → Pc
started Pc.off = Pc.load_master
started p = p

-- A round of the loop of `wakeup_secondary_cpus` on CPU `i`.
abbrev pub woken : ℕ → ℕ → (ℕ → Pc) → ℕ → Pc
woken i k pc = if k == i then pc else at k (started (pc k)) pc

-- After the assertion on `ENTERED_CPUS`.
abbrev pub after_entered : Bool → Pc
after_entered true = Pc.init_early
after_entered false = Pc.wait_early

abbrev pub after_inited : Bool → Pc
after_inited true = Pc.init_late
after_inited false = Pc.wait_late

-- The condition that `wait_for_counter` waits for.
abbrev pub Passed : ℕ → ℕ → Type 0
Passed counter max_value = counter < max_value → ⊥

-- The root zone is created before the flag is set.
abbrev pub primary_init_early : Boot → Boot
primary_init_early s = record s { root_zone = true; early = 1 }

abbrev pub primary_init_late : Boot → Boot
primary_init_late s = record s { late = 1 }

-- A step of CPU `i`, which is at `p`.
pub data Move (s : Boot) (i : ℕ) : Pc → Boot → Type 0 where
  load_none :
      s.master ≡ none → Move s i Pc.load_master (record s { pc = at i Pc.store_master s.pc })
  load_some :
      {m : ℕ}
      → s.master ≡ some m
      → Move s i Pc.load_master (record s { pc = at i (Pc.enter false) s.pc })
  elect : Move s i Pc.store_master (record s { master = some i; pc = at i (Pc.wake 0) s.pc })
  wake_one :
      {k : ℕ}
      → k < max_cpu_num
      → Move s i (Pc.wake k) (record s { pc = at i (Pc.wake (k + 1)) (woken i k s.pc) })
  woke_all :
      {k : ℕ}
      → Passed k max_cpu_num
      → Move s i (Pc.wake k) (record s { pc = at i (Pc.enter true) s.pc })
  count_entered :
      {b : Bool}
      → Move s i
          (Pc.enter b)
          (record s { entered = s.entered + 1; pc = at i (Pc.wait_entered b) s.pc })
  all_entered :
      {b : Bool}
      → Passed s.entered max_cpu_num
      → Move s i (Pc.wait_entered b) (record s { pc = at i (Pc.check_entered b) s.pc })
  assert_entered :
      {b : Bool}
      → s.entered ≡ max_cpu_num
      → Move s i (Pc.check_entered b) (record s { pc = at i (after_entered b) s.pc })
  too_many_entered :
      {b : Bool}
      → s.entered ≢ max_cpu_num
      → Move s i (Pc.check_entered b) (record s { pc = at i Pc.panicked s.pc })
  init_early :
      Move s i Pc.init_early
        (record (primary_init_early s) { pc = at i (Pc.percpu_init true) s.pc })
  early_ok :
      Passed s.early 1 → Move s i Pc.wait_early (record s { pc = at i (Pc.percpu_init false) s.pc })
  count_inited :
      {b : Bool}
      → Move s i
          (Pc.percpu_init b)
          (record s { inited = s.inited + 1; pc = at i (Pc.wait_inited b) s.pc })
  all_inited :
      {b : Bool}
      → Passed s.inited max_cpu_num
      → Move s i (Pc.wait_inited b) (record s { pc = at i (after_inited b) s.pc })
  init_late :
      Move s i Pc.init_late (record (primary_init_late s) { pc = at i (Pc.run_vm true) s.pc })
  late_ok : Passed s.late 1 → Move s i Pc.wait_late (record s { pc = at i (Pc.run_vm false) s.pc })

pub data Step (s : Boot) : Boot → Type 0 where
  pick : {t : Boot} (i : ℕ) → i < max_cpu_num → Move s i (s.pc i) t → Step s t

-- A round of a waiting loop whose condition does not let the CPU at this place go on.
pub data Spin (s : Boot) : Pc → Type 0 where
  spin_entered : {b : Bool} → s.entered < max_cpu_num → Spin s (Pc.wait_entered b)
  spin_early : s.early < 1 → Spin s Pc.wait_early
  spin_inited : {b : Bool} → s.inited < max_cpu_num → Spin s (Pc.wait_inited b)
  spin_late : s.late < 1 → Spin s Pc.wait_late

-- One CPU is on, and has not looked at `MASTER_CPU`.
abbrev pub init : ℕ → Boot
init first = record {
  master = none;
  entered = 0;
  inited = 0;
  early = 0;
  late = 0;
  root_zone = false;
  pc = λ j. if j == first then Pc.load_master else Pc.off;
}

-- The states that `n` steps lead to, with any number of rounds of the waiting loops between them.
pub data Reach (s : Boot) : ℕ → Boot → Type 0 where
  here : Reach s 0 s
  next : {n : ℕ} {t u : Boot} → Reach s n t → Step t u → Reach s (n + 1) u
  spin : {n : ℕ} {t : Boot} (i : ℕ) → Reach s n t → i < max_cpu_num → Spin t (t.pc i) → Reach s n t
