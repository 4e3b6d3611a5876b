-- ===== src/Boot/Rank.antt =====
-- How many steps the start-up takes, and that it ends.
use sys_hyper.Base.{
  ℕ, zero, suc, ◌+◌, ◌-◌, ◌<◌, ◌≤◌, ◌≡◌, refl, Bool, true, false, ◌==◌, Bool-cases, inl, inr, arith,
}
use sys_hyper.Boot.{
  Pc, Boot, Move, Step, Reach, at, woken, started, init, after_entered, after_inited,
}
use sys_hyper.Boot.Progress.{at_run_vm, Reach-Progress}
use sys_hyper.Boot.Sum.{sum, sum-at}
use sys_hyper.Irqchip.Gicd.{max_cpu_num}

-- The steps that a CPU has left at most, the rounds of the waiting loops not counted.
abbrev pub rank : Pc → ℕ
rank Pc.off = 15
rank Pc.load_master = 14
rank Pc.store_master = 13
rank (Pc.wake k) = 8 + (4 - k)
rank (Pc.enter b) = 7
rank (Pc.wait_entered b) = 6
rank (Pc.check_entered b) = 5
rank Pc.init_early = 4
rank Pc.wait_early = 4
rank (Pc.percpu_init b) = 3
rank (Pc.wait_inited b) = 2
rank Pc.init_late = 1
rank Pc.wait_late = 1
rank (Pc.run_vm b) = 0
rank Pc.panicked = 0

after_entered-rank : (b : Bool) → rank (after_entered b) ≡ 4
after_entered-rank true = refl
after_entered-rank false = refl

after_inited-rank : (b : Bool) → rank (after_inited b) ≡ 1
after_inited-rank true = refl
after_inited-rank false = refl

started-rank : (p : Pc) → rank (started p) ≤ rank p
unfolding started
started-rank p = ground arith

module _ (s : Boot) (i : ℕ) (lt : i < 4) where
  -- CPU `i` goes to a place of a lower rank.
  lower : (p q : Pc) → s.pc i ≡ p → rank q < rank p → sum rank 4 (at i q s.pc) < sum rank 4 s.pc
  lower p q e h = let x = rw e at (sum-at rank 4 i q s.pc lt) in omega arith

  woken-rank : (k : ℕ) → k < 4 → sum rank 4 (woken i k s.pc) ≤ sum rank 4 s.pc
  woken-rank k below = elim (Bool-cases (k == i)) [
    | inl here ↦ rw here (omega arith)
    | inr there ↦
        rw there
          (omega (arith, sum-at rank 4 k (started (s.pc k)) s.pc below, started-rank (s.pc k)))
  ]

  woken-me : (k : ℕ) → woken i k s.pc i ≡ s.pc i
  woken-me k = elim (Bool-cases (k == i)) [
    | inl here ↦ rw here refl
    | inr there ↦ let other : (i == k) ≡ false = ground arith in rw (there, other) refl
  ]

  Move-rank : {t : Boot} (p : Pc) → s.pc i ≡ p → Move s i p t → sum rank 4 t.pc < sum rank 4 s.pc
  Move-rank _ e (Move.load_none h) = lower _ _ e (omega arith)
  Move-rank _ e (Move.load_some h) = lower _ _ e (omega arith)
  Move-rank _ e Move.elect = lower _ _ e (omega arith)
  Move-rank _ e (Move.wake_one {k} h) =
      let x = rw (woken-me k, e) at (sum-at rank 4 i (Pc.wake (k + 1)) (woken i k s.pc) lt) in
      omega (arith, x, woken-rank k h)
  Move-rank _ e (Move.woke_all h) = lower _ _ e (omega arith)
  Move-rank _ e Move.count_entered = lower _ _ e (omega arith)
  Move-rank _ e (Move.all_entered h) = lower _ _ e (omega arith)
  Move-rank _ e (Move.assert_entered {b} h) = lower _ _ e (rw (after_entered-rank b) (omega arith))
  Move-rank _ e (Move.too_many_entered h) = lower _ _ e (omega arith)
  Move-rank _ e Move.init_early = lower _ _ e (omega arith)
  Move-rank _ e (Move.early_ok h) = lower _ _ e (omega arith)
  Move-rank _ e Move.count_inited = lower _ _ e (omega arith)
  Move-rank _ e (Move.all_inited {b} h) = lower _ _ e (rw (after_inited-rank b) (omega arith))
  Move-rank _ e Move.init_late = lower _ _ e (omega arith)
  Move-rank _ e (Move.late_ok h) = lower _ _ e (omega arith)

Step-rank : {s t : Boot} → Step s t → sum rank 4 t.pc < sum rank 4 s.pc
Step-rank {s} (Step.pick i lt mv) = Move-rank s i lt (s.pc i) refl mv

Reach-rank : {s : Boot} {n : ℕ} {t : Boot} → Reach s n t → n + sum rank 4 t.pc ≤ sum rank 4 s.pc
Reach-rank Reach.here = omega arith
Reach-rank (Reach.next r st) = omega (arith, Reach-rank r, Step-rank st)
Reach-rank (Reach.spin i r below sp) = Reach-rank r

init-rank : (first : ℕ) → first < 4 → sum rank 4 (init first).pc ≡ 59
unfolding sum
init-rank first lt = ground arith

-- A run can begin with a step.
before : {s t u : Boot} {n : ℕ} → Step s t → Reach t n u → Reach s (n + 1) u
before st Reach.here = Reach.next Reach.here st
before st (Reach.next r st') = Reach.next (before st r) st'
before st (Reach.spin i r below sp) = Reach.spin i (before st r) below sp

-- From a state after `n` steps, a run of so many more that there are 59 at most brings all CPUs to
-- `run_vm`.
abbrev pub Completes : ℕ → Boot → Type 0
Completes n s =
    (m : ℕ) × (t : Boot) × Reach s m t
    × (n + m ≤ 59)
    × (sum at_run_vm max_cpu_num t.pc ≡ max_cpu_num)

completed :
    (first fuel n : ℕ) (s : Boot)
    → first < 4
    → Reach (init first) n s
    → sum rank 4 s.pc ≤ fuel
    → Completes n s
completed first zero n s lt r h = elim (Reach-Progress first n s lt r) [
  | inl (t, st) ↦ absurd (omega (arith, Step-rank st))
  | inr all ↦ (0, s, Reach.here, omega (arith, Reach-rank r, init-rank first lt), all)
]
completed first (suc fuel) n s lt r h = elim (Reach-Progress first n s lt r) [
  | inl (t, st) ↦
      let (m, u, q, le, all) =
        completed first fuel (n + 1) t lt (Reach.next r st) (omega (arith, Step-rank st)) in
      (m + 1, u, before st q, omega arith, all)
  | inr all ↦ (0, s, Reach.here, omega (arith, Reach-rank r, init-rank first lt), all)
]

-- However the CPUs have interleaved, and however long they have spun, there is a run from the state
-- reached that brings all four CPUs to `run_vm`, in 59 steps at most from the beginning, the rounds of
-- the waiting loops not counted.
pub Reach-Completes : (first n : ℕ) (s : Boot) → first < 4 → Reach (init first) n s → Completes n s
Reach-Completes first n s lt r = completed first (sum rank 4 s.pc) n s lt r (omega arith)
