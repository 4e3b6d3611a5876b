-- ===== src/Tests/Boot.antt =====
-- A run of the start-up on four CPUs, with CPU 1 as the primary, and what the theorems say of it.
use sys_hyper.Base.{ℕ, ◌+◌, ◌<◌, ◌≡◌, ◌≢◌, refl, true, ◌⊎◌, arith}
use sys_hyper.Boot.{Pc, Boot, Move, Step, Spin, Reach, init, started}
use sys_hyper.Boot.Sum.{sum}
use sys_hyper.Boot.Safety.{Ready, Reach-Ready, Reach-no_panic}
use sys_hyper.Boot.Progress.{at_run_vm, Reach-Progress}
use sys_hyper.Boot.Rank.{Completes, Reach-Completes}
use sys_hyper.Irqchip.Gicd.{max_cpu_num}

below_0 : 0 < 4
below_0 = omega arith

below_1 : 1 < 4
below_1 = omega arith

below_2 : 2 < 4
below_2 = omega arith

below_3 : 3 < 4
below_3 = omega arith

none_left : 4 < 4 → ⊥
none_left h = absurd (omega arith)

is_set : 1 < 1 → ⊥
is_set h = absurd (omega arith)

module _ {s : Boot} {n : ℕ} {t u : Boot} (r : Reach s n t) where
  cpu_0 : Move t 0 (t.pc 0) u → Reach s (n + 1) u
  cpu_0 mv = Reach.next r (Step.pick 0 below_0 mv)

  cpu_1 : Move t 1 (t.pc 1) u → Reach s (n + 1) u
  cpu_1 mv = Reach.next r (Step.pick 1 below_1 mv)

  cpu_2 : Move t 2 (t.pc 2) u → Reach s (n + 1) u
  cpu_2 mv = Reach.next r (Step.pick 2 below_2 mv)

  cpu_3 : Move t 3 (t.pc 3) u → Reach s (n + 1) u
  cpu_3 mv = Reach.next r (Step.pick 3 below_3 mv)

-- To the step in which the primary comes to `run_vm`; CPU 0 spins once for the others.
abbrev boot_run : (t : Boot) × Reach (init 1) 32 t
unfolding started
boot_run = (
  _,
  let r1 = cpu_1 Reach.here (Move.load_none refl) in
      let r2 = cpu_1 r1 Move.elect in
      let r3 = cpu_1 r2 (Move.wake_one below_0) in
      let r4 = cpu_1 r3 (Move.wake_one below_1) in
      let r5 = cpu_1 r4 (Move.wake_one below_2) in
      let r6 = cpu_1 r5 (Move.wake_one below_3) in
      let r7 = cpu_1 r6 (Move.woke_all none_left) in
      let r8 = cpu_0 r7 (Move.load_some refl) in
      let r9 = cpu_2 r8 (Move.load_some refl) in
      let r10 = cpu_3 r9 (Move.load_some refl) in
      let r11 = cpu_0 r10 Move.count_entered in
      let r12 = Reach.spin 0 r11 below_0 (Spin.spin_entered below_1) in
      let r13 = cpu_1 r12 Move.count_entered in
      let r14 = cpu_2 r13 Move.count_entered in
      let r15 = cpu_3 r14 Move.count_entered in
      let r16 = cpu_0 r15 (Move.all_entered none_left) in
      let r17 = cpu_0 r16 (Move.assert_entered refl) in
      let r18 = cpu_1 r17 (Move.all_entered none_left) in
      let r19 = cpu_1 r18 (Move.assert_entered refl) in
      let r20 = cpu_2 r19 (Move.all_entered none_left) in
      let r21 = cpu_2 r20 (Move.assert_entered refl) in
      let r22 = cpu_3 r21 (Move.all_entered none_left) in
      let r23 = cpu_3 r22 (Move.assert_entered refl) in
      let r24 = cpu_1 r23 Move.init_early in
      let r25 = cpu_0 r24 (Move.early_ok is_set) in
      let r26 = cpu_2 r25 (Move.early_ok is_set) in
      let r27 = cpu_3 r26 (Move.early_ok is_set) in
      let r28 = cpu_0 r27 Move.count_inited in
      let r29 = cpu_1 r28 Move.count_inited in
      let r30 = cpu_2 r29 Move.count_inited in
      let r31 = cpu_3 r30 Move.count_inited in
      let r32 = cpu_1 r31 (Move.all_inited none_left) in let r33 = cpu_1 r32 Move.init_late in r33,
)

Reach-Progress_example :
    ((t : Boot) × Step boot_run.0 t) ⊎ (sum at_run_vm max_cpu_num boot_run.0.pc ≡ max_cpu_num)
Reach-Progress_example = Reach-Progress 1 32 boot_run.0 below_1 boot_run.1

Reach-Completes_example : Completes 32 boot_run.0
Reach-Completes_example = Reach-Completes 1 32 boot_run.0 below_1 boot_run.1

Reach-Ready_example : Ready boot_run.0
unfolding boot_run
Reach-Ready_example = Reach-Ready 1 32 boot_run.0 below_1 boot_run.1 1 below_1 true refl

Reach-no_panic_example : boot_run.0.pc 2 ≢ Pc.panicked
Reach-no_panic_example = Reach-no_panic 1 32 boot_run.0 below_1 boot_run.1 2 below_2
