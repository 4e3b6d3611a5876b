-- ===== src/Boot/Progress.antt =====
-- The start-up never gets stuck before every CPU has come to `run_vm`.
use sys_hyper.Base.{
  ℕ, ◌<◌, ◌≤◌, ◌≡◌, ◌≢◌, refl, ◌∙◌, Bool, true, false, ◌==◌, ltb, Bool-cases, inl, inr, ◌⊎◌, Option,
  none, some, arith,
}
use sys_hyper.Boot.{Pc, Boot, Move, Step, Reach, init}
use sys_hyper.Boot.Sum.{sum, sum_all, sum_compare, search_cpu}
use sys_hyper.Boot.Invariant.{
  Alone, Together, primary, has_entered, has_inited, set_early, set_late,
}
use sys_hyper.Boot.Invariant.Moves.{Reach-Inv}
use sys_hyper.Irqchip.Gicd.{max_cpu_num}

-- How far a CPU that may have to wait has come; 0 for one that always has a step.
abbrev phase : Pc → ℕ
phase (Pc.wait_entered b) = 1
phase Pc.wait_early = 2
phase (Pc.wait_inited b) = 3
phase Pc.wait_late = 4
phase (Pc.run_vm b) = 5
phase Pc.off = 6
phase Pc.panicked = 7
phase _ = 0

abbrev pub at_run_vm : Pc → ℕ
at_run_vm (Pc.run_vm b) = 1
at_run_vm _ = 0

load_Move :
    (s : Boot) (i : ℕ) (m : Option ℕ) → s.master ≡ m → (t : Boot) × Move s i Pc.load_master t
load_Move s i none e = (_, Move.load_none e)
load_Move s i (some m) e = (_, Move.load_some e)

check_Move :
    (s : Boot) (i : ℕ) (b : Bool)
    → ((s.entered == 4) ≡ true) ⊎ ((s.entered == 4) ≡ false)
    → (t : Boot) × Move s i (Pc.check_entered b) t
check_Move s i b (inl all) = (_, Move.assert_entered (ground arith))
check_Move s i b (inr other) = (_, Move.too_many_entered (λ q. ground arith))

free_Move : (s : Boot) (i : ℕ) (p : Pc) → phase p ≡ 0 → (t : Boot) × Move s i p t
free_Move s i Pc.load_master h = load_Move s i s.master refl
free_Move s i Pc.store_master h = (_, Move.elect)
free_Move s i (Pc.wake k) h = elim (Bool-cases (ltb k 4)) [
  | inl more ↦ (_, Move.wake_one (ground arith))
  | inr done ↦ (_, Move.woke_all (λ lt. absurd (ground (arith, done, lt))))
]
free_Move s i (Pc.enter b) h = (_, Move.count_entered)
free_Move s i (Pc.check_entered b) h = check_Move s i b (Bool-cases (s.entered == 4))
free_Move s i Pc.init_early h = (_, Move.init_early)
free_Move s i (Pc.percpu_init b) h = (_, Move.count_inited)
free_Move s i Pc.init_late h = (_, Move.init_late)
free_Move s i (Pc.wait_entered b) h = absurd (omega arith)
free_Move s i Pc.wait_early h = absurd (omega arith)
free_Move s i (Pc.wait_inited b) h = absurd (omega arith)
free_Move s i Pc.wait_late h = absurd (omega arith)
free_Move s i (Pc.run_vm b) h = absurd (omega arith)
free_Move s i Pc.off h = absurd (omega arith)
free_Move s i Pc.panicked h = absurd (omega arith)

-- What a CPU has passed, from the places that it may wait at.
module _ (p : Pc) (busy : (phase p == 0) ≡ false) where
  entered_one : (phase p == 6) ≡ false → has_entered p ≡ 1
  entered_one off = ground arith

  early_one : (phase p == 1) ≡ false → primary p ≤ set_early p
  early_one entering = ground arith

  module _ (entering : (phase p == 1) ≡ false) (early : (phase p == 2) ≡ false)
      (off : (phase p == 6) ≡ false) (fine : (phase p == 7) ≡ false) where
    inited_one : has_inited p ≡ 1
    inited_one = ground arith

    late_one : (phase p == 3) ≡ false → primary p ≤ set_late p
    late_one initing = ground arith

    run_vm_one : (phase p == 3) ≡ false → (phase p == 4) ≡ false → at_run_vm p ≡ 1
    run_vm_one initing late = ground arith

-- A CPU that waits goes on when its condition holds.
module _ (s : Boot) (i : ℕ) where
  enter_Move : (p : Pc) → (phase p == 1) ≡ true → s.entered ≡ 4 → (t : Boot) × Move s i p t
  enter_Move (Pc.wait_entered b) h all = (_, Move.all_entered (λ lt. absurd (omega arith)))
  enter_Move _ h all = absurd (cc h)

  early_Move : (p : Pc) → (phase p == 2) ≡ true → s.early ≢ 0 → (t : Boot) × Move s i p t
  early_Move Pc.wait_early h flag = (_, Move.early_ok (λ q. flag (omega arith)))
  early_Move _ h flag = absurd (cc h)

  inited_Move : (p : Pc) → (phase p == 3) ≡ true → s.inited ≡ 4 → (t : Boot) × Move s i p t
  inited_Move (Pc.wait_inited b) h all = (_, Move.all_inited (λ lt. absurd (omega arith)))
  inited_Move _ h all = absurd (cc h)

  late_Move : (p : Pc) → (phase p == 4) ≡ true → s.late ≢ 0 → (t : Boot) × Move s i p t
  late_Move Pc.wait_late h flag = (_, Move.late_ok (λ q. flag (omega arith)))
  late_Move _ h flag = absurd (cc h)

is_off : (p : Pc) → (phase p == 6) ≡ true → p ≡ Pc.off
is_off p h = ground arith

is_panicked : (p : Pc) → (phase p == 7) ≡ true → p ≡ Pc.panicked
is_panicked p h = ground arith

step_of : (s : Boot) (i : ℕ) → i < 4 → (t : Boot) × Move s i (s.pc i) t → (t : Boot) × Step s t
step_of s i lt (t, mv) = (t, Step.pick i lt mv)

-- Every CPU that is on waits, or has come to `run_vm`.
module _ (s : Boot) (v : Together s) (busy : (i : ℕ) → i < 4 → (phase (s.pc i) == 0) ≡ false) where
  off : (i : ℕ) → i < 4 → (phase (s.pc i) == 6) ≡ false
  off i lt = elim (Bool-cases (phase (s.pc i) == 6)) [
    | inl h ↦
        let (k, w, le) = v.asleep i lt (is_off (s.pc i) h) in
        let b = rw w at (busy v.leader v.leader_below) in absurd (cc b)
    | inr h ↦ h
  ]

  fine : (i : ℕ) → i < 4 → (phase (s.pc i) == 7) ≡ false
  fine i lt = elim (Bool-cases (phase (s.pc i) == 7)) [
    | inl h ↦ absurd (rw (is_panicked (s.pc i) h) at (v.good i lt))
    | inr h ↦ h
  ]

  entered_all : s.entered ≡ 4
  entered_all =
      v.entered_count
      ∙ sum_all has_entered 4 s.pc (λ i lt. entered_one (s.pc i) (busy i lt) (off i lt))

  module _ (entering : (i : ℕ) → i < 4 → (phase (s.pc i) == 1) ≡ false) where
    early_set : s.early ≢ 0
    early_set h =
        let m =
          sum_compare primary set_early 4 s.pc
            (λ i lt. early_one (s.pc i) (busy i lt) (entering i lt)) in
        omega (arith, v.early_count, v.one_primary)

    module _ (early : (i : ℕ) → i < 4 → (phase (s.pc i) == 2) ≡ false) where
      inited_all : s.inited ≡ 4
      inited_all =
          v.inited_count
          ∙ sum_all has_inited 4 s.pc (λ i lt.
            inited_one (s.pc i) (busy i lt) (entering i lt) (early i lt) (off i lt) (fine i lt))

      module _ (initing : (i : ℕ) → i < 4 → (phase (s.pc i) == 3) ≡ false) where
        late_set : s.late ≢ 0
        late_set h =
            let m = sum_compare primary set_late 4 s.pc (λ i lt.
              late_one (s.pc i) (busy i lt) (entering i lt) (early i lt) (off i lt) (fine i lt)
                (initing i lt)) in
            omega (arith, v.late_count, v.one_primary)

        last : ((t : Boot) × Step s t) ⊎ (sum at_run_vm 4 s.pc ≡ 4)
        last = elim (search_cpu (λ p. phase p == 4) 4 s.pc) [
          | inl (i, lt, h) ↦ inl (step_of s i lt (late_Move s i (s.pc i) h late_set))
          | inr late ↦ inr (
              sum_all at_run_vm 4 s.pc (λ i lt.
                run_vm_one (s.pc i) (busy i lt) (entering i lt) (early i lt) (off i lt) (fine i lt)
                  (initing i lt) (late i lt)))
        ]

      after_early : ((t : Boot) × Step s t) ⊎ (sum at_run_vm 4 s.pc ≡ 4)
      after_early = elim (search_cpu (λ p. phase p == 3) 4 s.pc) [
        | inl (i, lt, h) ↦ inl (step_of s i lt (inited_Move s i (s.pc i) h inited_all))
        | inr initing ↦ last initing
      ]

    after_entering : ((t : Boot) × Step s t) ⊎ (sum at_run_vm 4 s.pc ≡ 4)
    after_entering = elim (search_cpu (λ p. phase p == 2) 4 s.pc) [
      | inl (i, lt, h) ↦ inl (step_of s i lt (early_Move s i (s.pc i) h early_set))
      | inr early ↦ after_early early
    ]

  all_wait : ((t : Boot) × Step s t) ⊎ (sum at_run_vm 4 s.pc ≡ 4)
  all_wait = elim (search_cpu (λ p. phase p == 1) 4 s.pc) [
    | inl (i, lt, h) ↦ inl (step_of s i lt (enter_Move s i (s.pc i) h entered_all))
    | inr entering ↦ after_entering entering
  ]

Together-Progress : (s : Boot) → Together s → ((t : Boot) × Step s t) ⊎ (sum at_run_vm 4 s.pc ≡ 4)
Together-Progress s v = elim (search_cpu (λ p. phase p == 0) 4 s.pc) [
  | inl (i, lt, h) ↦ inl (step_of s i lt (free_Move s i (s.pc i) (ground (arith, h))))
  | inr busy ↦ all_wait s v busy
]

Alone-Progress : (s : Boot) → Alone s → (t : Boot) × Step s t
Alone-Progress s v =
    step_of s v.first v.below
      (free_Move s v.first (s.pc v.first) (elim v.place [ inl e ↦ rw e refl | inr e ↦ rw e refl ]))

-- However the CPUs interleave, in every state reached either some CPU has a step or all four have come
-- to `run_vm`: the barriers cannot block each other.
pub Reach-Progress :
    (first n : ℕ) (s : Boot)
    → first < 4
    → Reach (init first) n s
    → ((t : Boot) × Step s t) ⊎ (sum at_run_vm max_cpu_num s.pc ≡ max_cpu_num)
Reach-Progress first n s lt r = elim (Reach-Inv lt r) [
  | inl v ↦ inl (Alone-Progress s v)
  | inr v ↦ Together-Progress s v
]
