-- ===== src/Boot/Safety.antt =====
-- What the start-up never does.
use sys_hyper.Base.{
  ℕ, ◌<◌, ◌≡◌, ◌≢◌, refl, sym, Bool, true, false, inl, inr, arith, ◌==◌, Bool-cases,
}
use sys_hyper.Boot.{Pc, Boot, Reach, init}
use sys_hyper.Boot.Sum.{le-sum}
use sys_hyper.Boot.Invariant.{Alone, Together, set_early, set_late}
use sys_hyper.Boot.Invariant.Moves.{Reach-Inv, has_started, elsewhere}
use sys_hyper.Irqchip.Gicd.{max_cpu_num}

-- All CPUs have started, both flags are set and the root zone exists.
abbrev pub Ready : Boot → Type 0
Ready s =
    (s.root_zone ≡ true)
    × (s.entered ≡ max_cpu_num)
    × (s.inited ≡ max_cpu_num)
    × (s.early ≢ 0)
    × (s.late ≢ 0)

module _ (s : Boot) (j : ℕ) (lt : j < 4) where
  Together-Ready : (b : Bool) → Together s → s.pc j ≡ Pc.run_vm b → Ready s
  Together-Ready true v e =
      let (en, u, n, w) = rw e at (v.good j lt) in
      let early : s.early ≢ 0 =
        let a = rw e at (le-sum set_early 4 j s.pc lt) in λ h. omega (arith, v.early_count) in
      let late : s.late ≢ 0 =
        let a = rw e at (le-sum set_late 4 j s.pc lt) in λ h. omega (arith, v.late_count) in
      (v.zone_ready early, en, n, early, late)
  Together-Ready false v e =
      let (en, early, n, late) = rw e at (v.good j lt) in (v.zone_ready early, en, n, early, late)

  Alone-waits : (p : Pc) → Alone s → s.pc j ≡ p → has_started p ≡ true → ⊥
  Alone-waits p v e h = elim (Bool-cases (j == v.first)) [
    | inl me ↦ elsewhere s j lt v (ground arith) p e h
    | inr other ↦
        let ne : j ≢ v.first = λ q. ground arith in let h' = rw (sym e, v.asleep j ne) at h in cc h'
  ]

module _ (first n : ℕ) (s : Boot) (below : first < 4) (r : Reach (init first) n s) (j : ℕ)
    (lt : j < 4) where
  -- However the CPUs interleave, a CPU that has come to `run_vm` finds the root zone created, all
  -- CPUs counted in `ENTERED_CPUS` and in `INITED_CPUS`, and both flags set.
  pub Reach-Ready : (b : Bool) → s.pc j ≡ Pc.run_vm b → Ready s
  Reach-Ready b e = elim (Reach-Inv below r) [
    | inl v ↦ absurd (Alone-waits s j lt (Pc.run_vm b) v e refl)
    | inr v ↦ Together-Ready s j lt b v e
  ]

  -- However the CPUs interleave, none fails the assertion on `ENTERED_CPUS`.
  pub Reach-no_panic : s.pc j ≢ Pc.panicked
  Reach-no_panic e = elim (Reach-Inv below r) [
    | inl v ↦ Alone-waits s j lt Pc.panicked v e refl
    | inr v ↦ rw e at (v.good j lt)
  ]
