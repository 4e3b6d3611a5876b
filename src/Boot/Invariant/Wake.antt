-- ===== src/Boot/Invariant/Wake.antt =====
-- The rounds of `wakeup_secondary_cpus` (src/main.rs) keep the invariant.
use sys_hyper.Base.{
  ℕ, ◌+◌, ◌<◌, ◌≡◌, ◌≢◌, refl, sym, ◌∙◌, true, false, ◌==◌, Bool-cases, inl, inr, arith,
}
use sys_hyper.Boot.{Pc, Boot, at, woken, started}
use sys_hyper.Boot.Invariant.{
  Together, Good, moved_while, Asleep, primary, has_entered, has_inited, set_early, set_late,
}

wake_inj : (k k' : ℕ) → Pc.wake k ≡ Pc.wake k' → k ≡ k'
wake_inj k k' e = cc e

-- `cpu_start` leaves a CPU that is on as it is, and puts one that is off at the start.
started-on : (p : Pc) → started p ≢ Pc.off
unfolding started
started-on p = ground arith

started-wake : (p : Pc) (k : ℕ) → started p ≡ Pc.wake k → p ≡ Pc.wake k
unfolding started
started-wake p k e = ground (arith, e)

started-primary : (p : Pc) → primary (started p) ≡ primary p
unfolding started
started-primary p = ground arith

started-entered : (p : Pc) → has_entered (started p) ≡ has_entered p
unfolding started
started-entered p = ground arith

started-inited : (p : Pc) → has_inited (started p) ≡ has_inited p
unfolding started
started-inited p = ground arith

started-early : (p : Pc) → set_early (started p) ≡ set_early p
unfolding started
started-early p = ground arith

started-late : (p : Pc) → set_late (started p) ≡ set_late p
unfolding started
started-late p = ground arith

started-Good : (e n y l : ℕ) (p : Pc) → Good e n y l p → Good e n y l (started p)
unfolding started
started-Good e n y l p g = ground (arith, g)

module _ (s : Boot) (i : ℕ) (lt : i < 4) (v : Together s) where
  -- The loop has started every CPU.
  pub all_awake :
      (k : ℕ) (e : s.pc i ≡ Pc.wake k) → (k < 4 → ⊥) → Asleep s i (Pc.wake k) (Pc.enter true) e v
  all_awake k e all j h off = elim (Bool-cases (j == i)) [
    | inl here ↦ let h' = rw here at off in cc h'
    | inr there ↦
        let (k', w, le) = v.asleep j h (rw there at off) in
        let mine : i ≡ v.leader = v.waker i k lt e in
        absurd (all (omega (arith, le, h, wake_inj k k' (sym e ∙ rw (sym mine) at w))))
  ]

  -- The next round of the loop.
  next_round :
      (k : ℕ)
      → s.pc i ≡ Pc.wake k
      → (s.pc k ≢ Pc.off)
      → Together (record s { pc = at i (Pc.wake (k + 1)) s.pc })
  next_round k e on =
      let mine : i ≡ v.leader = v.waker i k lt e in
      let here : (v.leader == i) ≡ true = ground (arith, mine) in
      moved_while s _ i (Pc.wake k) (Pc.wake (k + 1)) lt e refl refl v
        (λ j h off. elim (Bool-cases (j == i)) [
          | inl at_i ↦ let h' = rw at_i at off in absurd (cc h')
          | inr there ↦
              let (k', w, le) = v.asleep j h (rw there at off) in
              let same : k ≡ k' = wake_inj k k' (sym e ∙ rw (sym mine) at w) in
              let after : j ≢ k = λ q. on (rw q at (rw there at off)) in
              (k + 1, rw here refl, omega arith)
        ])
        (λ j k' h waking. elim (Bool-cases (j == i)) [
          | inl at_i ↦ ground (arith, mine)
          | inr there ↦ v.waker j k' h (rw there at waking)
        ])
        refl refl refl refl refl v.zone_ready tt (λ r g. g)

-- `cpu_start` of CPU `k` by the primary `i`.
module _ (s : Boot) (i : ℕ) (lt : i < 4) (v : Together s) (k : ℕ) (e : s.pc i ≡ Pc.wake k)
    (below : k < 4) where
  start_one : (k == i) ≡ false → Together (record s { pc = at k (started (s.pc k)) s.pc })
  start_one other =
      let mine : i ≡ v.leader = v.waker i k lt e in
      let apart : (v.leader == k) ≡ false = ground (arith, mine) in
      moved_while s _ k (s.pc k) (started (s.pc k)) below refl refl refl v
        (λ j h off. elim (Bool-cases (j == k)) [
          | inl here ↦ absurd (started-on (s.pc k) (rw here at off))
          | inr there ↦ let (k', w, le) = v.asleep j h (rw there at off) in (k', rw apart w, le)
        ])
        (λ j k' h waking. elim (Bool-cases (j == k)) [
          | inl here ↦
              v.waker j k' h (rw (the_same j here) (started-wake (s.pc k) k' (rw here at waking)))
          | inr there ↦ v.waker j k' h (rw there at waking)
        ])
        (started-primary (s.pc k)) (rw (started-entered (s.pc k)) refl)
        (rw (started-inited (s.pc k)) refl) (rw (started-early (s.pc k)) refl)
        (rw (started-late (s.pc k)) refl) v.zone_ready
        (started-Good s.entered s.inited s.early s.late (s.pc k) (v.good k below)) (λ r g. g)
    where
      the_same : (j : ℕ) → (j == k) ≡ true → j ≡ k
      the_same j h = ground arith

  pub woken-Together : Together (record s { pc = at i (Pc.wake (k + 1)) (woken i k s.pc) })
  woken-Together = elim (Bool-cases (k == i)) [
    | inl here ↦
        let same : k ≡ i = ground arith in
        rw here (next_round s i lt v k e (λ off. let h = sym e ∙ rw same at off in absurd (cc h)))
    | inr there ↦
        let self : (i == k) ≡ false = ground arith in
        let me : (k == k) ≡ true = ground arith in
        rw there (
          next_round (record s { pc = at k (started (s.pc k)) s.pc }) i lt (start_one there) k
            (rw self e) (λ off. started-on (s.pc k) (rw me at off)))
  ]
