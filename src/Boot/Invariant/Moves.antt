-- ===== src/Boot/Invariant/Moves.antt =====
-- Every step of the start-up keeps the invariant.
use sys_hyper.Base.{
  ltb, ℕ, ◌+◌, ◌<◌, ◌≤◌, ◌≡◌, ◌≢◌, refl, sym, Bool, true, false, ◌==◌, if◌then◌else◌, Bool-cases,
  inl, inr, ◌⊎◌, some, arith,
}
use sys_hyper.Boot.{Pc, Boot, Move, Step, Reach, at, init}
use sys_hyper.Boot.Invariant.Wake.{all_awake, woken-Together}
use sys_hyper.Boot.Sum.{sum, sum-le, sum-lt}
use sys_hyper.Boot.Invariant.{
  Alone, Together, Inv, Good-mono, moved, moved_while, still-Waker, primary, has_entered,
  has_inited, set_early, set_late,
}

-- Neither off nor at the election.
abbrev pub has_started : Pc → Bool
has_started Pc.off = false
has_started Pc.load_master = false
has_started Pc.store_master = false
has_started _ = true

abbrev one : Pc → ℕ
one p = 1

sum-one : (pc : ℕ → Pc) → sum one 4 pc ≡ 4
unfolding sum
sum-one pc = refl

entered-le : (p : Pc) → has_entered p ≤ 1
entered-le p = ground arith

inited-le : (p : Pc) → has_inited p ≤ 1
inited-le p = ground arith

early-le : (p : Pc) → set_early p ≤ primary p
early-le p = ground arith

late-le : (p : Pc) → set_late p ≤ primary p
late-le p = ground arith

module _ (s : Boot) (i : ℕ) (lt : i < 4) (v : Together s) where
  full : (s.inited < 4 → ⊥) → s.inited ≡ 4
  full h =
      let most = sum-le has_inited 4 s.pc inited-le in
      elim (Bool-cases (ltb s.inited 4)) [
        | inl less ↦ absurd (h (ground arith))
        | inr all ↦ ground (arith, most, v.inited_count)
      ]

  full_entered : (s.entered < 4 → ⊥) → s.entered ≡ 4
  full_entered h =
      let most = sum-le has_entered 4 s.pc entered-le in
      elim (Bool-cases (ltb s.entered 4)) [
        | inl less ↦ absurd (h (ground arith))
        | inr all ↦ ground (arith, most, v.entered_count)
      ]

  Together-Move : {t : Boot} (p : Pc) → s.pc i ≡ p → Move s i p t → Together t
  Together-Move _ e (Move.load_none h) = let x = v.elected in cc x
  Together-Move _ e (Move.load_some h) =
      moved s _ i _ (Pc.enter false) lt e refl refl v refl refl refl refl refl refl refl
        v.zone_ready tt (λ r g. g)
  Together-Move _ e Move.elect = absurd (rw e at (v.good i lt))
  Together-Move _ e (Move.wake_one {k} below) = woken-Together s i lt v k e below
  Together-Move _ e (Move.woke_all {k} all) =
      moved_while s _ i (Pc.wake k) (Pc.enter true) lt e refl refl v (all_awake s i lt v k e all)
        (still-Waker s i (Pc.wake k) (Pc.enter true) e v refl) refl refl refl refl refl v.zone_ready
        tt (λ r g. g)
  Together-Move _ e (Move.count_entered {b}) =
      let few = sum-lt has_entered one 4 i s.pc entered-le lt (rw e (omega arith)) in
      let all = sum-one s.pc in
      moved s _ i _ (Pc.wait_entered b) lt e refl refl v refl refl refl (omega arith) refl refl refl
        v.zone_ready tt
        (Good-mono s.entered s.inited s.early s.late (s.entered + 1) s.inited s.early s.late
          (λ h. absurd (omega (arith, v.entered_count))) (λ h. h) (λ h. h) (λ h. h))
  Together-Move _ e (Move.all_entered {b} h) =
      moved s _ i _ (Pc.check_entered b) lt e refl refl v refl refl refl refl refl refl refl
        v.zone_ready (full_entered h) (λ r g. g)
  Together-Move _ e (Move.assert_entered {b = true} h) =
      moved s _ i _ Pc.init_early lt e refl refl v refl refl refl refl refl refl refl v.zone_ready h
        (λ r g. g)
  Together-Move _ e (Move.assert_entered {b = false} h) =
      moved s _ i _ Pc.wait_early lt e refl refl v refl refl refl refl refl refl refl v.zone_ready h
        (λ r g. g)
  Together-Move _ e (Move.too_many_entered h) = absurd (h (rw e at (v.good i lt)))
  Together-Move _ e Move.init_early =
      let g = rw e at (v.good i lt) in
      let few = sum-lt set_early primary 4 i s.pc early-le lt (rw e (omega arith)) in
      moved s _ i _ (Pc.percpu_init true) lt e refl refl v refl refl refl refl refl
        (omega (arith, v.early_count, v.one_primary)) refl (λ h. refl) (g, tt)
        (Good-mono s.entered s.inited s.early s.late s.entered s.inited 1 s.late (λ h. h) (λ h. h)
          (λ h. omega arith) (λ h. h))
  Together-Move _ e (Move.early_ok h) =
      moved s _ i _ (Pc.percpu_init false) lt e refl refl v refl refl refl refl refl refl refl
        v.zone_ready (rw e at (v.good i lt), λ q. h (omega arith)) (λ r g. g)
  Together-Move _ e (Move.count_inited {b}) =
      let few = sum-lt has_inited one 4 i s.pc inited-le lt (rw e (omega arith)) in
      let all = sum-one s.pc in
      let g = rw e at (v.good i lt) in
      moved s _ i _ (Pc.wait_inited b) lt e refl refl v refl refl refl refl (omega arith) refl refl
        v.zone_ready g
        (Good-mono s.entered s.inited s.early s.late s.entered (s.inited + 1) s.early s.late
          (λ h. h) (λ h. absurd (omega (arith, v.inited_count))) (λ h. h) (λ h. h))
  Together-Move _ e (Move.all_inited {b = true} h) =
      let g = rw e at (v.good i lt) in
      moved s _ i _ Pc.init_late lt e refl refl v refl refl refl refl refl refl refl v.zone_ready
        (g.0, full h) (λ r g. g)
  Together-Move _ e (Move.all_inited {b = false} h) =
      let g = rw e at (v.good i lt) in
      moved s _ i _ Pc.wait_late lt e refl refl v refl refl refl refl refl refl refl v.zone_ready
        (g.0, g.1, full h) (λ r g. g)
  Together-Move _ e Move.init_late =
      let g = rw e at (v.good i lt) in
      let few = sum-lt set_late primary 4 i s.pc late-le lt (rw e (omega arith)) in
      moved s _ i _ (Pc.run_vm true) lt e refl refl v refl refl refl refl refl refl
        (omega (arith, v.late_count, v.one_primary)) v.zone_ready (g.0, tt, g.1, tt)
        (Good-mono s.entered s.inited s.early s.late s.entered s.inited s.early 1 (λ h. h) (λ h. h)
          (λ h. h) (λ h. omega arith))
  Together-Move _ e (Move.late_ok h) =
      let g = rw e at (v.good i lt) in
      moved s _ i _ (Pc.run_vm false) lt e refl refl v refl refl refl refl refl refl refl
        v.zone_ready (g.0, g.1, g.2, λ q. h (omega arith)) (λ r g. g)

-- CPU `i` has become the primary.
module _ (s : Boot) (i : ℕ) (lt : i < 4) (v : Alone s) (me : i ≡ v.first) where
  elected-pc : (j : ℕ) → at i (Pc.wake 0) s.pc j ≡ (if j == i then Pc.wake 0 else Pc.off)
  elected-pc j = elim (Bool-cases (j == i)) [
    | inl here ↦ rw here refl
    | inr there ↦
        let ne : j ≢ v.first = λ q. ground (arith, me, q, there) in rw (there, v.asleep j ne) refl
  ]

  elected-Together : Together (record s { master = some i; pc = at i (Pc.wake 0) s.pc })
  unfolding sum
  elected-Together = record {
    leader = i;
    leader_below = lt;
    elected = refl;
    one_primary = rw (elected-pc 0, elected-pc 1, elected-pc 2, elected-pc 3) (ground arith);
    entered_count =
        rw (elected-pc 0, elected-pc 1, elected-pc 2, elected-pc 3) (ground (arith, v.no_entered));
    inited_count =
        rw (elected-pc 0, elected-pc 1, elected-pc 2, elected-pc 3) (ground (arith, v.no_inited));
    early_count =
        rw (elected-pc 0, elected-pc 1, elected-pc 2, elected-pc 3) (ground (arith, v.no_early));
    late_count =
        rw (elected-pc 0, elected-pc 1, elected-pc 2, elected-pc 3) (ground (arith, v.no_late));
    zone_ready = λ h. absurd (h v.no_early);
    asleep = λ j h off. let here : (i == i) ≡ true = ground arith in (0, rw here refl, omega arith);
    waker = λ j k h waking. elim (Bool-cases (j == i)) [
      | inl here ↦ ground arith
      | inr there ↦ let h' = rw (elected-pc j, there) at waking in cc h'
    ];
    good = λ j h.
        rw (elected-pc j)
          (elim (Bool-cases (j == i)) [ inl here ↦ rw here tt | inr there ↦ rw there tt ]);
  }

-- The place of the only CPU that is on.
module _ (s : Boot) (i : ℕ) (lt : i < 4) (v : Alone s) (me : i ≡ v.first) where
  stored : Alone (record s { pc = at i Pc.store_master s.pc })
  stored = record {
    first = v.first;
    below = v.below;
    asleep =
        λ j ne. let other : (j == i) ≡ false = ground (arith, me, ne) in rw other (v.asleep j ne);
    place = let here : (v.first == i) ≡ true = ground (arith, me) in rw here (inr refl);
    not_elected = v.not_elected;
    no_entered = v.no_entered;
    no_inited = v.no_inited;
    no_early = v.no_early;
    no_late = v.no_late;
  }

  place_at : (s.pc i ≡ Pc.load_master) ⊎ (s.pc i ≡ Pc.store_master)
  place_at = rw me v.place

  pub elsewhere : (p : Pc) → s.pc i ≡ p → has_started p ≡ true → ⊥
  elsewhere p e h = elim place_at [
    | inl q ↦ let h' = rw (sym e, q) at h in cc h'
    | inr q ↦ let h' = rw (sym e, q) at h in cc h'
  ]

  Alone-Move : {t : Boot} (p : Pc) → s.pc i ≡ p → Move s i p t → Inv t
  Alone-Move _ e (Move.load_none h) = inl stored
  Alone-Move _ e (Move.load_some h) = let n = v.not_elected in cc (n, h)
  Alone-Move _ e Move.elect = inr (elected-Together s i lt v me)
  Alone-Move _ e (Move.wake_one h) = absurd (elsewhere _ e refl)
  Alone-Move _ e (Move.woke_all h) = absurd (elsewhere _ e refl)
  Alone-Move _ e Move.count_entered = absurd (elsewhere _ e refl)
  Alone-Move _ e (Move.all_entered h) = absurd (elsewhere _ e refl)
  Alone-Move _ e (Move.assert_entered h) = absurd (elsewhere _ e refl)
  Alone-Move _ e (Move.too_many_entered h) = absurd (elsewhere _ e refl)
  Alone-Move _ e Move.init_early = absurd (elsewhere _ e refl)
  Alone-Move _ e (Move.early_ok h) = absurd (elsewhere _ e refl)
  Alone-Move _ e Move.count_inited = absurd (elsewhere _ e refl)
  Alone-Move _ e (Move.all_inited h) = absurd (elsewhere _ e refl)
  Alone-Move _ e Move.init_late = absurd (elsewhere _ e refl)
  Alone-Move _ e (Move.late_ok h) = absurd (elsewhere _ e refl)

off-stays : {s : Boot} {i : ℕ} {t : Boot} (p : Pc) → p ≡ Pc.off → Move s i p t → ⊥
off-stays _ e (Move.load_none h) = cc e
off-stays _ e (Move.load_some h) = cc e
off-stays _ e Move.elect = cc e
off-stays _ e (Move.wake_one h) = cc e
off-stays _ e (Move.woke_all h) = cc e
off-stays _ e Move.count_entered = cc e
off-stays _ e (Move.all_entered h) = cc e
off-stays _ e (Move.assert_entered h) = cc e
off-stays _ e (Move.too_many_entered h) = cc e
off-stays _ e Move.init_early = cc e
off-stays _ e (Move.early_ok h) = cc e
off-stays _ e Move.count_inited = cc e
off-stays _ e (Move.all_inited h) = cc e
off-stays _ e Move.init_late = cc e
off-stays _ e (Move.late_ok h) = cc e

-- Every step keeps the invariant.
pub Step-Inv : {s t : Boot} → Step s t → Inv s → Inv t
Step-Inv {s} (Step.pick i lt mv) (inl v) = elim (Bool-cases (i == v.first)) [
  | inl me ↦ Alone-Move s i lt v (ground arith) (s.pc i) refl mv
  | inr other ↦
      let ne : i ≢ v.first = λ q. ground arith in absurd (off-stays (s.pc i) (v.asleep i ne) mv)
]
Step-Inv {s} (Step.pick i lt mv) (inr v) = inr (Together-Move s i lt v (s.pc i) refl mv)

init-Inv : (first : ℕ) → first < 4 → Inv (init first)
init-Inv first lt = inl (record {
  first = first;
  below = lt;
  asleep = λ j ne. let other : (j == first) ≡ false = ground arith in rw other refl;
  place = let here : (first == first) ≡ true = ground arith in rw here (inl refl);
  not_elected = refl;
  no_entered = refl;
  no_inited = refl;
  no_early = refl;
  no_late = refl;
})

pub Reach-Inv : {first n : ℕ} {s : Boot} → first < 4 → Reach (init first) n s → Inv s
Reach-Inv {first} lt Reach.here = init-Inv first lt
Reach-Inv lt (Reach.next r st) = Step-Inv st (Reach-Inv lt r)
Reach-Inv lt (Reach.spin i r below sp) = Reach-Inv lt r
