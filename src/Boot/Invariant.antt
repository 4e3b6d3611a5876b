-- ===== src/Boot/Invariant.antt =====
-- What holds in every state that the start-up reaches.
pub mod Wake
pub mod Moves
use sys_hyper.Base.{
  ℕ, zero, suc, ◌+◌, ◌<◌, ◌≤◌, ◌≡◌, ◌≢◌, refl, sym, ◌∙◌, Bool, true, false, ◌==◌, if◌then◌else◌,
  Bool-cases, inl, inr, ◌⊎◌, Option, none, some, arith,
}
use sys_hyper.Boot.{Pc, Boot, at}
use sys_hyper.Boot.Sum.{sum, sum-at, sum-le}

-- 1 for a CPU that has passed a point: the primary, one that has been counted in `ENTERED_CPUS` and
-- in `INITED_CPUS`, the primary after it has set `INIT_EARLY_OK` and `INIT_LATE_OK`.
abbrev of_bool : Bool → ℕ
of_bool true = 1
of_bool false = 0

abbrev pub primary : Pc → ℕ
primary Pc.store_master = 1
primary (Pc.wake k) = 1
primary Pc.init_early = 1
primary Pc.init_late = 1
primary (Pc.enter b) = of_bool b
primary (Pc.wait_entered b) = of_bool b
primary (Pc.check_entered b) = of_bool b
primary (Pc.percpu_init b) = of_bool b
primary (Pc.wait_inited b) = of_bool b
primary (Pc.run_vm b) = of_bool b
primary Pc.off = 0
primary Pc.load_master = 0
primary Pc.wait_early = 0
primary Pc.wait_late = 0
primary Pc.panicked = 0

abbrev pub has_entered : Pc → ℕ
has_entered Pc.off = 0
has_entered Pc.load_master = 0
has_entered Pc.store_master = 0
has_entered (Pc.wake k) = 0
has_entered (Pc.enter b) = 0
has_entered _ = 1

abbrev pub has_inited : Pc → ℕ
has_inited (Pc.wait_inited b) = 1
has_inited Pc.init_late = 1
has_inited Pc.wait_late = 1
has_inited (Pc.run_vm b) = 1
has_inited _ = 0

abbrev pub set_early : Pc → ℕ
set_early (Pc.percpu_init b) = of_bool b
set_early (Pc.wait_inited b) = of_bool b
set_early Pc.init_late = 1
set_early (Pc.run_vm b) = of_bool b
set_early _ = 0

abbrev pub set_late : Pc → ℕ
set_late (Pc.run_vm b) = of_bool b
set_late _ = 0

-- What the counters show at each point, once the CPUs have been started.
abbrev pub Secondary : Bool → ℕ → Type 0
Secondary true flag = Unit
Secondary false flag = flag ≢ 0

abbrev pub Good : ℕ → ℕ → ℕ → ℕ → Pc → Type 0
Good entered inited early late Pc.off = Unit
Good entered inited early late Pc.store_master = ⊥
Good entered inited early late (Pc.wake k) = Unit
Good entered inited early late Pc.panicked = ⊥
Good entered inited early late Pc.load_master = Unit
Good entered inited early late (Pc.enter b) = Unit
Good entered inited early late (Pc.wait_entered b) = Unit
Good entered inited early late (Pc.check_entered b) = entered ≡ 4
Good entered inited early late Pc.init_early = entered ≡ 4
Good entered inited early late Pc.wait_early = entered ≡ 4
Good entered inited early late (Pc.percpu_init b) = (entered ≡ 4) × Secondary b early
Good entered inited early late (Pc.wait_inited b) = (entered ≡ 4) × Secondary b early
Good entered inited early late Pc.init_late = (entered ≡ 4) × (inited ≡ 4)
Good entered inited early late Pc.wait_late = (entered ≡ 4) × (early ≢ 0) × (inited ≡ 4)
Good entered inited early late (Pc.run_vm b) =
    (entered ≡ 4) × Secondary b early × (inited ≡ 4) × Secondary b late

Secondary-mono :
    (b : Bool) (flag flag' : ℕ) → (flag ≢ 0 → flag' ≢ 0) → Secondary b flag → Secondary b flag'
Secondary-mono true flag flag' h s = tt
Secondary-mono false flag flag' h s = h s

module _ (e n y l e' n' y' l' : ℕ) (he : e ≡ 4 → e' ≡ 4) (hn : n ≡ 4 → n' ≡ 4) (hy : y ≢ 0 → y' ≢ 0)
    (hl : l ≢ 0 → l' ≢ 0) where
  pub Good-mono : (p : Pc) → Good e n y l p → Good e' n' y' l' p
  Good-mono Pc.off g = g
  Good-mono Pc.store_master g = g
  Good-mono (Pc.wake k) g = g
  Good-mono Pc.panicked g = g
  Good-mono Pc.load_master g = g
  Good-mono (Pc.enter b) g = g
  Good-mono (Pc.wait_entered b) g = g
  Good-mono (Pc.check_entered b) g = he g
  Good-mono Pc.init_early g = he g
  Good-mono Pc.wait_early g = he g
  Good-mono (Pc.percpu_init b) (g, s) = (he g, Secondary-mono b y y' hy s)
  Good-mono (Pc.wait_inited b) (g, s) = (he g, Secondary-mono b y y' hy s)
  Good-mono Pc.init_late (g, i) = (he g, hn i)
  Good-mono Pc.wait_late (g, s, i) = (he g, hy s, hn i)
  Good-mono (Pc.run_vm b) (g, s, i, k) =
      (he g, Secondary-mono b y y' hy s, hn i, Secondary-mono b l l' hl k)

-- Only CPU `first` is on, and has not been elected.
pub record Alone (s : Boot) : Type 0 where
  pub first : ℕ
  pub below : first < 4
  pub asleep : (j : ℕ) → (j ≢ first) → s.pc j ≡ Pc.off
  pub place : (s.pc first ≡ Pc.load_master) ⊎ (s.pc first ≡ Pc.store_master)
  pub not_elected : s.master ≡ none
  pub no_entered : s.entered ≡ 0
  pub no_inited : s.inited ≡ 0
  pub no_early : s.early ≡ 0
  pub no_late : s.late ≡ 0

-- A CPU that the primary starts, or the primary while it starts the others.
abbrev pub starting : Pc → Bool
starting Pc.off = true
starting (Pc.wake k) = true
starting _ = false

-- One CPU is the primary, the others are on or it is about to start them, and the counters count.
pub record Together (s : Boot) : Type 0 where
  pub leader : ℕ
  pub leader_below : leader < 4
  pub elected : s.master ≡ some leader
  pub one_primary : sum primary 4 s.pc ≡ 1
  pub entered_count : s.entered ≡ sum has_entered 4 s.pc
  pub inited_count : s.inited ≡ sum has_inited 4 s.pc
  pub early_count : s.early ≡ sum set_early 4 s.pc
  pub late_count : s.late ≡ sum set_late 4 s.pc
  pub zone_ready : s.early ≢ 0 → s.root_zone ≡ true
  pub asleep : (j : ℕ) → j < 4 → s.pc j ≡ Pc.off → (k : ℕ) × (s.pc leader ≡ Pc.wake k) × (k ≤ j)
  pub waker : (j k : ℕ) → j < 4 → s.pc j ≡ Pc.wake k → j ≡ leader
  pub good : (j : ℕ) → j < 4 → Good s.entered s.inited s.early s.late (s.pc j)

abbrev pub Inv : Boot → Type 0
Inv s = Alone s ⊎ Together s

starts : (p q : Pc) → starting p ≡ false → p ≡ q → starting q ≡ true → ⊥
starts p q h e h' = let h'' = rw e at h in cc (h', h'')

-- The place `q` of CPU `i` leaves the primary and the others as they should be.
module _ (s : Boot) (i : ℕ) (p q : Pc) (e : s.pc i ≡ p) (v : Together s) where
  abbrev pub Asleep : Type 0
  Asleep =
      (j : ℕ)
      → j < 4
      → at i q s.pc j ≡ Pc.off
      → (k : ℕ) × (at i q s.pc v.leader ≡ Pc.wake k) × (k ≤ j)

  abbrev pub Waker : Type 0
  Waker = (j k : ℕ) → j < 4 → at i q s.pc j ≡ Pc.wake k → j ≡ v.leader

  pub still-Asleep : starting p ≡ false → starting q ≡ false → Asleep
  still-Asleep hp hq j h off = elim (Bool-cases (j == i)) [
    | inl here ↦ let h' = rw (here) at off in absurd (starts q Pc.off hq h' refl)
    | inr there ↦
        let (k, w, le) = v.asleep j h (rw there at off) in
        elim (Bool-cases (v.leader == i)) [
          | inl mine ↦
              let same : v.leader ≡ i = ground arith in
              absurd (starts p (Pc.wake k) hp (sym e ∙ rw same at w) refl)
          | inr other ↦ (k, rw other w, le)
        ]
  ]

  pub still-Waker : starting q ≡ false → Waker
  still-Waker hq j k h waking = elim (Bool-cases (j == i)) [
    | inl here ↦ absurd (starts q (Pc.wake k) hq (rw here at waking) refl)
    | inr there ↦ v.waker j k h (rw there at waking)
  ]

-- A step of one CPU, after the election.
module _ (s t : Boot) (i : ℕ) (p q : Pc) (lt : i < 4) (e : s.pc i ≡ p) (pc : t.pc ≡ at i q s.pc)
    (master : t.master ≡ s.master) (v : Together s) where
  pub moved_while :
      Asleep s i p q e v
      → Waker s i p q e v
      → primary q ≡ primary p
      → t.entered + has_entered p ≡ s.entered + has_entered q
      → t.inited + has_inited p ≡ s.inited + has_inited q
      → t.early + set_early p ≡ s.early + set_early q
      → t.late + set_late p ≡ s.late + set_late q
      → (t.early ≢ 0 → t.root_zone ≡ true)
      → Good t.entered t.inited t.early t.late q
      → ((r : Pc)
          → Good s.entered s.inited s.early s.late r
          → Good t.entered t.inited t.early t.late r)
      → Together t
  moved_while al wk hp he hn hy hl zone good keep = record {
    leader = v.leader;
    leader_below = v.leader_below;
    elected = master ∙ v.elected;
    one_primary =
        rw pc (let x = rw e at (sum-at primary 4 i q s.pc lt) in omega (arith, v.one_primary));
    entered_count =
        rw pc
          (let x = rw e at (sum-at has_entered 4 i q s.pc lt) in omega (arith, v.entered_count));
    inited_count =
        rw pc (let x = rw e at (sum-at has_inited 4 i q s.pc lt) in omega (arith, v.inited_count));
    early_count =
        rw pc (let x = rw e at (sum-at set_early 4 i q s.pc lt) in omega (arith, v.early_count));
    late_count =
        rw pc (let x = rw e at (sum-at set_late 4 i q s.pc lt) in omega (arith, v.late_count));
    zone_ready = zone;
    asleep = rw pc al;
    waker = rw pc wk;
    good = λ j h. rw pc (elim (Bool-cases (j == i)) [
      | inl here ↦ rw here good
      | inr there ↦ rw there (keep (s.pc j) (v.good j h))
    ]);
  }

  -- Of a CPU that is on and does not start others.
  pub moved :
      starting p ≡ false
      → starting q ≡ false
      → primary q ≡ primary p
      → t.entered + has_entered p ≡ s.entered + has_entered q
      → t.inited + has_inited p ≡ s.inited + has_inited q
      → t.early + set_early p ≡ s.early + set_early q
      → t.late + set_late p ≡ s.late + set_late q
      → (t.early ≢ 0 → t.root_zone ≡ true)
      → Good t.entered t.inited t.early t.late q
      → ((r : Pc)
          → Good s.entered s.inited s.early s.late r
          → Good t.entered t.inited t.early t.late r)
      → Together t
  moved sp sq = moved_while (still-Asleep s i p q e v sp sq) (still-Waker s i p q e v sq)
