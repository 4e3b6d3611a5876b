-- ===== src/Zone/Boot.antt =====
-- The end of `zone_create` of src/zone.rs: the CPUs of a new zone are given the zone, the entry
-- point and the address of the device tree, and the first of them is chosen as the boot CPU.
use sys_hyper.Base.{
  ℕ, ◌+◌, ◌<◌, ◌≡◌, refl, sym, ◌∙◌, true, false, ◌&&◌, ◌==◌, if◌then◌else◌, Bool-cases, inl, inr,
  ◌⊎◌, Option, none, some, List, [], ◌∷◌, arith,
}
use sys_hyper.Base.Panics.{◌>>=◌}
use sys_hyper.Percpu.CpuSet.{
  CpuSet, IsCpuSet, IsFirst, Searches, Lists, has, member, iter, first_cpu, iter-Lists,
  first_cpu-Searches,
}
use sys_hyper.Percpu.PerCpu.{PerCpu}

-- The data of CPU `cpuid` when `first` is the first CPU of its zone.
abbrev pub start : ℕ → ℕ → ℕ → ℕ → ℕ → PerCpu → PerCpu
start first zone entry dtb cpuid p = record p {
  zone = some zone;
  boot_cpu = if cpuid == first then true else p.boot_cpu;
  cpu_on_entry = entry;
  dtb_ipa = dtb;
}

abbrev pub set_cpu : ℕ → PerCpu → (ℕ → PerCpu) → ℕ → PerCpu
set_cpu c p cpus i = if i == c then p else cpus i

-- `none` is the panic of `first_cpu().unwrap()`.
unfoldable start_cpus : CpuSet → ℕ → ℕ → ℕ → List ℕ → (ℕ → PerCpu) → Option (ℕ → PerCpu)
start_cpus s zone entry dtb [] cpus = some cpus
start_cpus s zone entry dtb (c ∷ cs) cpus = do
  o ← first_cpu s
  first ← o
  start_cpus s zone entry dtb cs (set_cpu c (start first zone entry dtb c (cpus c)) cpus)

unfoldable pub boot_cpus : CpuSet → ℕ → ℕ → ℕ → (ℕ → PerCpu) → Option (ℕ → PerCpu)
unfolding start_cpus
boot_cpus s zone entry dtb cpus = do l ← iter s; start_cpus s zone entry dtb l cpus

abbrev Starts : ℕ → ℕ → ℕ → ℕ → List ℕ → (ℕ → PerCpu) → Option (ℕ → PerCpu) → Type 0
Starts first zone entry dtb l cpus none = ⊥
Starts first zone entry dtb l cpus (some cpus') =
    (i : ℕ) → cpus' i ≡ (if has l i then start first zone entry dtb i (cpus i) else cpus i)

twice :
    (first zone entry dtb c : ℕ) (p : PerCpu)
    → start first zone entry dtb c (start first zone entry dtb c p) ≡ start first zone entry dtb c p
twice first zone entry dtb c p = elim (Bool-cases (c == first)) [
  | inl f ↦ rw f refl
  | inr f ↦ rw f refl
]

after_one :
    (first zone entry dtb c : ℕ) (cs : List ℕ) (cpus : ℕ → PerCpu) (r : Option (ℕ → PerCpu))
    → Starts first zone entry dtb cs (set_cpu c (start first zone entry dtb c (cpus c)) cpus) r
    → Starts first zone entry dtb (c ∷ cs) cpus r
after_one first zone entry dtb c cs cpus none h = h
after_one first zone entry dtb c cs cpus (some cpus') h = λ i. h i ∙ elim (Bool-cases (i == c)) [
  | inl e ↦
      let d : i ≡ c = ground arith in
      let m : (c == i) ≡ true = ground arith in
      elim (Bool-cases (has cs i)) [
        | inl q ↦ rw (e, m, q) (rw d (twice first zone entry dtb c (cpus c)))
        | inr q ↦ rw (e, m, q) (rw d refl)
      ]
  | inr e ↦ let m : (c == i) ≡ false = ground arith in rw (e, m) refl
]

start_cpus-Starts :
    (s : CpuSet) (first zone entry dtb : ℕ) (l : List ℕ) (cpus : ℕ → PerCpu)
    → first_cpu s ≡ some (some first)
    → Starts first zone entry dtb l cpus (start_cpus s zone entry dtb l cpus)
unfolding start_cpus
start_cpus-Starts s first zone entry dtb [] cpus e = λ i. refl
start_cpus-Starts s first zone entry dtb (c ∷ cs) cpus e = rw e (
    after_one first zone entry dtb c cs cpus _ (
      start_cpus-Starts s first zone entry dtb cs
        (set_cpu c (start first zone entry dtb c (cpus c)) cpus) e))

-- The data of a CPU of the set, whose least CPU is `first`, after the start.
abbrev pub booted_cpu : ℕ → ℕ → ℕ → ℕ → ℕ → PerCpu → PerCpu
booted_cpu first zone entry dtb i p = record {
  id = p.id;
  cpu_on_entry = entry;
  dtb_ipa = dtb;
  arch_cpu = p.arch_cpu;
  zone = some zone;
  boot_cpu = if i == first then true else p.boot_cpu;
}

-- What the start of a zone's CPUs does: the CPUs of the set get the zone, the entry point and the
-- address of the device tree, and the least of them becomes a boot CPU; nothing else changes.
abbrev pub Boots : CpuSet → ℕ → ℕ → ℕ → (ℕ → PerCpu) → Option (ℕ → PerCpu) → Type 0
Boots s zone entry dtb cpus none = ⊥
Boots s zone entry dtb cpus (some cpus') =
    (i : ℕ)
    → ((member s i ≡ false) × (cpus' i ≡ cpus i))
      ⊎ ((first : ℕ) × IsFirst s 0 (s.max_cpu_id + 1) (some first)
          × (member s i ≡ true)
          × (cpus' i ≡ booted_cpu first zone entry dtb i (cpus i)))

started-Boots :
    (s : CpuSet) (first zone entry dtb : ℕ) (l : List ℕ) (cpus : ℕ → PerCpu)
    → IsFirst s 0 (s.max_cpu_id + 1) (some first)
    → ((j : ℕ) → has l j ≡ (member s j && true))
    → (r : Option (ℕ → PerCpu)) → Starts first zone entry dtb l cpus r
    → Boots s zone entry dtb cpus r
started-Boots s first zone entry dtb l cpus f h none g = g
started-Boots s first zone entry dtb l cpus f h (some cpus') g = λ i.
    elim (Bool-cases (member s i)) [
      | inl m ↦ let q : has l i ≡ true = h i ∙ rw m refl in inr (first, f, m, g i ∙ rw q refl)
      | inr m ↦ let q : has l i ≡ false = h i ∙ rw m refl in inl (m, g i ∙ rw q refl)
    ]

-- Without a first CPU the set is empty.
none-Boots :
    (s : CpuSet) (zone entry dtb : ℕ) (cpus : ℕ → PerCpu)
    → IsFirst s 0 (s.max_cpu_id + 1) none
    → (l : List ℕ) → ((j : ℕ) → has l j ≡ (member s j && true))
    → Boots s zone entry dtb cpus (start_cpus s zone entry dtb l cpus)
unfolding start_cpus
none-Boots s zone entry dtb cpus f [] h = λ i. inl (sym (h i ∙ ground arith), refl)
none-Boots s zone entry dtb cpus f (c ∷ cs) h =
    let e = h c in
    let m : member s c ≡ true = ground arith in
    let near : c < s.max_cpu_id + 1 = ground arith in
    let g = f c (omega arith) near in let clash = rw m at g in cc clash

booted :
    (s : CpuSet) (zone entry dtb : ℕ) (cpus : ℕ → PerCpu) (o : Option (List ℕ))
    → Lists s (λ j. true) o
    → (r : Option (Option ℕ)) → first_cpu s ≡ r
    → Searches s 0 (s.max_cpu_id + 1) r
    → Boots s zone entry dtb cpus (o >>= λ l. start_cpus s zone entry dtb l cpus)
booted s zone entry dtb cpus none l r e f = l
booted s zone entry dtb cpus (some l) (i, h) none e f = absurd f
booted s zone entry dtb cpus (some l) (i, h) (some none) e f =
    none-Boots s zone entry dtb cpus f l h
booted s zone entry dtb cpus (some l) (i, h) (some (some first)) e f =
    started-Boots s first zone entry dtb l cpus f h _
      (start_cpus-Starts s first zone entry dtb l cpus e)

-- With `max_cpu_id` below 64, starting the CPUs of a zone does not panic: a CPU of the set gets the
-- zone, the entry point and the device tree's address, and becomes a boot CPU if it is the least of
-- the set; its other data and those of a CPU outside the set do not change.
pub boot_cpus-Boots :
    (s : CpuSet) (zone entry dtb : ℕ) (cpus : ℕ → PerCpu)
    → IsCpuSet s
    → Boots s zone entry dtb cpus (boot_cpus s zone entry dtb cpus)
unfolding boot_cpus
boot_cpus-Boots s zone entry dtb cpus v =
    booted s zone entry dtb cpus (iter s) (iter-Lists s v) (first_cpu s) refl
      (first_cpu-Searches s v)
