-- ===== src/Irqchip/ListRegisters/Inject.antt =====
-- What `inject_irq` of src/device/irqchip/gicv3/mod.rs does to the list registers.
use sys_hyper.Base.{
  ℕ, zero, suc, ◌+◌, ◌-◌, ◌*◌, ◌%◌, ◌^◌, ◌<◌, ◌≤◌, ◌≡◌, refl, sym, ◌∙◌, Bool, true, false, not,
  ◌&&◌, ltb, ◌==◌, Bool-cases, inl, inr, ◌⊎◌, if◌then◌else◌, Option, none, some, bit_and, bit_or,
  arith, lt→ltb, subst,
}
use sys_hyper.Base.Bits.Mask.{bit_and-low_mask, bit_or-low}
use sys_hyper.Base.Run.{Run, ok, err, panic, hang, and_then}
use sys_hyper.Irqchip.ListRegisters.{
  VirtualInterface, Scan, lr_num, lr_value, read_lr, write_lr, scan, finish, inject_irq, is_sgi,
  or_else,
}

-- The hardware says that list register k is in use.
abbrev pub busy : ℕ → ℕ → Bool
busy elsr k = not (ltb 0 (bit_and (2 ^ k) elsr))

-- List register k holds the virtual interrupt.
abbrev pub holds : VirtualInterface → ℕ → ℕ → Bool
holds s irq_id k = bit_and (s.lr k) (2 ^ 32 - 1) == irq_id

abbrev Free : ℕ → ℕ → ℕ → Option ℕ → ℕ → Type 0
Free elsr i n before k = (before ≡ some k) ⊎ (i ≤ k) × (k < i + n) × (busy elsr k ≡ false)

module _ (E : Type 0) (elsr irq_id : ℕ) (s : VirtualInterface) where
  abbrev Scanned : ℕ → ℕ → Option ℕ → Run E VirtualInterface Scan → Type 0
  Scanned i n before (ok Scan.enabled_again t) =
      (t ≡ s) × ((k : ℕ) × (i ≤ k) × (k < i + n) × (busy elsr k ≡ true) × (holds s irq_id k ≡ true))
  Scanned i n before (ok (Scan.searched (some k)) t) =
      (t ≡ s)
      × ((j : ℕ) → i ≤ j → j < i + n → busy elsr j ≡ true → holds s irq_id j ≡ false)
      × Free elsr i n before k
  Scanned i n before (ok (Scan.searched none) t) =
      (t ≡ s)
      × ((j : ℕ) → i ≤ j → j < i + n → busy elsr j ≡ true → holds s irq_id j ≡ false)
      × (before ≡ none)
      × ((j : ℕ) → i ≤ j → j < i + n → busy elsr j ≡ true)
  Scanned i n before (err e t) = ⊥
  Scanned i n before panic = ⊥
  Scanned i n before hang = ⊥

  one_more :
      (Q : ℕ → Type 0) (i n : ℕ)
      → Q i
      → ((j : ℕ) → i + 1 ≤ j → j < i + 1 + n → Q j)
      → (j : ℕ) → i ≤ j
      → j < i + suc n
      → Q j
  one_more Q i n here above j le lt = elim (Bool-cases (i == j)) [
    | inl e ↦ let d : i ≡ j = ground arith in subst Q d here
    | inr e ↦ above j (ground arith) (omega arith)
  ]

  below_free :
      (i n : ℕ)
      → busy elsr i ≡ false
      → ((j : ℕ) → i + 1 ≤ j → j < i + 1 + n → busy elsr j ≡ true → holds s irq_id j ≡ false)
      → (j : ℕ) → i ≤ j
      → j < i + suc n
      → busy elsr j ≡ true
      → holds s irq_id j ≡ false
  below_free i n b others =
      one_more (λ j. busy elsr j ≡ true → holds s irq_id j ≡ false) i n (λ u. cc (b, u)) others

  -- One register more, that is free.
  skip_free :
      (i n : ℕ) (before : Option ℕ) (r : Run E VirtualInterface Scan)
      → busy elsr i ≡ false
      → Scanned (i + 1) n (or_else before i) r
      → Scanned i (suc n) before r
  skip_free i n before (ok Scan.enabled_again t) b (e, (k, le, lt, u, h)) =
      (e, (k, omega arith, omega arith, u, h))
  skip_free i n none (ok (Scan.searched (some k)) t) b (e, others, f) = (
    e,
    below_free i n b others,
    elim f [
      | inl h ↦ let d : i ≡ k = cc h in inr (omega arith, omega arith, rw (sym d) b)
      | inr (le, lt, h) ↦ inr (omega arith, omega arith, h)
    ],
  )
  skip_free i n (some k') (ok (Scan.searched (some k)) t) b (e, others, f) = (
    e,
    below_free i n b others,
    elim f [ inl h ↦ inl h | inr (le, lt, h) ↦ inr (omega arith, omega arith, h) ],
  )
  skip_free i n none (ok (Scan.searched none) t) b (e, others, f, all) = cc f
  skip_free i n (some k) (ok (Scan.searched none) t) b (e, others, f, all) = cc f
  skip_free i n before (err e t) b h = h
  skip_free i n before panic b h = h
  skip_free i n before hang b h = h

  -- One register more, that is in use for another interrupt.
  skip_busy :
      (i n : ℕ) (before : Option ℕ) (r : Run E VirtualInterface Scan)
      → busy elsr i ≡ true
      → holds s irq_id i ≡ false
      → Scanned (i + 1) n before r
      → Scanned i (suc n) before r
  skip_busy i n before (ok Scan.enabled_again t) b other (e, (k, le, lt, u, h)) =
      (e, (k, omega arith, omega arith, u, h))
  skip_busy i n before (ok (Scan.searched (some k)) t) b other (e, others, f) = (
    e,
    one_more (λ j. busy elsr j ≡ true → holds s irq_id j ≡ false) i n (λ u. other) others,
    elim f [ inl h ↦ inl h | inr (le, lt, h) ↦ inr (omega arith, omega arith, h) ],
  )
  skip_busy i n before (ok (Scan.searched none) t) b other (e, others, f, all) = (
    e,
    one_more (λ j. busy elsr j ≡ true → holds s irq_id j ≡ false) i n (λ u. other) others,
    f,
    one_more (λ j. busy elsr j ≡ true) i n b all,
  )
  skip_busy i n before (err e t) b other h = h
  skip_busy i n before panic b other h = h
  skip_busy i n before hang b other h = h

  scan-Scanned :
      (n i : ℕ) (before : Option ℕ)
      → i + n ≤ 16
      → Scanned i n before (scan elsr irq_id i n before s)
  unfolding scan read_lr
  scan-Scanned zero i none le =
      (refl, λ j a b. absurd (omega arith), refl, λ j a b. absurd (omega arith))
  scan-Scanned zero i (some k) le = (refl, λ j a b. absurd (omega arith), inl refl)
  scan-Scanned (suc n) i before le = elim (Bool-cases (ltb 0 (bit_and (2 ^ i) elsr))) [
    | inl free ↦ rw free (
        skip_free i n before _ (rw free refl)
          (scan-Scanned n (i + 1) (or_else before i) (omega arith)))
    | inr used ↦ elim (Bool-cases (holds s irq_id i)) [
      | inl found ↦
          rw (used, lt→ltb i 16 (omega arith), found)
            (refl, (i, omega arith, omega arith, rw used refl, found))
      | inr other ↦
          rw (used, lt→ltb i 16 (omega arith), other)
            (skip_busy i n before _ (rw used refl) other
              (scan-Scanned n (i + 1) before (omega arith)))
    ]
  ]

module _ (elrsr : (ℕ → ℕ) → ℕ) (E : Type 0) (irq_id : ℕ) (is_hardware : Bool)
    (s : VirtualInterface) where
  -- The interrupt was in no register in use; now it is in register k, which was free.
  abbrev Placed : ℕ → VirtualInterface → Type 0
  Placed k t =
      (k < lr_num s)
      × (busy (elrsr s.lr) k ≡ false)
      × ((j : ℕ) → j < lr_num s → busy (elrsr s.lr) j ≡ true → holds s irq_id j ≡ false)
      × (t.vtr ≡ s.vtr)
      × ((j : ℕ) → t.lr j ≡ (if k == j then lr_value irq_id is_hardware else s.lr j))

  abbrev AlreadyIn : VirtualInterface → Type 0
  AlreadyIn t =
      (t ≡ s)
      × ((k : ℕ) × (k < lr_num s) × (busy (elrsr s.lr) k ≡ true) × (holds s irq_id k ≡ true))

  abbrev pub Injects : Run E VirtualInterface (Unit {0}) → Type 0
  Injects (ok u t) = AlreadyIn t ⊎ ((k : ℕ) × Placed k t)
  Injects (err e t) = ⊥
  Injects panic = (j : ℕ) → j < lr_num s → (busy (elrsr s.lr) j ≡ true) × (holds s irq_id j ≡ false)
  Injects hang = ⊥

  lr_num-le : lr_num s ≤ 16
  unfolding lr_num
  lr_num-le = omega (arith, bit_and-low_mask 4 s.vtr)

  finished :
      (r : Run E VirtualInterface Scan)
      → Scanned E (elrsr s.lr) irq_id s 0 (lr_num s) none r
      → Injects (and_then r (finish elrsr irq_id is_hardware))
  unfolding finish write_lr
  finished (ok Scan.enabled_again t) (e, (k, le, lt, u, h)) = inl (e, (k, omega arith, u, h))
  finished (ok (Scan.searched (some k)) t) (e, others, f) = elim f [
    | inl h ↦ cc h
    | inr (le, lt, b) ↦
        rw (lt→ltb k 16 (omega (arith, lr_num-le)), e)
          (inr (k, (omega arith, b, λ j l. others j (omega arith) (omega arith), refl, λ j. refl)))
  ]
  finished (ok (Scan.searched none) t) (e, others, f, all) = λ j l.
      let b = all j (omega arith) (omega arith) in (b, others j (omega arith) (omega arith) b)
  finished (err e t) h = h
  finished panic h = absurd h
  finished hang h = h

  -- `inject_irq` never hangs. Either the interrupt was in a list register that is in use, and nothing
  -- changes; or it was in none, and its value is written to a register that was free, and nothing
  -- else changes; or it panics, all registers being in use for other interrupts.
  pub inject_irq-Injects : Injects (inject_irq elrsr irq_id is_hardware s)
  unfolding inject_irq
  inject_irq-Injects =
      finished (scan (elrsr s.lr) irq_id 0 (lr_num s) none s)
        (scan-Scanned E (elrsr s.lr) irq_id s (lr_num s) 0 none (omega (arith, lr_num-le)))

-- For an interrupt below 2^32, the low half of the list register's value is the interrupt, so that a
-- later search finds it.
pub lr_value-low :
    (irq_id : ℕ) (is_hardware : Bool)
    → irq_id < 2 ^ 32
    → bit_and (lr_value irq_id is_hardware) (2 ^ 32 - 1) ≡ irq_id
unfolding lr_value
lr_value-low irq_id is_hardware h =
    let pending = bit_or (bit_or irq_id (2 ^ 60)) (2 ^ 62) in
    let low : pending % 2 ^ 32 ≡ irq_id =
      bit_or-low 32 (bit_or irq_id (2 ^ 60)) (2 ^ 62) refl
      ∙ bit_or-low 32 irq_id (2 ^ 60) refl
      ∙ omega arith in
    let hardware : bit_or (bit_or pending (2 ^ 61)) (irq_id * 2 ^ 32 % 2 ^ 64) % 2 ^ 32 ≡ irq_id =
      bit_or-low 32 (bit_or pending (2 ^ 61)) (irq_id * 2 ^ 32 % 2 ^ 64) (omega arith)
      ∙ bit_or-low 32 pending (2 ^ 61) refl
      ∙ low in
    bit_and-low_mask 32 (lr_value irq_id is_hardware)
    ∙ (elim (Bool-cases (not (is_sgi (irq_id % 2 ^ 32)) && is_hardware)) [
      | inl hw ↦ rw hw hardware
      | inr sw ↦ rw sw low
    ])
