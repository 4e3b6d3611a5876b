-- ===== src/Percpu/CpuSet.antt =====
-- `CpuSet` of src/percpu.rs: a set of CPU numbers up to `max_cpu_id` in a 64-bit map.
use sys_hyper.Base.{
  ℕ, zero, suc, ◌+◌, ◌^◌, ◌<◌, ◌≤◌, ◌≡◌, refl, sym, ◌∙◌, Bool, true, false, not, ◌&&◌, ◌||◌, leb,
  ltb, ◌==◌, Bool-cases, inl, inr, if◌then◌else◌, Option, none, some, List, [], ◌∷◌, bit_and,
  bit_or, arith, subst, lt→ltb, le→leb,
}
use sys_hyper.Base.Bits.{
  test_bit, bit_not, test_bit-bit_and, test_bit-bit_or, test_bit-bit_not, test_bit-pow, bit_and-pow,
  two_pow-lt,
}
use sys_hyper.Base.Panics.{◌>>=◌, ◌>>◌, assert, shift_one}

pub record CpuSet : Type 0 where
  pub max_cpu_id : ℕ
  pub bitmap : ℕ

unfoldable pub new : ℕ → ℕ → CpuSet
new max_cpu_id bitmap = record { max_cpu_id = max_cpu_id; bitmap = bitmap }

unfoldable pub set_bit : ℕ → CpuSet → Option CpuSet
set_bit id s = do
  assert (leb id s.max_cpu_id)
  b ← shift_one id
  some (record s { bitmap = bit_or s.bitmap b })

-- The `for_each` of `zone_create` (src/zone.rs).
unfoldable pub set_bits : List ℕ → CpuSet → Option CpuSet
unfolding set_bit
set_bits [] s = some s
set_bits (id ∷ ids) s = do t ← set_bit id s; set_bits ids t

unfoldable pub clear_bit : ℕ → CpuSet → Option CpuSet
clear_bit id s = do
  assert (leb id s.max_cpu_id)
  b ← shift_one id
  some (record s { bitmap = bit_and s.bitmap (bit_not 64 b) })

unfoldable pub contains_cpu : CpuSet → ℕ → Option Bool
contains_cpu s id = if leb id s.max_cpu_id then test else some false
  where
    test : Option Bool
    test = do b ← shift_one id; some (not (bit_and s.bitmap b == 0))

-- `find` on the CPUs from `i`, of which there are `n`.
unfoldable pub find_cpu : CpuSet → ℕ → ℕ → Option (Option ℕ)
unfolding contains_cpu
find_cpu s i zero = some none
find_cpu s i (suc n) = do
  let rest = find_cpu s (suc i) n
  b ← contains_cpu s i
  if b then some (some i) else rest

unfoldable pub first_cpu : CpuSet → Option (Option ℕ)
unfolding find_cpu
first_cpu s = find_cpu s 0 (s.max_cpu_id + 1)

-- `filter` on the CPUs from `i`, of which there are `n`.
unfoldable filter_cpus : CpuSet → (ℕ → Bool) → ℕ → ℕ → Option (List ℕ)
unfolding contains_cpu
filter_cpus s keep i zero = some []
filter_cpus s keep i (suc n) = do
  b ← contains_cpu s i
  rest ← filter_cpus s keep (suc i) n
  some (if b && keep i then i ∷ rest else rest)

unfoldable pub iter : CpuSet → Option (List ℕ)
unfolding filter_cpus
iter s = filter_cpus s (λ i. true) 0 (s.max_cpu_id + 1)

unfoldable pub iter_except : ℕ → CpuSet → Option (List ℕ)
unfolding filter_cpus
iter_except id s = filter_cpus s (λ i. not (i == id)) 0 (s.max_cpu_id + 1)

-- CPU `id` is in the set.
abbrev pub member : CpuSet → ℕ → Bool
member s id = leb id s.max_cpu_id && test_bit s.bitmap id

-- Every CPU number fits the map.
pub record IsCpuSet (s : CpuSet) : Type 0 where
  pub max_small : s.max_cpu_id < 64

pub contains_cpu-member :
    (s : CpuSet) (id : ℕ) → IsCpuSet s → contains_cpu s id ≡ some (member s id)
unfolding contains_cpu
contains_cpu-member s id v = elim (Bool-cases (leb id s.max_cpu_id)) [
  | inr far ↦ rw far refl
  | inl near ↦
      rw (near, lt→ltb id 64 (ground (arith, v.max_small)), bit_and-pow s.bitmap id) (ground arith)
]

-- What an operation that changes one CPU does.
abbrev pub Changes : CpuSet → ℕ → Bool → Option CpuSet → Type 0
Changes s id b none = ⊥
Changes s id b (some s') =
    (s'.max_cpu_id ≡ s.max_cpu_id) × ((j : ℕ) → member s' j ≡ (if j == id then b else member s j))

-- With `max_cpu_id` below 64, `set_bit` of a CPU up to it does not panic, adds that CPU and no other.
pub set_bit-Changes :
    (s : CpuSet) (id : ℕ) → IsCpuSet s → id ≤ s.max_cpu_id → Changes s id true (set_bit id s)
unfolding set_bit
set_bit-Changes s id v le =
    rw (le→leb id s.max_cpu_id le, lt→ltb id 64 (omega (arith, v.max_small)))
      (refl, λ j. ground (arith, test_bit-bit_or s.bitmap (2 ^ id) j, test_bit-pow id j))

-- With `max_cpu_id` below 64, `clear_bit` of a CPU up to it does not panic, removes that CPU and no
-- other.
pub clear_bit-Changes :
    (s : CpuSet) (id : ℕ) → IsCpuSet s → id ≤ s.max_cpu_id → Changes s id false (clear_bit id s)
unfolding clear_bit
clear_bit-Changes s id v le =
    rw (le→leb id s.max_cpu_id le, lt→ltb id 64 (omega (arith, v.max_small)))
      (
        refl,
        λ j. elim (Bool-cases (leb j s.max_cpu_id)) [
          | inr far ↦ ground arith
          | inl near ↦
              let small : j < 64 = ground (arith, v.max_small) in
              ground (
                arith,
                test_bit-bit_and s.bitmap (bit_not 64 (2 ^ id)) j,
                test_bit-bit_not 64 (2 ^ id) j (two_pow-lt id 64 (omega (arith, v.max_small)))
                    small,
                test_bit-pow id j,
              )
        ],
      )

-- The result of a search for the first CPU from `i` on, below `end`.
abbrev pub IsFirst : CpuSet → ℕ → ℕ → Option ℕ → Type 0
IsFirst s i end none = (j : ℕ) → i ≤ j → j < end → member s j ≡ false
IsFirst s i end (some k) =
    (i ≤ k) × (k < end) × (member s k ≡ true) × ((j : ℕ) → i ≤ j → j < k → member s j ≡ false)

abbrev pub Searches : CpuSet → ℕ → ℕ → Option (Option ℕ) → Type 0
Searches s i end none = ⊥
Searches s i end (some r) = IsFirst s i end r

skip :
    (s : CpuSet) (i end : ℕ) (r : Option (Option ℕ))
    → member s i ≡ false
    → Searches s (suc i) end r
    → Searches s i end r
skip s i end none m h = h
skip s i end (some none) m h = λ j le lt. elim (Bool-cases (i == j)) [
  | inl e ↦ let d : i ≡ j = ground arith in rw (sym d) m
  | inr e ↦ h j (ground arith) lt
]
skip s i end (some (some k)) m (le, lt, h, below) = (
  omega arith,
  lt,
  h,
  λ j le' lt'. elim (Bool-cases (i == j)) [
    | inl e ↦ let d : i ≡ j = ground arith in rw (sym d) m
    | inr e ↦ below j (ground arith) lt'
  ],
)

find_cpu-Searches : (s : CpuSet) (n i : ℕ) → IsCpuSet s → Searches s i (i + n) (find_cpu s i n)
unfolding find_cpu
find_cpu-Searches s zero i v = λ j le lt. absurd (omega arith)
find_cpu-Searches s (suc n) i v = elim (Bool-cases (member s i)) [
  | inl m ↦
      rw (contains_cpu-member s i v, m)
        (omega arith, omega arith, m, λ j le lt. absurd (omega arith))
  | inr m ↦
      let e : suc i + n ≡ i + suc n = omega arith in
      rw (contains_cpu-member s i v, m)
        (skip s i (i + suc n) (find_cpu s (suc i) n) m
          (rw (sym e) (find_cpu-Searches s n (suc i) v)))
]

-- With `max_cpu_id` below 64, `first_cpu` does not panic, and gives the least CPU of the set, or `none` if the set is empty.
pub first_cpu-Searches : (s : CpuSet) → IsCpuSet s → Searches s 0 (s.max_cpu_id + 1) (first_cpu s)
unfolding first_cpu
first_cpu-Searches s v =
    let e : 0 + (s.max_cpu_id + 1) ≡ s.max_cpu_id + 1 = omega arith in
    subst (λ (n : ℕ). Searches s 0 n (find_cpu s 0 (s.max_cpu_id + 1))) e
      (find_cpu-Searches s (s.max_cpu_id + 1) 0 v)

-- The members from `i` on, in order, by recursion.
unfoldable pub members : CpuSet → (ℕ → Bool) → ℕ → ℕ → List ℕ
members s keep i zero = []
members s keep i (suc n) =
    let rest = members s keep (suc i) n in if member s i && keep i then i ∷ rest else rest

filter_cpus-members :
    (s : CpuSet) (keep : ℕ → Bool) (n i : ℕ)
    → IsCpuSet s
    → filter_cpus s keep i n ≡ some (members s keep i n)
unfolding filter_cpus members
filter_cpus-members s keep zero i v = refl
filter_cpus-members s keep (suc n) i v =
    rw (contains_cpu-member s i v, filter_cpus-members s keep n (suc i) v) refl

-- The lists in increasing order, from `i` on.
abbrev pub Increasing : ℕ → List ℕ → Type 0
Increasing i [] = Unit
Increasing i (x ∷ xs) = (i ≤ x) × Increasing (suc x) xs

abbrev pub has : List ℕ → ℕ → Bool
has [] j = false
has (x ∷ xs) j = x == j || has xs j

members-Increasing :
    (s : CpuSet) (keep : ℕ → Bool) (n i k : ℕ) → k ≤ i → Increasing k (members s keep i n)
unfolding members
members-Increasing s keep zero i k h = tt
members-Increasing s keep (suc n) i k h = elim (Bool-cases (member s i && keep i)) [
  | inl m ↦ rw m (h, members-Increasing s keep n (suc i) (suc i) (omega arith))
  | inr m ↦ rw m (members-Increasing s keep n (suc i) k (omega arith))
]

has-members :
    (s : CpuSet) (keep : ℕ → Bool) (n i j : ℕ)
    → has (members s keep i n) j ≡ (leb i j && ltb j (i + n) && member s j && keep j)
unfolding members
has-members s keep zero i j = ground arith
has-members s keep (suc n) i j = elim (Bool-cases (i == j)) [
  | inl e ↦
      let d : i ≡ j = ground arith in
      elim (Bool-cases (member s i && keep i)) [
        | inl m ↦ let m' = rw d at m in rw m (ground (arith, m'))
        | inr m ↦ let m' = rw d at m in rw (m, has-members s keep n (suc i) j) (ground (arith, m'))
      ]
  | inr e ↦ elim (Bool-cases (member s i && keep i)) [
    | inl m ↦ rw (m, e, has-members s keep n (suc i) j) (ground arith)
    | inr m ↦ rw (m, has-members s keep n (suc i) j) (ground arith)
  ]
]

-- A list of the CPUs that pass `keep`, each once and in increasing order.
abbrev pub Lists : CpuSet → (ℕ → Bool) → Option (List ℕ) → Type 0
Lists s keep none = ⊥
Lists s keep (some l) = Increasing 0 l × ((j : ℕ) → has l j ≡ (member s j && keep j))

filter_cpus-Lists :
    (s : CpuSet) (keep : ℕ → Bool)
    → IsCpuSet s
    → Lists s keep (filter_cpus s keep 0 (s.max_cpu_id + 1))
filter_cpus-Lists s keep v = rw (filter_cpus-members s keep (s.max_cpu_id + 1) 0 v) (
  members-Increasing s keep (s.max_cpu_id + 1) 0 0 (omega arith),
  λ j. has-members s keep (s.max_cpu_id + 1) 0 j ∙ ground arith,
)

-- With `max_cpu_id` below 64, `iter` does not panic, and lists the CPUs of the set in increasing order.
pub iter-Lists : (s : CpuSet) → IsCpuSet s → Lists s (λ j. true) (iter s)
unfolding iter
iter-Lists s v = filter_cpus-Lists s (λ j. true) v

-- With `max_cpu_id` below 64, `iter_except` does not panic, and lists the other CPUs of the set in increasing order.
pub iter_except-Lists :
    (s : CpuSet) (id : ℕ) → IsCpuSet s → Lists s (λ j. not (j == id)) (iter_except id s)
unfolding iter_except
iter_except-Lists s id v = filter_cpus-Lists s (λ j. not (j == id)) v
