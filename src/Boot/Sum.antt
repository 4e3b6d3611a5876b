-- ===== src/Boot/Sum.antt =====
-- Sums over the CPUs.
use sys_hyper.Base.{
  ℕ, zero, suc, ◌+◌, ◌<◌, ◌≤◌, ◌≡◌, refl, Bool, true, false, ◌==◌, Bool-cases, inl, inr, ◌⊎◌, arith,
}
use sys_hyper.Boot.{Pc, at}

unfoldable pub sum : (Pc → ℕ) → ℕ → (ℕ → Pc) → ℕ
sum w zero pc = 0
sum w (suc n) pc = sum w n pc + w (pc n)

module _ (w : Pc → ℕ) where
  sum-above : (n i : ℕ) (p : Pc) (pc : ℕ → Pc) → n ≤ i → sum w n (at i p pc) ≡ sum w n pc
  unfolding sum
  sum-above zero i p pc h = refl
  sum-above (suc n) i p pc h =
      let other : (n == i) ≡ false = ground arith in
      rw (other, sum-above n i p pc (omega arith)) refl

  -- A step of one CPU changes the sum by the weights of its places.
  pub sum-at :
      (n i : ℕ) (p : Pc) (pc : ℕ → Pc) → i < n → sum w n (at i p pc) + w (pc i) ≡ sum w n pc + w p
  unfolding sum
  sum-at zero i p pc h = elim h [ ]
  sum-at (suc n) i p pc h = elim (Bool-cases (n == i)) [
    | inl last ↦
        let e : n ≡ i = ground arith in rw (last, sum-above n i p pc (omega arith), e) (omega arith)
    | inr before ↦ rw before (omega (arith, sum-at n i p pc (ground arith)))
  ]

  pub sum-le : (n : ℕ) (pc : ℕ → Pc) → ((p : Pc) → w p ≤ 1) → sum w n pc ≤ n
  unfolding sum
  sum-le zero pc h = omega arith
  sum-le (suc n) pc h = omega (arith, sum-le n pc h, h (pc n))

  -- A CPU's weight is part of the sum.
  pub le-sum : (n i : ℕ) (pc : ℕ → Pc) → i < n → w (pc i) ≤ sum w n pc
  unfolding sum
  le-sum zero i pc h = elim h [ ]
  le-sum (suc n) i pc h = elim (Bool-cases (n == i)) [
    | inl last ↦ let e : n ≡ i = ground arith in rw e (omega arith)
    | inr before ↦ omega (arith, le-sum n i pc (ground arith))
  ]

-- Sums of weights that compare for each of the CPUs.
pub sum_compare :
    (w x : Pc → ℕ) (n : ℕ) (pc : ℕ → Pc)
    → ((i : ℕ) → i < n → w (pc i) ≤ x (pc i))
    → sum w n pc ≤ sum x n pc
unfolding sum
sum_compare w x zero pc h = omega arith
sum_compare w x (suc n) pc h =
    omega (arith, sum_compare w x n pc (λ i lt. h i (omega arith)), h n (omega arith))

pub sum_all : (w : Pc → ℕ) (n : ℕ) (pc : ℕ → Pc) → ((i : ℕ) → i < n → w (pc i) ≡ 1) → sum w n pc ≡ n
unfolding sum
sum_all w zero pc h = refl
sum_all w (suc n) pc h =
    omega (arith, sum_all w n pc (λ i lt. h i (omega arith)), h n (omega arith))

-- A weight that is never more, and is less for one CPU.
pub sum_mono :
    (w x : Pc → ℕ) (n : ℕ) (pc : ℕ → Pc) → ((p : Pc) → w p ≤ x p) → sum w n pc ≤ sum x n pc
unfolding sum
sum_mono w x zero pc h = omega arith
sum_mono w x (suc n) pc h = omega (arith, sum_mono w x n pc h, h (pc n))

pub sum-lt :
    (w x : Pc → ℕ) (n i : ℕ) (pc : ℕ → Pc)
    → ((p : Pc) → w p ≤ x p)
    → i < n
    → w (pc i) < x (pc i)
    → sum w n pc < sum x n pc
unfolding sum
sum-lt w x zero i pc h lt less = elim lt [ ]
sum-lt w x (suc n) i pc h lt less = elim (Bool-cases (n == i)) [
  | inl last ↦
      let e : i ≡ n = ground arith in
      let less' = rw e at less in omega (arith, sum_mono w x n pc h, less')
  | inr before ↦ omega (arith, sum-lt w x n i pc h (ground arith) less, h (pc n))
]

-- One CPU is of a kind, or none is.
pub search_cpu :
    (b : Pc → Bool) (n : ℕ) (pc : ℕ → Pc)
    → ((i : ℕ) × (i < n) × (b (pc i) ≡ true)) ⊎ ((i : ℕ) → i < n → b (pc i) ≡ false)
search_cpu b zero pc = inr (λ i h. absurd (omega arith))
search_cpu b (suc n) pc = elim (Bool-cases (b (pc n))) [
  | inl yes_n ↦ inl (n, omega arith, yes_n)
  | inr no_n ↦ elim (search_cpu b n pc) [
    | inl (i, lt, e) ↦ inl (i, omega arith, e)
    | inr none_below ↦ inr (λ i h. elim (Bool-cases (i == n)) [
      | inl last ↦ let e : i ≡ n = ground arith in rw e no_n
      | inr before ↦ none_below i (ground arith)
    ])
  ]
]
