-- ===== src/Zone/MmioRegions/Lookup.antt =====
-- What `find_mmio_region` of src/zone.rs finds, by the bounds of the regions.
use sys_hyper.Base.{
  ℕ, ◌+◌, ◌^◌, ◌<◌, ◌≤◌, ◌≡◌, refl, ap, true, false, leb, Bool-cases, inl, inr, ◌⊎◌, lt→ltb, Option,
  none, some, List, [], ◌∷◌, ◌++◌, arith,
}
use sys_hyper.Memory.Mmio.{MmioRegion, contains_region}
use sys_hyper.Zone.MmioRegions.{MmioConfig, Fits, find_mmio_region}

-- The range of `size` bytes from `addr` lies in the region, or does not.
abbrev pub Holds : MmioRegion → ℕ → ℕ → Type 0
Holds r addr size = (r.start ≤ addr) × (addr + size ≤ r.start + r.size)

abbrev pub Misses : MmioRegion → ℕ → ℕ → Type 0
Misses r addr size = (addr < r.start) ⊎ (r.start + r.size < addr + size)

decides :
    (r : MmioRegion) (addr size : ℕ)
    → addr + size < 2 ^ 64
    → r.start + r.size < 2 ^ 64
    → ((contains_region r addr size ≡ some true) × Holds r addr size)
      ⊎ ((contains_region r addr size ≡ some false) × Misses r addr size)
unfolding contains_region
decides r addr size h g = elim (Bool-cases (leb r.start addr)) [
  | inl near ↦ elim (Bool-cases (leb (addr + size) (r.start + r.size))) [
    | inl fits ↦ inl (
      rw (near, lt→ltb (addr + size) (2 ^ 64) h, lt→ltb (r.start + r.size) (2 ^ 64) g, fits) refl,
      (ground arith, ground arith),
    )
    | inr past ↦ inr (
      rw (near, lt→ltb (addr + size) (2 ^ 64) h, lt→ltb (r.start + r.size) (2 ^ 64) g, past) refl,
      inr (ground arith),
    )
  ]
  | inr far ↦ inr (rw far refl, inl (ground arith))
]

module _ {Handler : Type 0} where
  abbrev pub AllMiss : ℕ → ℕ → List (MmioConfig Handler) → Type 0
  AllMiss addr size [] = Unit
  AllMiss addr size (c ∷ cs) = Misses c.region addr size × AllMiss addr size cs

  -- The first region of the list that holds the range; none if no region does.
  abbrev pub FindsFirst :
      ℕ → ℕ → List (MmioConfig Handler) → Option (Option (MmioConfig Handler)) → Type 0
  FindsFirst addr size cs none = ⊥
  FindsFirst addr size cs (some none) = AllMiss addr size cs
  FindsFirst addr size cs (some (some c)) =
      (earlier later : List (MmioConfig Handler)) × (cs ≡ earlier ++ c ∷ later)
      × Holds c.region addr size
      × AllMiss addr size earlier

  later_find :
      (addr size : ℕ) (c : MmioConfig Handler) (cs : List (MmioConfig Handler))
      → Misses c.region addr size
      → (r : Option (Option (MmioConfig Handler))) → FindsFirst addr size cs r
      → FindsFirst addr size (c ∷ cs) r
  later_find addr size c cs miss none h = h
  later_find addr size c cs miss (some none) h = (miss, h)
  later_find addr size c cs miss (some (some x)) (earlier, later, e, holds, misses) =
      (c ∷ earlier, later, ap (λ (l : List (MmioConfig Handler)). c ∷ l) e, holds, (miss, misses))

  -- When the ends of the access and of all regions are below 2^64, a lookup does not panic. It finds
  -- the first region of the list that begins at or before the access and ends at or after its end; if
  -- it finds none, every region begins after the access's start or ends before its end.
  pub find_mmio_region-FindsFirst :
      (addr size : ℕ) (cs : List (MmioConfig Handler))
      → addr + size < 2 ^ 64
      → Fits addr size cs
      → FindsFirst addr size cs (find_mmio_region addr size cs)
  unfolding find_mmio_region
  find_mmio_region-FindsFirst addr size [] h f = tt
  find_mmio_region-FindsFirst addr size (c ∷ cs) h (f, fs) = elim (decides c.region addr size h f) [
    | inl (e, holds) ↦ rw e ([], cs, refl, holds, tt)
    | inr (e, miss) ↦
        rw e (later_find addr size c cs miss _ (find_mmio_region-FindsFirst addr size cs h fs))
  ]
