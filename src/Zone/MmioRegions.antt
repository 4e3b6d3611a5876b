-- ===== src/Zone/MmioRegions.antt =====
-- The device regions of a zone (`mmio` of src/zone.rs): registration, removal and lookup. A handler
-- is any type.
pub mod Lookup
use sys_hyper.Base.{
  ℕ, ◌+◌, ◌^◌, ◌<◌, ◌≡◌, ◌≢◌, refl, ◌∙◌, ap, Bool, true, false, ◌==◌, leb, if◌then◌else◌,
  Bool-cases, inl, inr, ◌⊎◌, ==→≢, lt→ltb, Option, none, some, List, [], ◌∷◌, arith,
}
use sys_hyper.Memory.Mmio.{MmioRegion, contains_region}

pub record MmioConfig (Handler : Type 0) : Type 0 where
  pub region : MmioRegion
  pub handler : Handler
  pub arg : ℕ

contains_region-fits :
    (r : MmioRegion) (addr size : ℕ)
    → addr + size < 2 ^ 64
    → r.start + r.size < 2 ^ 64
    → contains_region r addr size ≢ none
unfolding contains_region
contains_region-fits r addr size h g e =
    let e' = rw (lt→ltb (addr + size) (2 ^ 64) h, lt→ltb (r.start + r.size) (2 ^ 64) g) at e in
    elim (Bool-cases (leb r.start addr)) [
      | inl near ↦ let q = rw near at e' in cc q
      | inr far ↦ let q = rw far at e' in cc q
    ]

module _ {Handler : Type 0} where
  abbrev keep :
      MmioConfig Handler → Option (List (MmioConfig Handler)) → Option (List (MmioConfig Handler))
  keep c none = none
  keep c (some rest) = some (c ∷ rest)

  -- `none` is a panic: a region at the same start with another size.
  unfoldable pub mmio_region_register :
      ℕ → ℕ → Handler → ℕ → List (MmioConfig Handler) → Option (List (MmioConfig Handler))
  mmio_region_register start size handler arg [] =
      some (
        record { region = record { start = start; size = size }; handler = handler; arg = arg }
        ∷ [])
  mmio_region_register start size handler arg (c ∷ cs) =
      if c.region.start == start
      then if c.region.size == size
        then some (record c { handler = handler; arg = arg } ∷ cs)
        else none
      else keep c (mmio_region_register start size handler arg cs)

  unfoldable pub mmio_region_remove : ℕ → List (MmioConfig Handler) → List (MmioConfig Handler)
  mmio_region_remove start [] = []
  mmio_region_remove start (c ∷ cs) =
      let rest = mmio_region_remove start cs in if c.region.start == start then cs else c ∷ rest

  abbrev pub first_hit :
      MmioConfig Handler
      → Option Bool
      → Option (Option (MmioConfig Handler))
      → Option (Option (MmioConfig Handler))
  first_hit c none rest = none
  first_hit c (some b) rest = if b then some (some c) else rest

  unfoldable pub find_mmio_region :
      ℕ → ℕ → List (MmioConfig Handler) → Option (Option (MmioConfig Handler))
  unfolding contains_region
  find_mmio_region addr size [] = some none
  find_mmio_region addr size (c ∷ cs) =
      first_hit c (contains_region c.region addr size) (find_mmio_region addr size cs)

  -- The first region that starts at an address.
  abbrev pub at : ℕ → List (MmioConfig Handler) → Option (MmioConfig Handler)
  at start [] = none
  at start (c ∷ cs) = if c.region.start == start then some c else at start cs

  -- No two regions start at the same address.
  abbrev pub Distinct : List (MmioConfig Handler) → Type 0
  Distinct [] = Unit
  Distinct (c ∷ cs) = (at c.region.start cs ≡ none) × Distinct cs

  -- What a registration does.
  abbrev pub Registers :
      ℕ → ℕ → Handler → ℕ → List (MmioConfig Handler) → Option (List (MmioConfig Handler)) → Type 0
  Registers start size handler arg cs none =
      (c : MmioConfig Handler) × (at start cs ≡ some c) × (c.region.size ≢ size)
  Registers start size handler arg cs (some cs') =
      Distinct cs'
      × ((a : ℕ)
          → at a cs' ≡ (
              if a == start
              then some (record {
                region = record { start = start; size = size };
                handler = handler;
                arg = arg;
              })
              else at a cs))

  registered :
      (start size : ℕ) (handler : Handler) (arg : ℕ) (c : MmioConfig Handler)
      (cs : List (MmioConfig Handler)) (a : ℕ)
      → c.region.start ≡ start
      → c.region.size ≡ size
      → at a (record c { handler = handler; arg = arg } ∷ cs) ≡ (
          if a == start
          then some (record {
            region = record { start = start; size = size };
            handler = handler;
            arg = arg;
          })
          else at a (c ∷ cs))
  registered start size handler arg c cs a e g =
      let same : c.region ≡ record { start = start; size = size } =
        λ i. record { start = e i; size = g i } in
      elim (Bool-cases (a == start)) [
        | inl hit ↦
            let m : (c.region.start == a) ≡ true = ground arith in
            rw (hit, m)
              (ap (λ (r : MmioRegion). some (record { region = r; handler = handler; arg = arg }))
                same)
        | inr miss ↦ let m : (c.region.start == a) ≡ false = ground arith in rw (miss, m) refl
      ]

  -- A registration behind a region that starts elsewhere.
  behind :
      (start size : ℕ) (handler : Handler) (arg : ℕ) (c : MmioConfig Handler)
      (cs : List (MmioConfig Handler))
      → at c.region.start cs ≡ none
      → Distinct cs
      → (c.region.start == start) ≡ false
      → (r : Option (List (MmioConfig Handler))) → Registers start size handler arg cs r
      → Registers start size handler arg (c ∷ cs) (keep c r)
  behind start size handler arg c cs f d later none (x, e, h) = (x, rw later e, h)
  behind start size handler arg c cs f d later (some rest) (d', h) = (
    (h c.region.start ∙ rw (later, f) refl, d'),
    λ a. elim (Bool-cases (c.region.start == a)) [
      | inl hit ↦ let m : (a == start) ≡ false = ground arith in rw (hit, m) refl
      | inr miss ↦ rw miss (h a)
    ],
  )

  -- On a list of regions with different starts: after a registration the region at `start` has this
  -- size, handler and argument, every other address has the region that it had, and the starts are
  -- different. It panics only if a region starts at `start` with another size.
  pub mmio_region_register-Registers :
      (start size : ℕ) (handler : Handler) (arg : ℕ) (cs : List (MmioConfig Handler))
      → Distinct cs
      → Registers start size handler arg cs (mmio_region_register start size handler arg cs)
  unfolding mmio_region_register
  mmio_region_register-Registers start size handler arg [] d = ((refl, tt), λ a. ground arith)
  mmio_region_register-Registers start size handler arg (c ∷ cs) (f, d) =
      elim (Bool-cases (c.region.start == start)) [
        | inl here ↦ elim (Bool-cases (c.region.size == size)) [
          | inl same ↦
              rw (here, same)
                (
                  (f, d),
                  λ a. registered start size handler arg c cs a (ground arith) (ground arith),
                )
          | inr other ↦ rw (here, other) (c, rw here refl, ==→≢ c.region.size size other)
        ]
        | inr later ↦ rw later (
            behind start size handler arg c cs f d later _
              (mmio_region_register-Registers start size handler arg cs d))
      ]

  -- On a list of regions with different starts, a removal leaves no region at `start`, and every other
  -- address has the region that it had.
  pub mmio_region_remove-at :
      (start a : ℕ) (cs : List (MmioConfig Handler))
      → Distinct cs
      → at a (mmio_region_remove start cs) ≡ (if a == start then none else at a cs)
  unfolding mmio_region_remove
  mmio_region_remove-at start a [] d = ground arith
  mmio_region_remove-at start a (c ∷ cs) (f, d) = elim (Bool-cases (c.region.start == start)) [
    | inl here ↦
        let e : c.region.start ≡ start = ground arith in
        let f' = rw e at f in
        elim (Bool-cases (a == start)) [
          | inl hit ↦ let g : a ≡ start = ground arith in rw (here, hit, g) f'
          | inr miss ↦
              let m : (c.region.start == a) ≡ false = ground arith in rw (here, miss, m) refl
        ]
    | inr later ↦ elim (Bool-cases (c.region.start == a)) [
      | inl hit ↦ let m : (a == start) ≡ false = ground arith in rw (later, hit, m) refl
      | inr miss ↦ rw (later, miss) (mmio_region_remove-at start a cs d)
    ]
  ]

  -- What a lookup finds: a region of the list that contains the range; none if no region does.
  abbrev pub In : MmioConfig Handler → List (MmioConfig Handler) → Type 0
  In x [] = ⊥
  In x (c ∷ cs) = (x ≡ c) ⊎ In x cs

  abbrev pub Finds :
      ℕ → ℕ → List (MmioConfig Handler) → Option (Option (MmioConfig Handler)) → Type 0
  Finds addr size cs none = ⊥
  Finds addr size cs (some (some c)) = In c cs × (contains_region c.region addr size ≡ some true)
  Finds addr size cs (some none) =
      (c : MmioConfig Handler) → In c cs → contains_region c.region addr size ≡ some false

  -- The sums that a lookup compares fit 64 bits.
  abbrev pub Fits : ℕ → ℕ → List (MmioConfig Handler) → Type 0
  Fits addr size [] = Unit
  Fits addr size (c ∷ cs) = (c.region.start + c.region.size < 2 ^ 64) × Fits addr size cs

  find_rest :
      (addr size : ℕ) (c : MmioConfig Handler) (cs : List (MmioConfig Handler))
      → contains_region c.region addr size ≢ none
      → (o : Option Bool) → contains_region c.region addr size ≡ o
      → (r : Option (Option (MmioConfig Handler))) → Finds addr size cs r
      → Finds addr size (c ∷ cs) (first_hit c o r)
  find_rest addr size c cs fit none e r h = absurd (fit e)
  find_rest addr size c cs fit (some true) e r h = (inl refl, e)
  find_rest addr size c cs fit (some false) e none h = h
  find_rest addr size c cs fit (some false) e (some (some x)) (m, h) = (inr m, h)
  find_rest addr size c cs fit (some false) e (some none) h =
      λ x m. elim m [ inl q ↦ rw q e | inr m ↦ h x m ]

  -- When the ends of the access and of all regions are below 2^64, a lookup does not panic. It finds a
  -- region of the list that contains the access; if it finds none, no region of the list does.
  pub find_mmio_region-Finds :
      (addr size : ℕ) (cs : List (MmioConfig Handler))
      → addr + size < 2 ^ 64
      → Fits addr size cs
      → Finds addr size cs (find_mmio_region addr size cs)
  unfolding find_mmio_region
  find_mmio_region-Finds addr size [] h f = λ c m. absurd m
  find_mmio_region-Finds addr size (c ∷ cs) h (f, fs) =
      find_rest addr size c cs (contains_region-fits c.region addr size h f)
        (contains_region c.region addr size) refl _ (find_mmio_region-Finds addr size cs h fs)
