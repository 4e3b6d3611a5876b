-- ===== src/Zone/DeviceTree.antt =====
-- The search of `zone_create` of src/zone.rs for the guest address of a zone's device tree. The
-- value of psci's `INVALID_ADDRESS` is a parameter.
use sys_hyper.Base.{
  ℕ, ◌+◌, ◌-◌, ◌^◌, ◌<◌, ◌≤◌, ◌≡◌, refl, leb, ltb, if◌then◌else◌, Bool-cases, inl, inr, ◌⊎◌, Option,
  none, some, List, [], ◌∷◌, arith, lt→ltb,
}
use sys_hyper.Base.Panics.{◌>>=◌, checked_add}
use sys_hyper.Config.{HvConfigMemoryRegion}

abbrev translate : ℕ → HvConfigMemoryRegion → Option ℕ
translate paddr r = do sum ← checked_add r.virtual_start paddr; some (sum - r.physical_start)

-- The body of the `for` on a region whose start is not above the device tree.
abbrev below : ℕ → ℕ → HvConfigMemoryRegion → Option ℕ
below paddr dtb_ipa r = do
  end ← checked_add r.physical_start r.size
  if ltb paddr end then translate paddr r else some dtb_ipa

abbrev visit : ℕ → ℕ → HvConfigMemoryRegion → Option ℕ
visit paddr dtb_ipa r = if leb r.physical_start paddr then below paddr dtb_ipa r else some dtb_ipa

-- `none` is the panic of a sum that overflows.
unfoldable pub find_dtb : ℕ → ℕ → List HvConfigMemoryRegion → Option ℕ
find_dtb paddr dtb_ipa [] = some dtb_ipa
find_dtb paddr dtb_ipa (r ∷ rs) = do ipa ← visit paddr dtb_ipa r; find_dtb paddr ipa rs

-- A region holds a physical address.
abbrev pub Holds : HvConfigMemoryRegion → ℕ → Type 0
Holds r paddr = (r.physical_start ≤ paddr) × (paddr < r.physical_start + r.size)

abbrev pub Among : HvConfigMemoryRegion → List HvConfigMemoryRegion → Type 0
Among x [] = ⊥
Among x (r ∷ rs) = (x ≡ r) ⊎ Among x rs

-- The sums that the search makes fit 64 bits.
abbrev pub Fits : ℕ → List HvConfigMemoryRegion → Type 0
Fits paddr [] = Unit
Fits paddr (r ∷ rs) =
    (r.physical_start + r.size < 2 ^ 64) × (r.virtual_start + paddr < 2 ^ 64) × Fits paddr rs

abbrev pub Located : ℕ → ℕ → List HvConfigMemoryRegion → Option ℕ → Type 0
Located paddr start rs none = ⊥
Located paddr start rs (some ipa) =
    ((x : HvConfigMemoryRegion) × Among x rs
      × Holds x paddr
      × (offset : ℕ) × (x.physical_start + offset ≡ paddr)
      × (ipa ≡ x.virtual_start + offset))
    ⊎ (((x : HvConfigMemoryRegion) → Among x rs → Holds x paddr → ⊥) × (ipa ≡ start))

-- A region that does not hold the address adds nothing.
passed :
    (paddr start : ℕ) (r : HvConfigMemoryRegion) (rs : List HvConfigMemoryRegion)
    → (Holds r paddr → ⊥)
    → (o : Option ℕ) → Located paddr start rs o
    → Located paddr start (r ∷ rs) o
passed paddr start r rs out none h = h
passed paddr start r rs out (some ipa) h = elim h [
  | inl (x, m, held, d, e, g) ↦ inl (x, inr m, held, d, e, g)
  | inr (far, e) ↦ inr (λ x m. elim m [ inl q ↦ rw q out | inr m ↦ far x m ], e)
]

found :
    (paddr start ipa : ℕ) (r : HvConfigMemoryRegion) (rs : List HvConfigMemoryRegion)
    → Holds r paddr
    → (offset : ℕ) → r.physical_start + offset ≡ paddr
    → ipa ≡ r.virtual_start + offset
    → (o : Option ℕ) → Located paddr ipa rs o
    → Located paddr start (r ∷ rs) o
found paddr start ipa r rs here offset e g none h = h
found paddr start ipa r rs here offset e g (some a) h = elim h [
  | inl (x, m, held, d, q, p) ↦ inl (x, inr m, held, d, q, p)
  | inr (far, same) ↦ inl (r, inl refl, here, offset, e, rw same g)
]

-- When the end of every region and its start plus the address fit 64 bits, the search does not
-- panic. It gives the guest address of the device tree in a region that holds it, at the same offset
-- from the region's start, or `start` if no region holds it.
pub find_dtb-Located :
    (paddr start : ℕ) (rs : List HvConfigMemoryRegion)
    → Fits paddr rs
    → Located paddr start rs (find_dtb paddr start rs)
unfolding find_dtb
find_dtb-Located paddr start [] f = inr (λ x m. absurd m, refl)
find_dtb-Located paddr start (r ∷ rs) (f, g, fs) = elim (Bool-cases (leb r.physical_start paddr)) [
  | inr above ↦
      let out : Holds r paddr → ⊥ = λ (near, within). ground arith in
      rw above (passed paddr start r rs out _ (find_dtb-Located paddr start rs fs))
  | inl near ↦ elim (Bool-cases (ltb paddr (r.physical_start + r.size))) [
    | inr past ↦
        let out : Holds r paddr → ⊥ = λ (low, within). ground arith in
        rw (near, lt→ltb (r.physical_start + r.size) (2 ^ 64) f, past)
          (passed paddr start r rs out _ (find_dtb-Located paddr start rs fs))
    | inl within ↦
        rw
          (
            near,
            lt→ltb (r.physical_start + r.size) (2 ^ 64) f,
            within,
            lt→ltb (r.virtual_start + paddr) (2 ^ 64) g,
          )
          (found paddr start (r.virtual_start + paddr - r.physical_start) r rs
            (ground arith, ground arith) (paddr - r.physical_start) (ground arith) (ground arith) _
            (find_dtb-Located paddr (r.virtual_start + paddr - r.physical_start) rs fs))
  ]
]
