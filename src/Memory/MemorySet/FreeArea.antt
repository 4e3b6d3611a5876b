-- ===== src/Memory/MemorySet/FreeArea.antt =====
-- `test_free_area` of src/memory/mm.rs looks at two neighbours only; among regions that are in order
-- and disjoint this is enough.
use sys_hyper.Base.{
  ℕ, ◌+◌, ◌^◌, ◌<◌, ◌≤◌, ◌≡◌, refl, sym, ap, Bool, true, false, not, ◌&&◌, ◌||◌, leb, ltb,
  Bool-cases, inl, inr, Option, none, some, List, [], ◌∷◌, arith, lt→ltb,
}
use sys_hyper.Base.Run.{ok}
use sys_hyper.Memory.Region.{MemoryRegion, is_overlap_with}
use sys_hyper.Memory.MemorySet.{last_of, before, after, overlaps_with, test_free_area}

-- The two regions have an address in common.
abbrev pub overlap : MemoryRegion → MemoryRegion → Bool
overlap r other = not (leb (r.start + r.size) other.start || leb (other.start + other.size) r.start)

-- No region has an address in common with the other one.
abbrev pub free_of_all : List MemoryRegion → MemoryRegion → Bool
free_of_all [] other = true
free_of_all (r ∷ rs) other = not (overlap r other) && free_of_all rs other

-- Regions in order from an address on, not empty, each ending before the next and below 2^64.
abbrev pub InOrder : ℕ → List MemoryRegion → Type 0
InOrder low [] = Unit
InOrder low (r ∷ rs) =
    (low ≤ r.start) × (0 < r.size) × (r.start + r.size < 2 ^ 64) × InOrder (r.start + r.size) rs

abbrev free_of : Option MemoryRegion → MemoryRegion → Bool
free_of none other = true
free_of (some r) other = not (overlap r other)

-- Behind the other region's end nothing overlaps it.
pub far_free :
    (low : ℕ) (rs : List MemoryRegion) (other : MemoryRegion)
    → InOrder low rs
    → other.start + other.size ≤ low
    → free_of_all rs other ≡ true
far_free low [] other o h = refl
far_free low (r ∷ rs) other (le, pos, fits, o) h =
    ground (arith, far_free (r.start + r.size) rs other o (omega arith))

-- A region from an address on that starts before another address.
abbrev Between : ℕ → ℕ → Option MemoryRegion → Type 0
Between low start none = Unit
Between low start (some q) = (low ≤ q.start) × (q.start < start) × (q.start + q.size < 2 ^ 64)

before-Between :
    (low start : ℕ) (rs : List MemoryRegion) → InOrder low rs → Between low start (before start rs)
before-Between low start [] o = tt
before-Between low start (r ∷ rs) (le, p, fits, o) = elim (Bool-cases (ltb r.start start)) [
  | inl below ↦
      rw below (
        last-Between (before start rs) (ground arith)
          (before-Between (r.start + r.size) start rs o))
  | inr above ↦ rw above (wider (before start rs) (before-Between (r.start + r.size) start rs o))
]
  where
    wider : (q : Option MemoryRegion) → Between (r.start + r.size) start q → Between low start q
    wider none h = h
    wider (some q) (a, b, c) = (omega arith, b, c)

    last-Between :
        (q : Option MemoryRegion)
        → r.start < start
        → Between (r.start + r.size) start q
        → Between low start (last_of r q)
    last-Between none lt h = (le, lt, fits)
    last-Between (some q) lt (a, b, c) = (omega arith, b, c)

before-none :
    (low start : ℕ) (rs : List MemoryRegion) → InOrder low rs → start ≤ low → before start rs ≡ none
before-none low start [] o h = refl
before-none low start (r ∷ rs) (le, p, fits, o) h =
    let above : ltb r.start start ≡ false = ground arith in
    rw above (before-none (r.start + r.size) start rs o (omega arith))

-- A region that starts before the other one matters only if it is the last such.
join :
    (r other : MemoryRegion) (b : Option MemoryRegion)
    → Between (r.start + r.size) other.start b
    → (a all : Bool) → (free_of b other && a) ≡ all
    → (free_of (last_of r b) other && a) ≡ (not (overlap r other) && all)
join r other none h a all e = rw (sym e) refl
join r other (some q) (le, lt, fits) a all e =
    let apart : overlap r other ≡ false = ground arith in rw apart e

neighbours :
    (low : ℕ) (rs : List MemoryRegion) (other : MemoryRegion)
    → InOrder low rs
    → 0 < other.size
    → (free_of (before other.start rs) other && free_of (after other.start rs) other)
      ≡ free_of_all rs other
neighbours low [] other o pos = refl
neighbours low (r ∷ rs) other (le, p, fits, o) pos = elim (Bool-cases (ltb r.start other.start)) [
  | inl below ↦ rw below (
      join r other (before other.start rs) (before-Between (r.start + r.size) other.start rs o)
        (free_of (after other.start rs) other) _ (neighbours (r.start + r.size) rs other o pos))
  | inr above ↦
      rw (above, before-none (r.start + r.size) other.start rs o (ground arith))
        (elim (Bool-cases (overlap r other)) [
          | inl hit ↦ rw hit refl
          | inr miss ↦ rw (miss, far_free (r.start + r.size) rs other o (ground arith)) refl
        ])
]

abbrev EndFits : Option MemoryRegion → Type 0
EndFits none = Unit
EndFits (some q) = q.start + q.size < 2 ^ 64

before-end : (low start : ℕ) (b : Option MemoryRegion) → Between low start b → EndFits b
before-end low start none h = tt
before-end low start (some q) (le, lt, fits) = fits

after-end : (low start : ℕ) (rs : List MemoryRegion) → InOrder low rs → EndFits (after start rs)
after-end low start [] o = tt
after-end low start (r ∷ rs) (le, p, fits, o) = elim (Bool-cases (ltb r.start start)) [
  | inl below ↦ rw below (after-end (r.start + r.size) start rs o)
  | inr above ↦ rw above fits
]

overlaps_with-free_of :
    (E : Type 0) {S : Type 0} (other : MemoryRegion) (s : S) (q : Option MemoryRegion)
    → other.start + other.size < 2 ^ 64
    → EndFits q
    → overlaps_with {E = E} q other s ≡ ok (not (free_of q other)) s
unfolding is_overlap_with
overlaps_with-free_of E other s none h fits = refl
overlaps_with-free_of E other s (some q) h fits =
    rw (lt→ltb (q.start + q.size) (2 ^ 64) fits, lt→ltb (other.start + other.size) (2 ^ 64) h)
      (ap (λ (t : Bool). ok t s) (ground arith))

-- For regions in order that are not empty, disjoint and end below 2^64, and another region that is not
-- empty and ends below 2^64: `test_free_area` does not panic, changes nothing, and says whether no
-- region of the list has an address in common with the other one.
pub test_free_area-free_of_all :
    {E S : Type 0} (rs : List MemoryRegion) (other : MemoryRegion) (s : S)
    → InOrder 0 rs
    → 0 < other.size
    → other.start + other.size < 2 ^ 64
    → test_free_area {E = E} rs other s ≡ ok (free_of_all rs other) s
unfolding test_free_area is_overlap_with
test_free_area-free_of_all {E} rs other s o pos fits =
    let b = before other.start rs in
    let a = after other.start rs in
    let eb =
      overlaps_with-free_of E other s b fits
        (before-end 0 other.start b (before-Between 0 other.start rs o)) in
    let ea = overlaps_with-free_of E other s a fits (after-end 0 other.start rs o) in
    let n = neighbours 0 rs other o pos in
    rw (eb, sym n)
      (elim (Bool-cases (free_of b other)) [
        | inl clear ↦ rw (clear, ea) (ap (λ (t : Bool). ok t s) (ground arith))
        | inr hit ↦ rw hit refl
      ])
