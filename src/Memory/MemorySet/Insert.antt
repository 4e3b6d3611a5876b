-- ===== src/Memory/MemorySet/Insert.antt =====
-- `insert` of src/memory/mm.rs: the regions stay disjoint, and the new one is mapped.
use sys_hyper.Base.{
  ℕ, ◌+◌, ◌%◌, ◌^◌, ◌<◌, ◌≤◌, ◌≡◌, ◌⊎◌, refl, true, false, ◌==◌, ltb, Bool-cases, inl, inr, List,
  [], ◌∷◌, arith,
}
use sys_hyper.Base.Run.{Run, ok, err, panic, hang, and_then}
use sys_hyper.Error.{HvErrorNum}
use sys_hyper.Memory.Addr
use sys_hyper.Memory.Region.{MemoryRegion}
use sys_hyper.Memory.Frame.Bitmap.{BitAlloc}
use sys_hyper.Memory.MemorySet.{MemorySet, put_region, on_table, insert}
use sys_hyper.Memory.MemorySet.FreeArea.{free_of_all, InOrder, test_free_area-free_of_all}
use sys_hyper.Paging.Pte.{GenericPte}
use sys_hyper.Paging.Table.{PtState}
use sys_hyper.Paging.Map
use sys_hyper.Paging.Tree.{IsTree}
use sys_hyper.Paging.Tree.Grow.{Owner}
use sys_hyper.Paging.Tree.Pages.{limit, limit-le}
use sys_hyper.Paging.Tree.MapRegion.{Linear, MapsRegion, map-MapsRegion}

pub put_region-InOrder :
    (low : ℕ) (x : MemoryRegion) (rs : List MemoryRegion)
    → InOrder low rs
    → low ≤ x.start
    → 0 < x.size
    → x.start + x.size < 2 ^ 64
    → free_of_all rs x ≡ true
    → InOrder low (put_region x rs)
put_region-InOrder low x [] o le pos fits free = (le, pos, fits, tt)
put_region-InOrder low x (r ∷ rs) (le', p, f, o) le pos fits free =
    elim (Bool-cases (ltb r.start x.start)) [
      | inl below ↦ rw below (
        le',
        p,
        f,
        put_region-InOrder (r.start + r.size) x rs o (ground arith) pos fits (ground arith),
      )
      | inr above ↦
          let other : (r.start == x.start) ≡ false = ground arith in
          rw (above, other) (le, pos, fits, (ground arith, p, f, o))
    ]

module _ {State : Type 0} (B : BitAlloc State) (P : GenericPte) where
  -- What an insertion may give.
  abbrev pub Inserts :
      MemorySet State → MemoryRegion → ℕ → Run HvErrorNum (MemorySet State) (Unit {0}) → Type 0
  Inserts m region p (ok u m') =
      (free_of_all m.regions region ≡ true)
      × InOrder 0 m'.regions
      × (m'.regions ≡ put_region region m.regions)
      × MapsRegion B P m.page_table region.start region.size p region.flags (ok u m'.page_table)
  Inserts m region p (err e m') =
      (m'.regions ≡ m.regions)
      × (((e ≡ HvErrorNum.einval)
            × (free_of_all m.regions region ≡ false)
            × (m'.page_table ≡ m.page_table))
          ⊎ ((free_of_all m.regions region ≡ true)
              × MapsRegion B P m.page_table region.start region.size p region.flags
                  (err e m'.page_table)))
  Inserts m region p panic = ⊥
  Inserts m region p hang = ⊥

  module _ (m : MemorySet State) (region : MemoryRegion) (p : ℕ) (order : InOrder 0 m.regions)
      (some_bytes : 0 < region.size) (fits : region.start + region.size < 2 ^ 64)
      (free : free_of_all m.regions region ≡ true) where
    mapped-Inserts :
        (r : Run HvErrorNum (PtState State) (Unit {0}))
        → MapsRegion B P m.page_table region.start region.size p region.flags r
        → Inserts m region p (
            and_then
              (on_table B P m r)
              (λ _ n. ok tt (record n { regions = put_region region n.regions })))
    mapped-Inserts (ok u s) h = (
      free,
      put_region-InOrder 0 region m.regions order (omega arith) some_bytes fits free,
      refl,
      h,
    )
    mapped-Inserts (err e s) h = (refl, inr (free, h))
    mapped-Inserts panic h = h
    mapped-Inserts hang h = h

  -- On a set whose regions are in order, not empty and disjoint, and whose tables form a tree, for a
  -- region of whole pages, not empty, that its mapper sends to whole consecutive pages, below 2^48 and
  -- below the addresses that the table translates: `insert` neither panics nor hangs. On success no
  -- region had an address in common with the new one, the regions with the new one are in order and
  -- disjoint, and the page table maps it as `map` does. On an error the regions are those before it,
  -- and either it is EINVAL, a region has an address in common with the new one and the page table is
  -- as before, or no region has, and it is an error of `map`, which maps nothing outside the new
  -- region.
  pub insert-Inserts :
      (m : MemorySet State) (region : MemoryRegion) (p : ℕ) {own : Owner}
      → InOrder 0 m.regions
      → IsTree B P own m.page_table
      → 0 < region.size
      → Linear region.mapper region.start p region.size
      → region.start % 0x1000 ≡ 0
      → p % 0x1000 ≡ 0
      → region.size % 0x1000 ≡ 0
      → region.start + region.size ≤ limit m.page_table.pt
      → p + region.size ≤ 2 ^ 48
      → Inserts m region p (insert B P region m)
  unfolding insert
  insert-Inserts m region p o t pos l hv hp hn bound small =
      let top = limit-le m.page_table.pt in
      let fits : region.start + region.size < 2 ^ 64 = omega arith in
      let size_set : (region.size == 0) ≡ false = ground arith in
      let tested = test_free_area-free_of_all {E = HvErrorNum} m.regions region m o pos fits in
      let aligned = (Addr.is_aligned_iff region.start).1 hv in
      let aligned' = (Addr.is_aligned_iff region.size).1 hn in
      elim (Bool-cases (free_of_all m.regions region)) [
        | inr taken ↦
            rw (aligned, aligned', size_set, tested, taken) (refl, inl (refl, taken, refl))
        | inl free ↦
            rw (aligned, aligned', size_set, tested, free)
              (mapped-Inserts m region p o pos fits free (Map.map B P region m.page_table)
                (map-MapsRegion B P region p t l hv hp hn bound small))
      ]
