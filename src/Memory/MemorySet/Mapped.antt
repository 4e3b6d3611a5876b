-- ===== src/Memory/MemorySet/Mapped.antt =====
-- The memory sets of src/memory/mm.rs whose regions are all mapped, and the operations that keep them.
use sys_hyper.Base.{
  ℕ, ◌+◌, ◌%◌, ◌^◌, ◌<◌, ◌≤◌, ◌≡◌, ◌⊎◌, true, ◌==◌, ltb, Bool-cases, inl, inr, List, [], ◌∷◌, arith,
}
use sys_hyper.Base.Run.{Run, ok, err, panic, hang}
use sys_hyper.Error.{HvErrorNum}
use sys_hyper.Memory.Region.{MemoryRegion}
use sys_hyper.Memory.Frame.Bitmap.{BitAlloc}
use sys_hyper.Memory.MemorySet.{MemorySet, put_region, insert}
use sys_hyper.Memory.MemorySet.FreeArea.{free_of_all, InOrder}
use sys_hyper.Memory.MemorySet.Insert.{Inserts, insert-Inserts}
use sys_hyper.Paging.Pte.{GenericPte}
use sys_hyper.Paging.Table.{PtState}
use sys_hyper.Paging.Tree.{IsTree}
use sys_hyper.Paging.Tree.Grow.{Owner}
use sys_hyper.Paging.Tree.Mapped.{Pages, Pages-kept}
use sys_hyper.Paging.Tree.Pages.{limit}
use sys_hyper.Paging.Tree.MapRegion.{Linear, Outside}

module _ {State : Type 0} (B : BitAlloc State) (P : GenericPte) where
  abbrev pub AllMapped : PtState State → List MemoryRegion → Type 0
  AllMapped s [] = Unit
  AllMapped s (r ∷ rs) =
      Pages B P s r.start r.size × (r.start + r.size ≤ limit s.pt) × AllMapped s rs

  -- The regions are in order, not empty and disjoint, each consists of mapped pages, and the tables
  -- form a tree.
  pub record IsMapped (m : MemorySet State) : Type 0 where
    pub order : InOrder 0 m.regions
    pub tree : (own : Owner) × IsTree B P own m.page_table
    pub mapped : AllMapped m.page_table m.regions

  -- A change of another region leaves them mapped.
  pub AllMapped-kept :
      (s s1 : PtState State) (rs : List MemoryRegion) (x : MemoryRegion)
      → free_of_all rs x ≡ true
      → Outside B P s s1 x.start x.size
      → s1.pt.level ≡ s.pt.level
      → AllMapped s rs
      → AllMapped s1 rs
  AllMapped-kept s s1 [] x free o level h = tt
  AllMapped-kept s s1 (r ∷ rs) x free o level (pages, bound, rest) = (
    Pages-kept B P (λ va lo hi. o va (omega arith) (apart va lo hi)) pages,
    rw level bound,
    AllMapped-kept s s1 rs x (ground arith) o level rest,
  )
    where
      apart :
          (va : ℕ) → r.start ≤ va → va < r.start + r.size → (va < x.start) ⊎ (x.start + x.size ≤ va)
      apart va lo hi = elim (Bool-cases (ltb va x.start)) [
        | inl below ↦ inl (ground arith)
        | inr above ↦ inr (ground arith)
      ]

  put_region-AllMapped :
      (s : PtState State) (x : MemoryRegion) (rs : List MemoryRegion)
      → Pages B P s x.start x.size
      → x.start + x.size ≤ limit s.pt
      → AllMapped s rs
      → AllMapped s (put_region x rs)
  put_region-AllMapped s x [] p b h = (p, b, tt)
  put_region-AllMapped s x (r ∷ rs) p b (pages, bound, rest) =
      elim (Bool-cases (ltb r.start x.start)) [
        | inl below ↦ rw below (pages, bound, put_region-AllMapped s x rs p b rest)
        | inr above ↦ elim (Bool-cases (r.start == x.start)) [
          | inl here ↦ rw (above, here) (p, b, rest)
          | inr there ↦ rw (above, there) (p, b, (pages, bound, rest))
        ]
      ]

  -- Whatever the result, the regions are all mapped.
  abbrev pub KeepsMapped : Run HvErrorNum (MemorySet State) (Unit {0}) → Type 0
  KeepsMapped (ok u m') = IsMapped m'
  KeepsMapped (err e m') = IsMapped m'
  KeepsMapped panic = ⊥
  KeepsMapped hang = ⊥

  inserted-IsMapped :
      (m : MemorySet State) (region : MemoryRegion) (p : ℕ)
      → IsMapped m
      → region.start + region.size ≤ limit m.page_table.pt
      → (r : Run HvErrorNum (MemorySet State) (Unit {0})) → Inserts B P m region p r
      → KeepsMapped r
  inserted-IsMapped m region p v bound (ok u m') (free, order, same, ((t, level), i, o, pages)) =
      record {
        order = order;
        tree = t;
        mapped = rw same (
            put_region-AllMapped m'.page_table region m.regions pages (rw level bound)
              (AllMapped-kept m.page_table m'.page_table m.regions region free o level v.mapped));
      }
  inserted-IsMapped m region p v bound (err e m') (same, inl (x, taken, table)) = record {
    order = rw same v.order;
    tree = rw table v.tree;
    mapped = rw (same, table) v.mapped;
  }
  inserted-IsMapped m region p v bound (err e m') (same, inr (free, ((t, level), o))) = record {
    order = rw same v.order;
    tree = t;
    mapped =
        rw same (AllMapped-kept m.page_table m'.page_table m.regions region free o level v.mapped);
  }
  inserted-IsMapped m region p v bound panic h = h
  inserted-IsMapped m region p v bound hang h = h

  -- On a set whose regions are all mapped, for a region of whole pages, not empty, that its mapper
  -- sends to whole consecutive pages, below 2^48 and below the addresses that the table translates:
  -- after `insert`, whether it succeeds or fails, the regions of the set are all mapped. It neither
  -- panics nor hangs.
  pub insert-IsMapped :
      (m : MemorySet State) (region : MemoryRegion) (p : ℕ)
      → IsMapped m
      → 0 < region.size
      → Linear region.mapper region.start p region.size
      → region.start % 0x1000 ≡ 0
      → p % 0x1000 ≡ 0
      → region.size % 0x1000 ≡ 0
      → region.start + region.size ≤ limit m.page_table.pt
      → p + region.size ≤ 2 ^ 48
      → KeepsMapped (insert B P region m)
  insert-IsMapped m region p v pos l hv hp hn bound small =
      inserted-IsMapped m region p v bound (insert B P region m)
        (insert-Inserts B P m region p v.order v.tree.1 pos l hv hp hn bound small)
