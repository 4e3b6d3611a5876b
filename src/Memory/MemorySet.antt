-- ===== src/Memory/MemorySet.antt =====
-- `MemorySet` of src/memory/mm.rs: the regions of an address space, by start in increasing order (the
-- code's BTreeMap), and its page table.
pub mod FreeArea
pub mod Insert
pub mod Mapped
pub mod Delete
pub mod Clear
use sys_hyper.Base.{
  ℕ, zero, ◌==◌, ltb, not, if◌then◌else◌, Bool, true, false, Option, none, some, List, [], ◌∷◌,
}
use sys_hyper.Base.Run.{M, Run, ok, err, panic, hang, ◌>>=◌, ◌>>◌, pure, fail, assert, get, put}
use sys_hyper.Error.{HvErrorNum}
use sys_hyper.Memory.Addr
use sys_hyper.Memory.Region.{MemoryRegion, is_overlap_with}
use sys_hyper.Memory.Frame.Bitmap.{BitAlloc}
use sys_hyper.Paging.Pte.{GenericPte}
use sys_hyper.Paging.Table.{PtState}
use sys_hyper.Paging.Map

abbrev pub last_of : MemoryRegion → Option MemoryRegion → Option MemoryRegion
last_of r none = some r
last_of r (some q) = some q

-- `regions.range(..start).last()`
abbrev pub before : ℕ → List MemoryRegion → Option MemoryRegion
before start [] = none
before start (r ∷ rs) =
    let rest = before start rs in if ltb r.start start then last_of r rest else rest

-- `regions.range(start..).next()`
abbrev pub after : ℕ → List MemoryRegion → Option MemoryRegion
after start [] = none
after start (r ∷ rs) = if ltb r.start start then after start rs else some r

-- The map with the region under its start.
abbrev pub put_region : MemoryRegion → List MemoryRegion → List MemoryRegion
put_region x [] = x ∷ []
put_region x (r ∷ rs) =
    let rest = put_region x rs in
    if ltb r.start x.start then r ∷ rest else if r.start == x.start then x ∷ rs else x ∷ r ∷ rs

abbrev pub entry : ℕ → List MemoryRegion → Option MemoryRegion
entry start [] = none
entry start (r ∷ rs) = if r.start == start then some r else entry start rs

abbrev pub remove_entry : ℕ → List MemoryRegion → List MemoryRegion
remove_entry start [] = []
remove_entry start (r ∷ rs) =
    let rest = remove_entry start rs in if r.start == start then rs else r ∷ rest

module _ {E S : Type 0} where
  abbrev pub overlaps_with : Option MemoryRegion → MemoryRegion → M E S Bool
  overlaps_with none other = pure false
  overlaps_with (some r) other = is_overlap_with r other

  unfoldable pub test_free_area : List MemoryRegion → MemoryRegion → M E S Bool
  unfolding is_overlap_with
  test_free_area regions other = do
    b ← overlaps_with (before other.start regions) other
    if b then pure false else do a ← overlaps_with (after other.start regions) other; pure (not a)

pub record MemorySet (State : Type 0) : Type 0 where
  pub regions : List MemoryRegion
  pub page_table : PtState State

module _ {State : Type 0} (B : BitAlloc State) (P : GenericPte) where
  abbrev SetM : Type 0 → Type 0
  SetM A = M HvErrorNum (MemorySet State) A

  -- An operation of the page table.
  abbrev pub on_table :
      MemorySet State
      → Run HvErrorNum (PtState State) (Unit {0})
      → Run HvErrorNum (MemorySet State) (Unit {0})
  on_table m (ok u s) = ok u (record m { page_table = s })
  on_table m (err e s) = err e (record m { page_table = s })
  on_table m panic = panic
  on_table m hang = hang

  unfoldable pub insert : MemoryRegion → SetM (Unit {0})
  unfolding Addr.is_aligned test_free_area
  insert region = do
    assert (Addr.is_aligned region.start)
    assert (Addr.is_aligned region.size)
    if region.size == 0 then pure tt else do
      m ← get
      free ← test_free_area m.regions region
      if not free then fail HvErrorNum.einval else do
        λ m. on_table m (Map.map B P region m.page_table)
        n ← get
        put (record n { regions = put_region region n.regions })

  unfoldable pub delete : ℕ → SetM (Unit {0})
  delete start = do m ← get; found start (entry start m.regions)
    where
      found : ℕ → Option MemoryRegion → SetM (Unit {0})
      found start none = fail HvErrorNum.einval
      found start (some r) = do
        λ m. on_table m (Map.unmap B P r m.page_table)
        n ← get
        put (record n { regions = remove_entry start n.regions })

  -- `unwrap` of an error of `unmap` is a panic.
  abbrev pub unwrapped :
      Run HvErrorNum (MemorySet State) (Unit {0}) → Run HvErrorNum (MemorySet State) (Unit {0})
  unwrapped (ok u m) = ok u m
  unwrapped (err e m) = panic
  unwrapped panic = panic
  unwrapped hang = hang

  unfoldable pub unmap_all : List MemoryRegion → SetM (Unit {0})
  unmap_all [] = pure tt
  unmap_all (r ∷ rs) = do λ m. unwrapped (on_table m (Map.unmap B P r m.page_table)); unmap_all rs

  unfoldable pub clear : SetM (Unit {0})
  unfolding unmap_all
  clear = do m ← get; unmap_all m.regions; n ← get; put (record n { regions = [] })
