-- ===== src/Memory/MemorySet/Clear.antt =====
-- `clear` of src/memory/mm.rs, which also runs when a set is dropped.
use sys_hyper.Base.{
  ℕ, ◌+◌, ◌<◌, ◌≤◌, ◌≡◌, ◌∙◌, ◌⊎◌, refl, Bool, true, false, ltb, ◌&&◌, ◌||◌, Bool-cases, inl, inr,
  List, [], ◌∷◌, leb, arith,
}
use sys_hyper.Base.Result
use sys_hyper.Base.Run.{Run, ok, err, panic, hang, and_then}
use sys_hyper.Error.{HvErrorNum}
use sys_hyper.Memory.Region.{MemoryRegion}
use sys_hyper.Memory.Frame.Bitmap.{BitAlloc}
use sys_hyper.Memory.MemorySet.{MemorySet, on_table, clear, unmap_all, unwrapped}
use sys_hyper.Memory.MemorySet.FreeArea.{InOrder, far_free}
use sys_hyper.Memory.MemorySet.Mapped.{AllMapped, AllMapped-kept, IsMapped}
use sys_hyper.Paging.Pte.{GenericPte}
use sys_hyper.Paging.Table.{PtState, PagingError}
use sys_hyper.Paging.Map
use sys_hyper.Paging.Tree.{IsTree}
use sys_hyper.Paging.Tree.Grow.{Owner}
use sys_hyper.Paging.Tree.MapPage.{translate}
use sys_hyper.Paging.Tree.Pages.{limit}
use sys_hyper.Paging.Tree.MapRegion.{Kept}
use sys_hyper.Paging.Tree.UnmapRegion.{UnmapsRegion, unmap-UnmapsRegion}

-- The address is in one of the regions.
abbrev pub covered : List MemoryRegion → ℕ → Bool
covered [] va = false
covered (r ∷ rs) va = leb r.start va && ltb va (r.start + r.size) || covered rs va

covered-low :
    (low : ℕ) (rs : List MemoryRegion) (va : ℕ) → InOrder low rs → va < low → covered rs va ≡ false
covered-low low [] va o h = refl
covered-low low (r ∷ rs) va (le, pos, fits, o) h =
    ground (arith, covered-low (r.start + r.size) rs va o (omega arith))

module _ {State : Type 0} (B : BitAlloc State) (P : GenericPte) where
  -- The addresses of the regions are not mapped any more, the others translate as before.
  abbrev pub Unmapped : PtState State → PtState State → List MemoryRegion → Type 0
  Unmapped s s' rs =
      ((va : ℕ)
        → va < limit s.pt
        → covered rs va ≡ true
        → translate B P s' va ≡ Result.err PagingError.not_mapped)
      × ((va : ℕ)
          → va < limit s.pt
          → covered rs va ≡ false
          → translate B P s' va ≡ translate B P s va)

  abbrev UnmapsAll :
      MemorySet State → List MemoryRegion → Run HvErrorNum (MemorySet State) (Unit {0}) → Type 0
  UnmapsAll m rs (ok u m') =
      Kept B P m.page_table m'.page_table × Unmapped m.page_table m'.page_table rs
  UnmapsAll m rs (err e m') = ⊥
  UnmapsAll m rs panic = ⊥
  UnmapsAll m rs hang = ⊥

  module _ (m : MemorySet State) (low : ℕ) (r : MemoryRegion) (rs : List MemoryRegion)
      (order : InOrder low (r ∷ rs)) where
    beside : (va : ℕ) → covered (r ∷ rs) va ≡ false → (va < r.start) ⊎ (r.start + r.size ≤ va)
    beside va c = elim (Bool-cases (ltb va r.start)) [
      | inl below ↦ inl (ground arith)
      | inr above ↦ inr (ground (arith, c))
    ]

    both :
        (s1 : PtState State)
        → UnmapsRegion B P m.page_table r.start r.size (ok tt s1)
        → (q : Run HvErrorNum (MemorySet State) (Unit {0}))
        → UnmapsAll (record m { page_table = s1 }) rs q
        → UnmapsAll m (r ∷ rs) q
    both s1 ((t, level), removed, o) (ok u m') ((t', level'), (gone, same)) = (
      (t', level' ∙ level),
      (
        λ va lt c. elim (Bool-cases (leb r.start va && ltb va (r.start + r.size))) [
          | inl here ↦
              same va (rw level lt)
                (covered-low (r.start + r.size) rs va order.3 (ground (arith, here)))
              ∙ removed va (ground (arith, here)) (ground (arith, here))
          | inr there ↦ gone va (rw level lt) (rw there at c)
        ],
        λ va lt c. same va (rw level lt) (ground (arith, c)) ∙ o va lt (beside va c),
      ),
    )
    both s1 h (err e m') k = k
    both s1 h panic k = k
    both s1 h hang k = k

    then_all :
        (q : Run HvErrorNum (PtState State) (Unit {0}))
        → UnmapsRegion B P m.page_table r.start r.size q
        → ((s1 : PtState State)
            → UnmapsRegion B P m.page_table r.start r.size (ok tt s1)
            → UnmapsAll
                (record m { page_table = s1 })
                rs
                (unmap_all B P rs (record m { page_table = s1 })))
        → UnmapsAll m (r ∷ rs) (and_then (unwrapped B P (on_table B P m q)) (λ _. unmap_all B P rs))
    then_all (ok u s1) h ih = both s1 h _ (ih s1 h)
    then_all (err e s1) h ih = absurd h
    then_all panic h ih = h
    then_all hang h ih = h

  unmap_all-UnmapsAll :
      (low : ℕ) (rs : List MemoryRegion) (m : MemorySet State)
      → ((own : Owner) × IsTree B P own m.page_table)
      → InOrder low rs
      → AllMapped B P m.page_table rs
      → UnmapsAll m rs (unmap_all B P rs m)
  unfolding unmap_all
  unmap_all-UnmapsAll low [] m t o h = ((t, refl), (λ va lt c. absurd (cc c), λ va lt c. refl))
  unmap_all-UnmapsAll low (r ∷ rs) m (own, t) o (pages, bound, rest) =
      then_all m low r rs o (Map.unmap B P r m.page_table) (unmap-UnmapsRegion B P r t pages bound)
        (λ s1 ((t1, level), removed, out).
          unmap_all-UnmapsAll (r.start + r.size) rs (record m { page_table = s1 }) t1 o.3
            (AllMapped-kept B P m.page_table s1 rs r
              (far_free (r.start + r.size) rs r o.3 (omega arith)) out level rest))

  -- What `clear` gives.
  abbrev pub Clears : MemorySet State → Run HvErrorNum (MemorySet State) (Unit {0}) → Type 0
  Clears m (ok u m') =
      IsMapped B P m' × (m'.regions ≡ []) × Unmapped m.page_table m'.page_table m.regions
  Clears m (err e m') = ⊥
  Clears m panic = ⊥
  Clears m hang = ⊥

  all_cleared :
      (m : MemorySet State) (q : Run HvErrorNum (MemorySet State) (Unit {0}))
      → UnmapsAll m m.regions q
      → Clears m (and_then q (λ _ n. ok tt (record n { regions = [] })))
  all_cleared m (ok u m') ((t, level), h) = (record { order = tt; tree = t; mapped = tt }, refl, h)
  all_cleared m (err e m') h = h
  all_cleared m panic h = h
  all_cleared m hang h = h

  -- On a set whose regions are all mapped, `clear` succeeds: none of its calls of `unmap` fails, so
  -- no `unwrap` panics, and none hangs. No region is left, no address of a region is mapped any more,
  -- and every other address below the limit translates as before.
  pub clear-Clears : (m : MemorySet State) → IsMapped B P m → Clears m (clear B P m)
  unfolding clear
  clear-Clears m v =
      all_cleared m (unmap_all B P m.regions m)
        (unmap_all-UnmapsAll 0 m.regions m v.tree v.order v.mapped)
