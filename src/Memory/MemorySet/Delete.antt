-- ===== src/Memory/MemorySet/Delete.antt =====
-- `delete` of src/memory/mm.rs.
use sys_hyper.Base.{
  ℕ, ◌+◌, ◌≤◌, ◌≡◌, sym, refl, true, false, ◌==◌, Bool-cases, inl, inr, List, [], ◌∷◌, Option, some,
  none, arith,
}
use sys_hyper.Base.Run.{Run, ok, err, panic, hang, and_then}
use sys_hyper.Error.{HvErrorNum}
use sys_hyper.Memory.Region.{MemoryRegion}
use sys_hyper.Memory.Frame.Bitmap.{BitAlloc}
use sys_hyper.Memory.MemorySet.{MemorySet, on_table, entry, remove_entry, delete}
use sys_hyper.Memory.MemorySet.FreeArea.{free_of_all, InOrder, far_free, overlap}
use sys_hyper.Paging.Pte.{GenericPte}
use sys_hyper.Paging.Table.{PtState}
use sys_hyper.Paging.Map
use sys_hyper.Paging.Tree.Mapped.{Pages}
use sys_hyper.Paging.Tree.Pages.{limit}
use sys_hyper.Paging.Tree.MapRegion.{Outside}
use sys_hyper.Paging.Tree.UnmapRegion.{UnmapsRegion, unmap-UnmapsRegion, Removed}
use sys_hyper.Memory.MemorySet.Mapped.{IsMapped, AllMapped, AllMapped-kept}

InOrder-weaken :
    (low low' : ℕ) (rs : List MemoryRegion) → low' ≤ low → InOrder low rs → InOrder low' rs
InOrder-weaken low low' [] h o = tt
InOrder-weaken low low' (r ∷ rs) h (le, pos, fits, o) = (omega arith, pos, fits, o)

remove_entry-InOrder :
    (start low : ℕ) (rs : List MemoryRegion) → InOrder low rs → InOrder low (remove_entry start rs)
remove_entry-InOrder start low [] o = tt
remove_entry-InOrder start low (r ∷ rs) (le, pos, fits, o) = elim (Bool-cases (r.start == start)) [
  | inl here ↦ rw here (InOrder-weaken (r.start + r.size) low rs (omega arith) o)
  | inr there ↦ rw there (le, pos, fits, remove_entry-InOrder start (r.start + r.size) rs o)
]

entry-low :
    (start low : ℕ) (rs : List MemoryRegion) (x : MemoryRegion)
    → InOrder low rs
    → entry start rs ≡ some x
    → low ≤ x.start
entry-low start low [] x o e = absurd (cc e)
entry-low start low (r ∷ rs) x (le, pos, fits, o) e = elim (Bool-cases (r.start == start)) [
  | inl here ↦ let q : r ≡ x = let e' = rw here at e in cc e' in rw q at le
  | inr there ↦ let lo = entry-low start (r.start + r.size) rs x o (rw there at e) in omega arith
]

-- A region that is taken out has no address in common with those that stay.
remove_entry-free :
    (start low : ℕ) (rs : List MemoryRegion) (x : MemoryRegion)
    → InOrder low rs
    → entry start rs ≡ some x
    → free_of_all (remove_entry start rs) x ≡ true
remove_entry-free start low [] x o e = refl
remove_entry-free start low (r ∷ rs) x (le, pos, fits, o) e = elim (Bool-cases (r.start == start)) [
  | inl here ↦
      let q : r ≡ x = let e' = rw here at e in cc e' in
      rw (here, sym q) (far_free (r.start + r.size) rs r o (omega arith))
  | inr there ↦
      let e' = rw there at e in
      let lo = entry-low start (r.start + r.size) rs x o e' in
      let apart : overlap r x ≡ false = ground arith in
      rw (there, apart) (remove_entry-free start (r.start + r.size) rs x o e')
]

module _ {State : Type 0} (B : BitAlloc State) (P : GenericPte) where
  entry-Pages :
      (s : PtState State) (start : ℕ) (rs : List MemoryRegion) (x : MemoryRegion)
      → entry start rs ≡ some x
      → AllMapped B P s rs
      → Pages B P s x.start x.size × (x.start + x.size ≤ limit s.pt)
  entry-Pages s start [] x e h = absurd (cc e)
  entry-Pages s start (r ∷ rs) x e (pages, bound, rest) = elim (Bool-cases (r.start == start)) [
    | inl here ↦ let q : r ≡ x = let e' = rw here at e in cc e' in rw (sym q) (pages, bound)
    | inr there ↦ entry-Pages s start rs x (rw there at e) rest
  ]

  remove_entry-AllMapped :
      (s : PtState State) (start : ℕ) (rs : List MemoryRegion)
      → AllMapped B P s rs
      → AllMapped B P s (remove_entry start rs)
  remove_entry-AllMapped s start [] h = tt
  remove_entry-AllMapped s start (r ∷ rs) (pages, bound, rest) =
      elim (Bool-cases (r.start == start)) [
        | inl here ↦ rw here rest
        | inr there ↦ rw there (pages, bound, remove_entry-AllMapped s start rs rest)
      ]

  -- What a deletion may give.
  abbrev pub Deletes : MemorySet State → ℕ → Run HvErrorNum (MemorySet State) (Unit {0}) → Type 0
  Deletes m start (ok u m') =
      IsMapped B P m'
      × (m'.regions ≡ remove_entry start m.regions)
      × ((x : MemoryRegion) × (entry start m.regions ≡ some x)
          × Removed B P m'.page_table x.start x.size
          × Outside B P m.page_table m'.page_table x.start x.size)
  Deletes m start (err e m') = (e ≡ HvErrorNum.einval) × (entry start m.regions ≡ none) × (m' ≡ m)
  Deletes m start panic = ⊥
  Deletes m start hang = ⊥

  module _ (m : MemorySet State) (start : ℕ) (v : IsMapped B P m) (x : MemoryRegion)
      (e : entry start m.regions ≡ some x) where
    taken_out :
        (r : Run HvErrorNum (PtState State) (Unit {0}))
        → UnmapsRegion B P m.page_table x.start x.size r
        → Deletes m start (
            and_then
              (on_table B P m r)
              (λ _ n. ok tt (record n { regions = remove_entry start n.regions })))
    taken_out (ok u s) ((t, level), removed, o) = (
      record {
        order = remove_entry-InOrder start 0 m.regions v.order;
        tree = t;
        mapped =
            AllMapped-kept B P m.page_table s (remove_entry start m.regions) x
              (remove_entry-free start 0 m.regions x v.order e) o level
              (remove_entry-AllMapped m.page_table start m.regions v.mapped);
      },
      refl,
      (x, e, removed, o),
    )
    taken_out (err y s) h = absurd h
    taken_out panic h = h
    taken_out hang h = h

  -- On a set whose regions are all mapped, `delete` neither panics nor hangs, and the regions that
  -- are left are all mapped. On success the region that starts at `start` is no longer in the set, none
  -- of its addresses is mapped, and every other address translates as before. The only error is
  -- EINVAL, no region starts at `start`, and nothing has changed.
  pub delete-Deletes :
      (m : MemorySet State) (start : ℕ) → IsMapped B P m → Deletes m start (delete B P start m)
  unfolding delete
  delete-Deletes m start v = go (entry start m.regions) refl
    where
      go :
          (q : Option MemoryRegion)
          → entry start m.regions ≡ q
          → Deletes m start (delete B P start m)
      go none e = rw e (refl, e, refl)
      go (some x) e =
          let (pages, bound) = entry-Pages m.page_table start m.regions x e v.mapped in
          rw e (
            taken_out m start v x e (Map.unmap B P x m.page_table)
              (unmap-UnmapsRegion B P x v.tree.1 pages bound))
