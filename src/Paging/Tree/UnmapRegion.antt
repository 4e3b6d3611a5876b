-- ===== src/Paging/Tree/UnmapRegion.antt =====
-- `unmap` of src/arch/aarch64/paging.rs: the loop over the pages of a region.
use sys_hyper.Base.{
  ℕ, zero, suc, ◌+◌, ◌-◌, ◌*◌, ◌/◌, ◌%◌, ◌^◌, ◌≤◌, ◌<◌, ◌≡◌, refl, sym, ◌∙◌, ap, ◌⊎◌, Bool-cases,
  inl, inr, subst, ltb, lt→ltb, le→leb, leb, not, if◌then◌else◌, Option, some, none, arith,
}
use sys_hyper.Base.Result
use sys_hyper.Base.Result.{Result}
use sys_hyper.Base.Run.{
  M, ◌>>=◌, ◌>>◌, checked_add, checked_sub, Run, ok, err, panic, hang, and_then, map_err, assert,
}
use sys_hyper.Error.{HvErrorNum}
use sys_hyper.Memory.Region.{MemoryRegion}
use sys_hyper.Memory.Frame.Bitmap.{BitAlloc}
use sys_hyper.Paging.PageSize.{PageSize, bytes, is_aligned}
use sys_hyper.Paging.Pte.{GenericPte}
use sys_hyper.Paging.Table.{PagingError, PtState, HvPageTable, to_hv_error}
use sys_hyper.Paging.Map.{unmap_page, unmap_loop, unmap, map}
use sys_hyper.Paging.Tree.{IsTree}
use sys_hyper.Paging.Tree.Grow.{Owner}
use sys_hyper.Paging.Tree.MapPage.{translate}
use sys_hyper.Paging.Tree.Mapped.{Pages, Pages-aligned, Pages-kept}
use sys_hyper.Paging.Tree.MapRegion.{Kept, Outside, Linear, MapsRegion, map-MapsRegion}
use sys_hyper.Paging.Tree.Pages.{limit, on_page, off_page, bytes-pages, limit-le, is_aligned-true}
use sys_hyper.Paging.Tree.UnmapPage.{Unmaps, unmap_page-Unmaps}

-- The size of the page that an address translates by is determined.
same_size :
    (r : Result PagingError (ℕ × ℕ × PageSize)) (pa f : ℕ) (size : PageSize) (x : ℕ)
    (flags : Option ℕ) (z : PageSize)
    → r ≡ Result.ok (pa, f, size)
    → r ≡ Result.◌>>=◌ (Result.unwrap flags) (λ g. Result.ok (x, g, z))
    → size ≡ z
same_size r pa f size x (some g) z h e = let q = sym h ∙ e in cc q
same_size r pa f size x none z h e = let q = sym h ∙ e in absurd (cc q)

module _ {State : Type 0} (B : BitAlloc State) (P : GenericPte) where
  abbrev pub Removed : PtState State → ℕ → ℕ → Type 0
  Removed s' v n =
      (va : ℕ) → v ≤ va → va < v + n → translate B P s' va ≡ Result.err PagingError.not_mapped

  -- Unmapping n mapped bytes from v succeeds: none of their addresses is mapped any more, every other
  -- address below the limit translates as before, and the tables form a tree.
  abbrev pub UnmapsRegion :
      PtState State → ℕ → ℕ → Run HvErrorNum (PtState State) (Unit {0}) → Type 0
  UnmapsRegion s v n (ok u s') = Kept B P s s' × Removed s' v n × Outside B P s s' v n
  UnmapsRegion s v n (err e s') = ⊥
  UnmapsRegion s v n panic = ⊥
  UnmapsRegion s v n hang = ⊥

  -- One page is unmapped, and then the rest.
  module _ (s s1 : PtState State) (v n : ℕ) (size : PageSize) (a : v % bytes size ≡ 0)
      (room : bytes size ≤ n) (bound : v + n ≤ limit s.pt) (frame : ℕ)
      (m : Unmaps B P s v (ok (frame, size) s1)) where
    abbrev b : ℕ
    b = bytes size

    v_limit : v < limit s.pt
    v_limit = let (whole, least) = bytes-pages size in omega arith

    off :
        (va : ℕ)
        → va < limit s.pt
        → (va < v) ⊎ (v + b ≤ va)
        → translate B P s1 va ≡ translate B P s va
    off va lt far = m.4 va (off_page s.pt size v va a v_limit lt far)

    rest_kept : Pages B P s (v + b) (n - b) → Pages B P s1 (v + b) (n - b)
    rest_kept = Pages-kept B P (λ va lo hi. off va (omega arith) (inr lo))

    then_rest :
        (r : Run HvErrorNum (PtState State) (Unit {0}))
        → UnmapsRegion s1 (v + b) (n - b) r
        → UnmapsRegion s v n r
    then_rest (ok u s2) ((t, l), removed, o) = (
      (t, l ∙ ap (λ (x : HvPageTable). x.level) m.1),
      λ va le lt. elim (Bool-cases (ltb va (v + b))) [
        | inl first ↦
            let lt1 : va < v + b = ground arith in
            let hi : va < limit s.pt = omega arith in
            o va (rw m.1 hi) (inl lt1) ∙ m.3 va (on_page s.pt size v va a hi le lt1)
        | inr later ↦ removed va (ground arith) (omega arith)
      ],
      λ va lt far.
          o va (rw m.1 lt)
            (elim far [ inl below ↦ inl (omega arith) | inr above ↦ inr (omega arith) ])
          ∙ off va lt (elim far [ inl below ↦ inl below | inr above ↦ inr (omega arith) ]),
    )
    then_rest (err e s2) h = h
    then_rest panic h = h
    then_rest hang h = h

  -- The rest of a round of `unmap`, after its page.
  abbrev after_page : ℕ → ℕ → ℕ → ℕ × PageSize → M HvErrorNum (PtState State) (Unit {0})
  after_page fuel v n (frame, size) = if not (is_aligned size v) then (λ s. hang) else do
    assert (leb (bytes size) n)
    next ← checked_add v (bytes size)
    left ← checked_sub n (bytes size)
    unmap_loop B P fuel next left

  page-UnmapsRegion :
      (fuel : ℕ) (s : PtState State) (v n pa flags : ℕ) (size : PageSize)
      → v % bytes size ≡ 0
      → bytes size ≤ n
      → translate B P s v ≡ Result.ok (pa, flags, size)
      → Pages B P s (v + bytes size) (n - bytes size)
      → v + n ≤ limit s.pt
      → ((s1 : PtState State)
          → Kept B P s s1
          → Pages B P s1 (v + bytes size) (n - bytes size)
          → UnmapsRegion s1
              (v + bytes size)
              (n - bytes size)
              (unmap_loop B P fuel (v + bytes size) (n - bytes size) s1))
      → (r : Run PagingError (PtState State) (ℕ × PageSize)) → Unmaps B P s v r
      → UnmapsRegion s v n (and_then (map_err to_hv_error r) (after_page fuel v n))
  page-UnmapsRegion fuel s v n pa flags size a room e pages bound ih (ok (frame, z) s1) m =
      let same : z ≡ size = sym (same_size _ pa flags size _ m.2.0 z e m.2.1) in
      let m' = subst (λ (x : PageSize). Unmaps B P s v (ok (frame, x) s1)) same m in
      let top : limit s.pt ≤ 2 ^ 48 = limit-le s.pt in
      let level : s1.pt.level ≡ s.pt.level = ap (λ (x : HvPageTable). x.level) m.1 in
      rw
        (
          same,
          is_aligned-true size v a,
          le→leb (bytes size) n room,
          lt→ltb (v + bytes size) (2 ^ 64) (omega arith),
        )
        (then_rest s s1 v n size a room bound frame m' _
          (ih s1 (m.0, level) (rest_kept s s1 v n size a room bound frame m' pages)))
  page-UnmapsRegion fuel s v n pa flags size a room e pages bound ih (err x s1) m =
      let q = sym e ∙ m.1 in absurd (cc q)
  page-UnmapsRegion fuel s v n pa flags size a room e pages bound ih panic m = m
  page-UnmapsRegion fuel s v n pa flags size a room e pages bound ih hang m = m

  pub unmap_loop-UnmapsRegion :
      (fuel : ℕ) (own : Owner) (s : PtState State) (v n : ℕ)
      → IsTree B P own s
      → Pages B P s v n
      → n ≤ fuel * 0x1000
      → v + n ≤ limit s.pt
      → UnmapsRegion s v n (unmap_loop B P fuel v n s)
  unfolding unmap_loop
  unmap_loop-UnmapsRegion fuel own s v zero t pages enough bound =
      (((own, t), refl), λ va le lt. absurd (omega arith), λ va lt far. refl)
  unmap_loop-UnmapsRegion zero own s v (suc k) t pages enough bound = absurd (omega arith)
  unmap_loop-UnmapsRegion (suc fuel) own s v (suc k) t (Pages.page size pa flags a room e rest)
        enough bound =
      let (whole, least) = bytes-pages size in
      page-UnmapsRegion fuel s v (suc k) pa flags size a room e rest bound
        (λ s1 ((own1, t1), same) pages.
          unmap_loop-UnmapsRegion fuel own1 s1 (v + bytes size) (suc k - bytes size) t1 pages
            (omega arith) (rw same (omega arith)))
        (unmap_page B P v s) (unmap_page-Unmaps B P t v)

  -- On a table whose tables form a tree, for a region that consists of mapped pages and lies below
  -- the addresses that the table translates: `unmap` succeeds, it neither panics nor hangs. No
  -- address of the region is mapped any more, every other address translates as before, and the
  -- tables form a tree.
  pub unmap-UnmapsRegion :
      (region : MemoryRegion) {own : Owner} {s : PtState State}
      → IsTree B P own s
      → Pages B P s region.start region.size
      → region.start + region.size ≤ limit s.pt
      → UnmapsRegion s region.start region.size (unmap B P region s)
  unfolding unmap
  unmap-UnmapsRegion region {own} {s} t pages bound =
      unmap_loop-UnmapsRegion (region.size / 0x1000) own s region.start region.size t pages
        (omega (arith, Pages-aligned B P pages)) bound

  -- What `map` and then `unmap` of a region gives.
  abbrev pub Undoes : PtState State → ℕ → ℕ → Run HvErrorNum (PtState State) (Unit {0}) → Type 0
  Undoes s v n (ok u s') = Kept B P s s' × Removed s' v n × Outside B P s s' v n
  Undoes s v n (err e s') = Kept B P s s' × Outside B P s s' v n
  Undoes s v n panic = ⊥
  Undoes s v n hang = ⊥

  unmap-Undoes :
      (region : MemoryRegion) (s : PtState State) (p : ℕ)
      → region.start + region.size ≤ limit s.pt
      → (r : Run HvErrorNum (PtState State) (Unit {0}))
      → MapsRegion B P s region.start region.size p region.flags r
      → Undoes s region.start region.size (and_then r (λ _. unmap B P region))
  unmap-Undoes region s p bound (ok u s1) (((own, t), same), inside, outside, pages) =
      back (unmap B P region s1) (unmap-UnmapsRegion region t pages (rw same bound))
    where
      back :
          (r : Run HvErrorNum (PtState State) (Unit {0}))
          → UnmapsRegion s1 region.start region.size r
          → Undoes s region.start region.size r
      back (ok u s2) ((t2, level), removed, o) =
          ((t2, level ∙ same), removed, λ va lt far. o va (rw same lt) far ∙ outside va lt far)
      back (err e s2) h = absurd h
      back panic h = h
      back hang h = h
  unmap-Undoes region s p bound (err e s1) m = m
  unmap-Undoes region s p bound panic m = m
  unmap-Undoes region s p bound hang m = m

  -- On a table whose tables form a tree, for a region of whole pages that its mapper sends to whole
  -- consecutive pages, below 2^48 and below the addresses that the table translates: `map` and then
  -- `unmap` neither panics nor hangs. On success no address of the region is
  -- mapped. On success and on an error, every address outside the region translates as before, and
  -- the tables form a tree.
  pub unmap-map :
      (region : MemoryRegion) {own : Owner} {s : PtState State} (p : ℕ)
      → IsTree B P own s
      → Linear region.mapper region.start p region.size
      → region.start % 0x1000 ≡ 0
      → p % 0x1000 ≡ 0
      → region.size % 0x1000 ≡ 0
      → region.start + region.size ≤ limit s.pt
      → p + region.size ≤ 2 ^ 48
      → Undoes s region.start region.size (and_then (map B P region s) (λ _. unmap B P region))
  unmap-map region {own} {s} p t l hv hp hn bound small =
      unmap-Undoes region s p bound (map B P region s)
        (map-MapsRegion B P region p t l hv hp hn bound small)
