-- ===== src/Paging/Tree/MapRegion.antt =====
-- `map` of src/arch/aarch64/paging.rs: the loop over the pages of a region.
use sys_hyper.Base.{
  ℕ, zero, suc, ◌+◌, ◌-◌, ◌*◌, ◌/◌, ◌%◌, ◌^◌, ◌≤◌, ◌<◌, ◌≡◌, refl, sym, ◌∙◌, ap, ◌⊎◌, Bool-cases,
  inl, inr, ltb, lt→ltb, le→leb, arith,
}
use sys_hyper.Base.Result
use sys_hyper.Base.Run.{
  M, ◌>>=◌, checked_add, checked_sub, Run, ok, err, panic, hang, and_then, map_err,
}
use sys_hyper.Error.{HvErrorNum}
use sys_hyper.Memory.Addr
use sys_hyper.Memory.Region.{Mapper, MemoryRegion, map_fn}
use sys_hyper.Memory.Frame.Bitmap.{BitAlloc}
use sys_hyper.Paging.PageSize.{
  PageSize, bytes, align_down, align_down-sub, page_offset, page_offset-mod,
}
use sys_hyper.Paging.Pte.{GenericPte}
use sys_hyper.Paging.Table.{PagingError, PtState, Slot, to_hv_error}
use sys_hyper.Paging.Map.{choose_size, map_page, map_loop, map}
use sys_hyper.Paging.Tree.{IsTree}
use sys_hyper.Paging.Tree.Grow.{Owner}
use sys_hyper.Paging.Tree.Mapped.{Pages}
use sys_hyper.Paging.Tree.MapPage.{Maps, map_page-Maps, translate}
use sys_hyper.Paging.Tree.Pages.{
  limit, Suits, choose_size-Suits, on_page, off_page, bytes-pages, limit-le, is_aligned-true,
}

-- From v on, the mapper gives consecutive addresses from p, for n bytes.
abbrev pub Linear : Mapper → ℕ → ℕ → ℕ → Type 0
Linear m v p n = (d : ℕ) → d < n → map_fn m (v + d) ≡ p + d

module _ {State : Type 0} (B : BitAlloc State) (P : GenericPte) where
  -- What mapping n bytes from v to p may give. On success every address of them translates to its
  -- own byte with the flags that entries keep, and these bytes are whole pages. On success and on an error, every other address below
  -- the limit translates as before, and the tables form a tree.
  abbrev Inside : PtState State → PtState State → ℕ → ℕ → ℕ → ℕ → Type 0
  Inside s s' v n p flags =
      (va : ℕ)
      → v ≤ va
      → va < v + n
      → (size : PageSize) × (translate B P s' va
          ≡ Result.ok (p + (va - v), P.kept_flags flags, size))

  abbrev pub Outside : PtState State → PtState State → ℕ → ℕ → Type 0
  Outside s s' v n =
      (va : ℕ)
      → va < limit s.pt
      → (va < v) ⊎ (v + n ≤ va)
      → translate B P s' va ≡ translate B P s va

  abbrev pub Kept : PtState State → PtState State → Type 0
  Kept s s' = ((own : Owner) × IsTree B P own s') × (s'.pt.level ≡ s.pt.level)

  abbrev pub MapsRegion :
      PtState State → ℕ → ℕ → ℕ → ℕ → Run HvErrorNum (PtState State) (Unit {0}) → Type 0
  MapsRegion s v n p flags (ok u s') =
      Kept s s' × Inside s s' v n p flags × Outside s s' v n × Pages B P s' v n
  MapsRegion s v n p flags (err e s') = Kept s s' × Outside s s' v n
  MapsRegion s v n p flags panic = ⊥
  MapsRegion s v n p flags hang = ⊥

  -- One page, and then the rest.
  module _ (s : PtState State) (v n p flags : ℕ) (size : PageSize) (q : Suits size v p n)
      (bound : v + n ≤ limit s.pt) (small : p + n ≤ 2 ^ 48) where
    abbrev b : ℕ
    b = bytes size

    page_start : align_down size p ≡ p
    page_start = align_down-sub size p (omega arith) ∙ rw q.physical (omega arith)

    page_byte :
        (va : ℕ) → v ≤ va → va < v + b → align_down size p + page_offset size va ≡ p + (va - v)
    page_byte va le lt = rw (page_start, page_offset-mod size va) (offset size q va le lt)
      where
        offset :
            (size : PageSize)
            → Suits size v p n
            → (va : ℕ) → v ≤ va
            → va < v + bytes size
            → p + va % bytes size ≡ p + (va - v)
        offset PageSize.size4_k q va le lt = omega (arith, q.virtual)
        offset PageSize.size2_m q va le lt = omega (arith, q.virtual)
        offset PageSize.size1_g q va le lt = omega (arith, q.virtual)

    same_limit : (s1 : PtState State) → s1.pt.level ≡ s.pt.level → limit s1.pt ≡ limit s.pt
    same_limit s1 h = rw h refl

    module _ (place : Slot) (s1 : PtState State) (m : Maps B P s v size p flags (ok place s1)) where
      outside : (s2 : PtState State) → Outside s1 s2 (v + b) (n - b) → Outside s s2 v n
      outside s2 o va lt far =
          let lt1 : va < limit s1.pt = rw (same_limit s1 m.1) lt in
          let fits = q.room in
          o va lt1 (elim far [ inl below ↦ inl (omega arith) | inr above ↦ inr (omega arith) ])
          ∙ m.3 va (
              off_page s.pt size v va q.virtual (omega arith) lt
                (elim far [ inl below ↦ inl below | inr above ↦ inr (omega arith) ]))

      inside :
          (s2 : PtState State)
          → Inside s1 s2 (v + b) (n - b) (p + b) flags
          → Outside s1 s2 (v + b) (n - b)
          → Inside s s2 v n p flags
      inside s2 i o va le lt = elim (Bool-cases (ltb va (v + b))) [
        | inl first ↦
            let lt' : va < v + b = ground arith in
            let va_limit : va < limit s.pt = omega arith in
            (
              size,
              o va (rw (same_limit s1 m.1) va_limit) (inl lt')
                  ∙ m.2 va (on_page s.pt size v va q.virtual va_limit le lt')
                  ∙ rw (page_byte va le lt') refl,
            )
        | inr later ↦
            let le' : v + b ≤ va = ground arith in
            let (z, e) = i va le' (omega (arith, q.room)) in
            let same : p + b + (va - (v + b)) ≡ p + (va - v) = omega arith in (z, e ∙ rw same refl)
      ]

      pages :
          (s2 : PtState State)
          → Outside s1 s2 (v + b) (n - b)
          → Pages B P s2 (v + b) (n - b)
          → Pages B P s2 v n
      pages s2 o rest =
          let (whole, least) = bytes-pages size in
          let fits = q.room in
          let lt : v < limit s.pt = omega arith in
          Pages.page size _ _ q.virtual q.room
            (o v (rw (same_limit s1 m.1) lt) (inl (omega arith)) ∙ m.2 v refl) rest

      then_rest :
          (r : Run HvErrorNum (PtState State) (Unit {0}))
          → MapsRegion s1 (v + b) (n - b) (p + b) flags r
          → MapsRegion s v n p flags r
      then_rest (ok u s2) ((t, l), i, o, g) =
          ((t, l ∙ m.1), inside s2 i o, outside s2 o, pages s2 o g)
      then_rest (err e s2) ((t, l), o) = ((t, l ∙ m.1), outside s2 o)
      then_rest panic h = h
      then_rest hang h = h

  limit-level : (s s1 : PtState State) → s1.pt.level ≡ s.pt.level → limit s1.pt ≡ limit s.pt
  limit-level s s1 h = rw h refl

  next_mapper :
      (mp : Mapper) (v p n b : ℕ) → b ≤ n → Linear mp v p n → Linear mp (v + b) (p + b) (n - b)
  next_mapper mp v p n b le h d lt =
      let e : v + b + d ≡ v + (b + d) = omega arith in
      let g : p + b + d ≡ p + (b + d) = omega arith in
      ap (map_fn mp) e ∙ h (b + d) (omega arith) ∙ sym g

  -- The rest of a round of `map`, after its page.
  abbrev after_page : ℕ → MemoryRegion → ℕ → ℕ → PageSize → M HvErrorNum (PtState State) (Unit {0})
  after_page fuel region v n size = do
    next ← checked_add v (bytes size)
    left ← checked_sub n (bytes size)
    map_loop B P fuel region next left

  page-MapsRegion :
      (fuel : ℕ) (region : MemoryRegion) (s : PtState State) (v p n : ℕ) (size : PageSize)
      → Suits size v p n
      → v + n ≤ limit s.pt
      → p + n ≤ 2 ^ 48
      → ((s1 : PtState State)
          → Kept s s1
          → MapsRegion s1
              (v + bytes size)
              (n - bytes size)
              (p + bytes size)
              region.flags
              (map_loop B P fuel region (v + bytes size) (n - bytes size) s1))
      → (r : Run PagingError (PtState State) Slot) → Maps B P s v size p region.flags r
      → MapsRegion s v n p region.flags
          (and_then (map_err to_hv_error r) (λ _. after_page fuel region v n size))
  page-MapsRegion fuel region s v p n size q bound small ih (ok place s1) m =
      let top : limit s.pt ≤ 2 ^ 48 = limit-le s.pt in
      let fits = q.room in
      rw (lt→ltb (v + bytes size) (2 ^ 64) (omega arith), le→leb (bytes size) n fits)
        (then_rest s v n p region.flags size q bound small place s1 m _ (ih s1 (m.0, m.1)))
  page-MapsRegion fuel region s v p n size q bound small ih (err e s1) m =
      ((m.0, m.1), λ va lt far. m.2 va)
  page-MapsRegion fuel region s v p n size q bound small ih panic m = m
  page-MapsRegion fuel region s v p n size q bound small ih hang m = m

  -- The loop maps all of a region: enough fuel is a round for each 4 KiB.
  pub map_loop-MapsRegion :
      (fuel : ℕ) (region : MemoryRegion) (own : Owner) (s : PtState State) (v p n : ℕ)
      → IsTree B P own s
      → Linear region.mapper v p n
      → v % 0x1000 ≡ 0
      → p % 0x1000 ≡ 0
      → n % 0x1000 ≡ 0
      → n ≤ fuel * 0x1000
      → v + n ≤ limit s.pt
      → p + n ≤ 2 ^ 48
      → MapsRegion s v n p region.flags (map_loop B P fuel region v n s)
  unfolding map_loop
  map_loop-MapsRegion fuel region own s v p zero t l hv hp hn enough bound small =
      (((own, t), refl), λ va le lt. absurd (omega arith), λ va lt far. refl, Pages.done)
  map_loop-MapsRegion zero region own s v p (suc k) t l hv hp hn enough bound small =
      absurd (omega arith)
  map_loop-MapsRegion (suc fuel) region own s v p (suc k) t l hv hp hn enough bound small =
      let n = suc k in
      let z : v + 0 ≡ v = omega arith in
      let z' : p + 0 ≡ p = omega arith in
      let here : map_fn region.mapper v ≡ p =
        ap (map_fn region.mapper) (sym z) ∙ l 0 (omega arith) ∙ z' in
      let size = choose_size v p n region.flags in
      let q = choose_size-Suits v p n region.flags hv hp (omega arith) in
      rw (here, is_aligned-true size v q.virtual)
        (page-MapsRegion fuel region s v p n size q bound small
          (λ s1 ((own1, t1), same).
            let (whole, least) = bytes-pages size in
            let fits = q.room in
            map_loop-MapsRegion fuel region own1 s1 (v + bytes size) (p + bytes size)
              (n - bytes size) t1 (next_mapper region.mapper v p n (bytes size) fits l)
              (omega arith) (omega arith) (omega arith) (omega arith)
              (rw (limit-level s s1 same) (omega arith)) (omega arith))
          (map_page B P v size p region.flags s)
          (map_page-Maps B P t v size p region.flags (omega arith)))

  -- On a table whose tables form a tree, for a region of whole pages that its mapper sends to whole
  -- consecutive pages, below 2^48 and below the addresses that the table translates: `map` neither
  -- panics nor hangs. On success every address of the region translates to the address that the mapper
  -- gives, with the flags that entries keep, and the region consists of mapped pages. On success and
  -- on an error, every address outside the region translates as before, and the tables form a tree.
  pub map-MapsRegion :
      (region : MemoryRegion) {own : Owner} {s : PtState State} (p : ℕ)
      → IsTree B P own s
      → Linear region.mapper region.start p region.size
      → region.start % 0x1000 ≡ 0
      → p % 0x1000 ≡ 0
      → region.size % 0x1000 ≡ 0
      → region.start + region.size ≤ limit s.pt
      → p + region.size ≤ 2 ^ 48
      → MapsRegion s region.start region.size p region.flags (map B P region s)
  unfolding map
  map-MapsRegion region {own} {s} p t l hv hp hn bound small =
      rw ((Addr.is_aligned_iff region.start).1 hv, (Addr.is_aligned_iff region.size).1 hn)
        (map_loop-MapsRegion (region.size / 0x1000) region own s region.start p region.size t l hv
          hp hn (omega arith) bound small)
