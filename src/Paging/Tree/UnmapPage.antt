-- ===== src/Paging/Tree/UnmapPage.antt =====
-- `unmap_page` of src/arch/aarch64/paging.rs.
use sys_hyper.Base.{
  ℕ, ◌+◌, ◌≤◌, ◌≡◌, ◌≢◌, refl, sym, ◌∙◌, ap, true, false, ◌==◌, ◌⊎◌, Bool-cases, inl, inr,
  if◌then◌else◌, List, [], ◌∷◌, ◌++◌, Option, some, length, arith, subst,
}
use sys_hyper.Base.Result
use sys_hyper.Base.Result.{Result, ◌>>=◌}
use sys_hyper.Base.Run.{Run, ok, err, panic, hang}
use sys_hyper.Memory.Frame.Bitmap.{BitAlloc}
use sys_hyper.Paging.PageSize.{PageSize, page_offset, p4_index, p3_index, p2_index, p1_index}
use sys_hyper.Paging.Pte.{GenericPte}
use sys_hyper.Paging.Table.{
  PagingError, PtState, Slot, Words, slot, next_table_mut, get_entry_mut, query,
}
use sys_hyper.Paging.Map.{unmap_page, read_entry, write_entry}
use sys_hyper.Paging.Tree.{path, resolve, next, IsTable, IsTree}
use sys_hyper.Paging.Tree.Query.{query-resolve}
use sys_hyper.Paging.Tree.Grow.{Owner}
use sys_hyper.Paging.Tree.Descend.{upper, steps, leaf, labels, Leads}
use sys_hyper.Paging.Tree.Leaf.{
  after_write, written_miss, written_hit, written-IsTree, written_slot, Ends,
}
use sys_hyper.Paging.Tree.MapPage.{translate}
use sys_hyper.Paging.Tree.Path.{
  page_of, rest, path_split, length-path, length-steps-lt, same_page_leaf, same_page_steps,
  Passes-page,
}

module _ (P : GenericPte) where
  next_table_mut-cases :
      (e : ℕ)
      → ((next_table_mut P e ≡ Result.ok (P.addr e)) × IsTable P e (P.addr e))
        ⊎ ((x : PagingError) × (next_table_mut P e ≡ Result.err x))
  unfolding next_table_mut
  next_table_mut-cases e = elim (Bool-cases (P.is_present e)) [
    | inr absent ↦ inr (PagingError.not_mapped, rw absent refl)
    | inl present ↦ elim (Bool-cases (P.is_huge e)) [
      | inl huge ↦ inr (PagingError.mapped_to_huge_page, rw (present, huge) refl)
      | inr table ↦ inl (
        rw (present, table) refl,
        record {
          used = ground (arith, P.unused_absent e);
          present = present;
          table = table;
          target = refl;
        },
      )
    ]
  ]

module _ {State : Type 0} (B : BitAlloc State) (P : GenericPte) (own : Owner) (s : PtState State)
    (v : IsTree B P own s) (vaddr : ℕ) where
  -- The entry that `get_entry_mut` finds is at the end of the way to the page of `vaddr`.
  abbrev Finds : Result PagingError (Slot × PageSize) → Type 0
  Finds (Result.ok (q, size)) =
      (q ≡ slot q.table (leaf size vaddr))
      × (own q.table ≡ some (labels (steps s.pt size vaddr) []))
      × Leads P s.memory.word s.pt.root.start_paddr (steps s.pt size vaddr) q.table
      × ((P.is_huge (s.memory.word q.table (leaf size vaddr)) ≡ true)
          ⊎ (s.pt.level ≤ length (labels (steps s.pt size vaddr) []) + 1))
  Finds (Result.err e) = Unit
  Finds Result.panic = ⊥

  -- `get_entry_mut` below the table that `p3_index` indexes.
  abbrev from_p3 : ℕ → Result PagingError (Slot × PageSize)
  from_p3 p3 = do
    let p3e = s.memory.word p3 (p3_index vaddr)
    if P.is_huge p3e then Result.ok (slot p3 (p3_index vaddr), PageSize.size1_g) else do
      p2 ← next_table_mut P p3e
      let p2e = s.memory.word p2 (p2_index vaddr)
      if P.is_huge p2e
          then Result.ok (slot p2 (p2_index vaddr), PageSize.size2_m)
          else do p1 ← next_table_mut P p2e; Result.ok (slot p1 (p1_index vaddr), PageSize.size4_k)

  from_p3-Finds :
      (p3 : ℕ) (ls : List ℕ)
      → own p3 ≡ some ls
      → length ls + 3 ≡ s.pt.level
      → ((is : List ℕ) → labels is ls ≡ labels (upper s.pt vaddr is) [])
      → ((is : List ℕ) (t : ℕ)
          → Leads P s.memory.word p3 is t
          → Leads P s.memory.word s.pt.root.start_paddr (upper s.pt vaddr is) t)
      → Finds (from_p3 p3)
  from_p3-Finds p3 ls o n up lead =
      let w = s.memory.word in
      let e3 = w p3 (p3_index vaddr) in
      elim (Bool-cases (P.is_huge e3)) [
        | inl huge ↦ rw huge (refl, o ∙ ap some (up []), lead [] p3 refl, inl huge)
        | inr table ↦ elim (next_table_mut-cases P e3) [
          | inr stop ↦ rw (table, stop.1) tt
          | inl (h, q) ↦
              let p2 = P.addr e3 in
              let e2 = w p2 (p2_index vaddr) in
              let o2 = v.child p3 ls (p3_index vaddr) o (omega arith) q.present q.table in
              elim (Bool-cases (P.is_huge e2)) [
                | inl huge ↦
                    rw (table, h, huge)
                      (
                        refl,
                        o2 ∙ ap some (up (p3_index vaddr ∷ [])),
                        lead (p3_index vaddr ∷ []) p2 (p2, q, refl),
                        inl huge,
                      )
                | inr table' ↦ elim (next_table_mut-cases P e2) [
                  | inr stop ↦ rw (table, h, table', stop.1) tt
                  | inl (h', q') ↦
                      let is = p3_index vaddr ∷ p2_index vaddr ∷ [] in
                      let o1 =
                        v.child p2 (p3_index vaddr ∷ ls) (p2_index vaddr) o2 (omega arith)
                          q'.present q'.table in
                      rw (table, h, table', h')
                        (
                          refl,
                          o1 ∙ ap some (up is),
                          lead is (P.addr e2) (p2, q, (P.addr e2, q', refl)),
                          inr (rw (sym (up is)) (omega arith)),
                        )
                ]
              ]
        ]
      ]

  get_entry_mut-Finds : Finds (get_entry_mut P s.memory.word s.pt vaddr)
  unfolding get_entry_mut
  get_entry_mut-Finds = elim (Bool-cases (s.pt.level == 4)) [
    | inl e ↦
        let e4 = s.memory.word s.pt.root.start_paddr (p4_index vaddr) in
        let four : s.pt.level ≡ 4 = ground arith in
        elim (next_table_mut-cases P e4) [
          | inr stop ↦ rw (e, stop.1) tt
          | inl (h, q) ↦
              let same : get_entry_mut P s.memory.word s.pt vaddr ≡ from_p3 (P.addr e4) =
                rw (e, h) refl in
              subst Finds (sym same) (
                from_p3-Finds (P.addr e4) (p4_index vaddr ∷ [])
                  (v.child _ [] (p4_index vaddr) v.root_own (rw four (omega arith)) q.present
                    q.table)
                  (rw four refl) (λ is. rw e refl) (λ is t l. rw e (P.addr e4, q, l)))
        ]
    | inr e ↦
        let three : s.pt.level ≡ 3 = ground (arith, v.levels) in
        let same : get_entry_mut P s.memory.word s.pt vaddr ≡ from_p3 s.pt.root.start_paddr =
          rw e refl in
        subst Finds (sym same) (
          from_p3-Finds s.pt.root.start_paddr [] v.root_own (rw three refl) (λ is. rw e refl)
            (λ is t l. rw e l))
  ]

module _ (P : GenericPte) where
  cleared :
      (w : Words) (t i : ℕ) (is : List ℕ)
      → P.is_unused (w t i) ≡ true
      → resolve P w t (i ∷ is) ≡ Result.err PagingError.not_mapped
  unfolding resolve next
  cleared w t i [] u = rw u refl
  cleared w t i (j ∷ is) u = rw u refl

module _ {State : Type 0} (B : BitAlloc State) (P : GenericPte) where
  -- What `unmap_page` may give. On success: the page that `vaddr` was mapped by is not mapped, its
  -- frame and size are returned, and every other address translates as before. On an error nothing
  -- has changed, and `vaddr` has no translation.
  abbrev pub Unmaps : PtState State → ℕ → Run PagingError (PtState State) (ℕ × PageSize) → Type 0
  Unmaps s vaddr (ok (frame, size) s') =
      ((own' : Owner) × IsTree B P own' s')
      × (s'.pt ≡ s.pt)
      × ((flags : Option ℕ) × (translate B P s vaddr
            ≡ (do f ← Result.unwrap flags; Result.ok (frame + page_offset size vaddr, f, size))))
      × ((va : ℕ)
          → page_of s.pt size va ≡ page_of s.pt size vaddr
          → translate B P s' va ≡ Result.err PagingError.not_mapped)
      × ((va : ℕ)
          → page_of s.pt size va ≢ page_of s.pt size vaddr
          → translate B P s' va ≡ translate B P s va)
  Unmaps s vaddr (err e s') = (s' ≡ s) × (translate B P s vaddr ≡ Result.err e)
  Unmaps s vaddr panic = ⊥
  Unmaps s vaddr hang = ⊥

  module _ {own : Owner} {s : PtState State} (v : IsTree B P own s) (vaddr : ℕ) (size : PageSize)
      (t : ℕ) (o : own t ≡ some (labels (steps s.pt size vaddr) []))
      (leads : Leads P s.memory.word s.pt.root.start_paddr (steps s.pt size vaddr) t)
      (ends : Ends B P own s v t
        (leaf size vaddr)
        (labels (steps s.pt size vaddr) [])
        o
        (P.clear (s.memory.word t (leaf size vaddr)))) where
    abbrev i : ℕ
    i = leaf size vaddr

    abbrev ls : List ℕ
    ls = labels (steps s.pt size vaddr) []

    abbrev e : ℕ
    e = P.clear (s.memory.word t i)

    abbrev after : PtState State
    after = after_write B P own s v t i ls o e

    hit :
        (va : ℕ)
        → page_of s.pt size va ≡ page_of s.pt size vaddr
        → translate B P after va ≡ Result.err PagingError.not_mapped
    hit va h =
        let split : path s.pt va ≡ steps s.pt size vaddr ++ i ∷ rest size va =
          path_split s.pt size va
          ∙ rw (same_page_steps s.pt va vaddr size h, same_page_leaf s.pt va vaddr size h) refl in
        let found : resolve P after.memory.word s.pt.root.start_paddr (path s.pt va)
            ≡ Result.err PagingError.not_mapped =
          ap (resolve P after.memory.word s.pt.root.start_paddr) split
          ∙ written_hit B P own s v t i ls o e ends (steps s.pt size vaddr) s.pt.root.start_paddr []
              (rest size va) v.root_own (omega (arith, length-steps-lt s.pt size vaddr v.levels))
              leads
          ∙ cleared P after.memory.word t i (rest size va)
              (rw (written_slot B P own s v t i ls o e) (P.clear-unused _)) in
        query-resolve P after.memory.word va s.pt ∙ rw found refl

    miss :
        (va : ℕ)
        → page_of s.pt size va ≢ page_of s.pt size vaddr
        → translate B P after va ≡ translate B P s va
    miss va far =
        let same =
          written_miss B P own s v t i ls o e (path s.pt va) s.pt.root.start_paddr [] v.root_own
            (omega (arith, length-path s.pt va v.levels))
            (λ q. far (Passes-page s.pt va vaddr size q)) in
        query-resolve P after.memory.word va s.pt
        ∙ rw same (sym (query-resolve P s.memory.word va s.pt))

    after-IsTree : IsTree B P own after
    after-IsTree =
        written-IsTree B P own s v t i ls o e
          (λ present table. cc (present, P.unused_absent e (P.clear-unused _)))

    clear-Unmaps :
        get_entry_mut P s.memory.word s.pt vaddr ≡ Result.ok (slot t i, size)
        → P.is_unused (s.memory.word t i) ≡ false
        → Unmaps s vaddr (ok (P.addr (s.memory.word t i), size) after)
    unfolding query
    clear-Unmaps h u =
        ((own, after-IsTree), refl, (P.flags (s.memory.word t i), rw (h, u) refl), hit, miss)

  module _ {own : Owner} {s : PtState State} (v : IsTree B P own s) (vaddr : ℕ) where
    found-Unmaps :
        (r : Result PagingError (Slot × PageSize))
        → get_entry_mut P s.memory.word s.pt vaddr ≡ r
        → Finds B P own s v vaddr r
        → Unmaps s vaddr (unmap_page B P vaddr s)
    unfolding unmap_page read_entry write_entry query
    found-Unmaps (Result.ok (q, size)) h (at, o, leads, ends) =
        elim (Bool-cases (P.is_unused (s.memory.word q.table (leaf size vaddr)))) [
          | inl u ↦
              let absent : translate B P s vaddr ≡ Result.err PagingError.not_mapped =
                rw (h, at, u) refl in
              rw (h, at, u) (refl, absent)
          | inr u ↦
              rw (h, at, u)
                (clear-Unmaps v vaddr size q.table o leads (inr ends)
                  (h ∙ ap (λ (x : Slot). Result.ok (x, size)) at) u)
        ]
    found-Unmaps (Result.err x) h f =
        let absent : translate B P s vaddr ≡ Result.err x = rw h refl in rw h (refl, absent)
    found-Unmaps Result.panic h f = absurd f

    -- On a table whose tables form a tree, `unmap_page` neither panics nor hangs. On success the
    -- frame and the size by which `vaddr` was mapped are returned, no address of that page is mapped
    -- any more, every other address translates as before, and the tables form a tree. On an error
    -- nothing has changed, and it is the error that a query of `vaddr` gives.
    pub unmap_page-Unmaps : Unmaps s vaddr (unmap_page B P vaddr s)
    unmap_page-Unmaps =
        found-Unmaps (get_entry_mut P s.memory.word s.pt vaddr) refl
          (get_entry_mut-Finds B P own s v vaddr)
