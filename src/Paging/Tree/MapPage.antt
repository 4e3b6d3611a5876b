-- ===== src/Paging/Tree/MapPage.antt =====
-- `map_page` of src/arch/aarch64/paging.rs.
use sys_hyper.Base.{
  ℕ, ◌+◌, ◌^◌, ◌≤◌, ◌<◌, ◌≡◌, ◌≢◌, refl, sym, ◌∙◌, ap, true, false, Bool-cases, ==_refl, inl, inr,
  List, [], ◌∷◌, ◌++◌, some, length, arith, fun_ext,
}
use sys_hyper.Base.Result.{Result}
use sys_hyper.Base.Run.{Run, ok, err, panic, hang, and_then, and_then_assoc}
use sys_hyper.Memory.Frame.Bitmap.{BitAlloc}
use sys_hyper.Paging.PageSize.{PageSize, is_huge, align_down, align_down-sub, page_offset}
use sys_hyper.Paging.Pte.{GenericPte, IsFrame}
use sys_hyper.Paging.Table.{PagingError, PtState, Slot, Words, slot, query}
use sys_hyper.Paging.Map.{store, map_entry, map_page, read_entry, write_entry}
use sys_hyper.Paging.Tree.{path, resolve, next, IsTree}
use sys_hyper.Paging.Tree.Query.{query-resolve}
use sys_hyper.Paging.Tree.Grow.{Owner, Grows}
use sys_hyper.Paging.Tree.Descend.{
  steps, leaf, labels, Leads, descend, Descends, descend-Descends, get_entry_mut_or_create-descend,
}
use sys_hyper.Paging.Tree.Leaf.{after_write, written_miss, written_hit, written-IsTree}
use sys_hyper.Paging.Tree.Path.{
  page_of, rest, path_split, length-path, length-steps-lt, same_page_leaf, same_page_steps,
  Passes-page,
}

module _ {State : Type 0} (B : BitAlloc State) (P : GenericPte) where
  abbrev pub translate : PtState State → ℕ → Result PagingError (ℕ × ℕ × PageSize)
  translate s = query P s.memory.word s.pt

  -- Every address translates as before.
  abbrev pub SameTranslations : PtState State → PtState State → Type 0
  SameTranslations s s' = (va : ℕ) → translate s' va ≡ translate s va

  pub Grows-SameTranslations :
      {own own' : Owner} {s s' : PtState State}
      → IsTree B P own s
      → Grows B P own s own' s'
      → SameTranslations s s'
  Grows-SameTranslations {s} {s'} v g va =
      rw
        (
          query-resolve P s'.memory.word va s'.pt,
          query-resolve P s.memory.word va s.pt,
          g.same_root,
          g.same_level,
          g.same (path s.pt va) s.pt.root.start_paddr [] v.root_own
              (omega (arith, length-path s.pt va v.levels)),
        )
        refl

  store-store : (w : Words) (q : Slot) (a e : ℕ) → store B P (store B P w q a) q e ≡ store B P w q e
  store-store w q a e = fun_ext λ x. fun_ext λ j. ground arith

  store_self : (w : Words) (q : Slot) (a : ℕ) → store B P w q a q.table q.index ≡ a
  store_self w q a = rw (==_refl q.table, ==_refl q.index) refl

  module _ (own : Owner) (s : PtState State) (v : IsTree B P own s) (t i : ℕ) (ls : List ℕ)
      (o : own t ≡ some ls) (size : PageSize) (paddr flags : ℕ) where
    -- The entry that `map_page` writes.
    abbrev pub leaf_entry : ℕ
    leaf_entry =
        P.set_flags flags (is_huge size) (P.set_addr (align_down size paddr) (s.memory.word t i))

    map_entry-written :
        P.is_unused (s.memory.word t i) ≡ true
        → map_entry B P size paddr flags (slot t i) s
          ≡ ok (slot t i) (after_write B P own s v t i ls o leaf_entry)
    unfolding map_entry read_entry write_entry
    map_entry-written u =
        let a = P.set_addr (align_down size paddr) (s.memory.word t i) in
        let w = s.memory.word in
        rw (u, store_self w (slot t i) a, store-store w (slot t i) a leaf_entry) refl

  -- `r` is what mapping the page of `vaddr` may give: on success the page translates to the frame
  -- with the flags, on an error nothing does, and every other address translates as before.
  abbrev pub Maps :
      PtState State → ℕ → PageSize → ℕ → ℕ → Run PagingError (PtState State) Slot → Type 0
  Maps s vaddr size paddr flags (ok q s') =
      ((own' : Owner) × IsTree B P own' s')
      × (s'.pt.level ≡ s.pt.level)
      × ((va : ℕ)
          → page_of s.pt size va ≡ page_of s.pt size vaddr
          → translate s' va
            ≡ Result.ok (align_down size paddr + page_offset size va, P.kept_flags flags, size))
      × ((va : ℕ)
          → page_of s.pt size va ≢ page_of s.pt size vaddr
          → translate s' va ≡ translate s va)
  Maps s vaddr size paddr flags (err e s') =
      ((own' : Owner) × IsTree B P own' s') × (s'.pt.level ≡ s.pt.level) × SameTranslations s s'
  Maps s vaddr size paddr flags panic = ⊥
  Maps s vaddr size paddr flags hang = ⊥

  align_down-IsFrame :
      (size : PageSize) (paddr : ℕ) → paddr < 2 ^ 48 → IsFrame (align_down size paddr)
  align_down-IsFrame PageSize.size4_k paddr h =
      rw (align_down-sub PageSize.size4_k paddr (omega arith)) (omega arith, omega arith)
  align_down-IsFrame PageSize.size2_m paddr h =
      rw (align_down-sub PageSize.size2_m paddr (omega arith)) (omega arith, omega arith)
  align_down-IsFrame PageSize.size1_g paddr h =
      rw (align_down-sub PageSize.size1_g paddr (omega arith)) (omega arith, omega arith)

  leaf_resolves :
      (w : Words) (t i e : ℕ) (size : PageSize) (va : ℕ)
      → w t i ≡ e
      → P.is_unused e ≡ false
      → P.is_huge e ≡ is_huge size
      → resolve P w t (i ∷ rest size va) ≡ Result.ok (e, size)
  unfolding resolve next is_huge
  leaf_resolves w t i e PageSize.size4_k va d u h = rw (d, u)
  leaf_resolves w t i e PageSize.size2_m va d u h = rw (d, u, h)
  leaf_resolves w t i e PageSize.size1_g va d u h = rw (d, u, h)

  module _ (own : Owner) (s : PtState State) (v : IsTree B P own s) (t vaddr : ℕ) (size : PageSize)
      (o : own t ≡ some (labels (steps s.pt size vaddr) []))
      (leads : Leads P s.memory.word s.pt.root.start_paddr (steps s.pt size vaddr) t)
      (paddr flags : ℕ) (small : paddr < 2 ^ 48) where
    abbrev i : ℕ
    i = leaf size vaddr

    abbrev ls : List ℕ
    ls = labels (steps s.pt size vaddr) []

    abbrev e : ℕ
    e = leaf_entry own s v t i ls o size paddr flags

    abbrev mapped : PtState State
    mapped = after_write B P own s v t i ls o e

    laws :
        (P.is_unused e ≡ false)
        × (P.is_present e ≡ true)
        × (P.is_huge e ≡ is_huge size)
        × (P.addr e ≡ align_down size paddr)
        × (P.flags e ≡ some (P.kept_flags flags))
    laws =
        P.set_leaf_lem (align_down size paddr) flags (is_huge size) _
          (align_down-IsFrame size paddr small)

    mapped_hit :
        P.is_unused (s.memory.word t i) ≡ true
        → (va : ℕ) → page_of s.pt size va ≡ page_of s.pt size vaddr
        → translate mapped va
          ≡ Result.ok (align_down size paddr + page_offset size va, P.kept_flags flags, size)
    mapped_hit u va h =
        let split : path s.pt va ≡ steps s.pt size vaddr ++ i ∷ rest size va =
          path_split s.pt size va
          ∙ rw (same_page_steps s.pt va vaddr size h, same_page_leaf s.pt va vaddr size h) refl in
        let found : resolve P mapped.memory.word s.pt.root.start_paddr (path s.pt va)
            ≡ Result.ok (e, size) =
          ap (resolve P mapped.memory.word s.pt.root.start_paddr) split
          ∙ written_hit B P own s v t i ls o e (inl u) (steps s.pt size vaddr) s.pt.root.start_paddr
              [] (rest size va) v.root_own (omega (arith, length-steps-lt s.pt size vaddr v.levels))
              leads
          ∙ leaf_resolves mapped.memory.word t i e size va (store_self s.memory.word (slot t i) e)
              laws.0 laws.2 in
        query-resolve P mapped.memory.word va s.pt ∙ rw (found, laws.4, laws.3) refl

    mapped_miss :
        (va : ℕ)
        → page_of s.pt size va ≢ page_of s.pt size vaddr
        → translate mapped va ≡ translate s va
    mapped_miss va far =
        let same =
          written_miss B P own s v t i ls o e (path s.pt va) s.pt.root.start_paddr [] v.root_own
            (omega (arith, length-path s.pt va v.levels))
            (λ q. far (Passes-page s.pt va vaddr size q)) in
        query-resolve P mapped.memory.word va s.pt
        ∙ rw same (sym (query-resolve P s.memory.word va s.pt))

    ends :
        (z : PageSize)
        → is_huge z ≡ P.is_huge e
        → P.is_huge e ≡ false
        → s.pt.level ≤ length (labels (steps s.pt z vaddr) []) + 1
    unfolding is_huge
    ends PageSize.size4_k h n = elim v.levels [
      | inl l ↦ rw l (omega arith)
      | inr l ↦ rw l (omega arith)
    ]
    ends PageSize.size2_m h n = cc (h, n)
    ends PageSize.size1_g h n = cc (h, n)

    mapped-IsTree : IsTree B P own mapped
    mapped-IsTree =
        written-IsTree B P own s v t i ls o e (λ present table. ends size (sym laws.2) table)

  same_steps :
      (s s' : PtState State)
      → s'.pt.level ≡ s.pt.level
      → (size : PageSize) (vaddr : ℕ) → steps s'.pt size vaddr ≡ steps s.pt size vaddr
  same_steps s s' h PageSize.size4_k vaddr = rw h refl
  same_steps s s' h PageSize.size2_m vaddr = rw h refl
  same_steps s s' h PageSize.size1_g vaddr = rw h refl

  module _ {own : Owner} {s : PtState State} (v : IsTree B P own s) (vaddr : ℕ) (size : PageSize)
      (paddr flags : ℕ) (small : paddr < 2 ^ 48) where
    same_page_of :
        (s' : PtState State)
        → s'.pt.level ≡ s.pt.level
        → (va : ℕ) → page_of s'.pt size va ≡ page_of s.pt size va
    same_page_of s' h va = rw h refl

    -- The walk has found the table, and the entry is written if it is unused.
    found-Maps :
        (t : ℕ) (s' : PtState State) (own' : Owner)
        → Grows B P own s own' s'
        → own' t ≡ some (labels (steps s'.pt size vaddr) [])
        → Leads P s'.memory.word s'.pt.root.start_paddr (steps s'.pt size vaddr) t
        → Maps s vaddr size paddr flags
            (map_entry B P size paddr flags (slot t (leaf size vaddr)) s')
    unfolding map_entry read_entry
    found-Maps t s' own' g o l =
        elim (Bool-cases (P.is_unused (s'.memory.word t (leaf size vaddr)))) [
          | inl u ↦
              rw (map_entry-written own' s' g.tree t (leaf size vaddr) _ o size paddr flags u) (
                (own', mapped-IsTree own' s' g.tree t vaddr size o l paddr flags small),
                g.same_level,
                λ va h. mapped_hit own' s' g.tree t vaddr size o l paddr flags small u va (
                    same_page_of s' g.same_level va ∙ h ∙ sym (same_page_of s' g.same_level vaddr)),
                λ va h.
                    mapped_miss own' s' g.tree t vaddr size o l paddr flags small va (λ q. h (
                      sym (same_page_of s' g.same_level va)
                      ∙ q
                      ∙ same_page_of s' g.same_level vaddr))
                    ∙ Grows-SameTranslations {s = s} {s' = s'} v g va,
              )
          | inr u ↦
              rw u ((own', g.tree), g.same_level, Grows-SameTranslations {s = s} {s' = s'} v g)
        ]

    walked-Maps :
        (r : Run PagingError (PtState State) ℕ)
        → Descends B P own s s.pt.root.start_paddr [] (steps s.pt size vaddr) r
        → Maps s vaddr size paddr flags
            (and_then r (λ t. map_entry B P size paddr flags (slot t (leaf size vaddr))))
    walked-Maps (ok t s') (own', g, o, l) =
        let same : steps s'.pt size vaddr ≡ steps s.pt size vaddr =
          same_steps s s' g.same_level size vaddr in
        found-Maps t s' own' g (rw same o) (rw (same, g.same_root) l)
    walked-Maps (err e s') (own', g) =
        ((own', g.tree), g.same_level, Grows-SameTranslations {s = s} {s' = s'} v g)
    walked-Maps panic d = d
    walked-Maps hang d = d

  -- On a table whose tables form a tree, for a physical address below 2^48, `map_page` neither panics
  -- nor hangs, and the tables still form a tree. On success every address of the page translates to the frame at the aligned
  -- address with the offset in the page, the flags that entries keep and the size; every other
  -- address translates as before. On an error every address translates as before.
  pub map_page-Maps :
      {own : Owner} {s : PtState State} (v : IsTree B P own s) (vaddr : ℕ) (size : PageSize)
      (paddr flags : ℕ)
      → paddr < 2 ^ 48
      → Maps s vaddr size paddr flags (map_page B P vaddr size paddr flags s)
  unfolding map_page
  map_page-Maps {own} {s} v vaddr size paddr flags small =
      rw (get_entry_mut_or_create-descend B P vaddr size s, and_then_assoc)
        (walked-Maps v vaddr size paddr flags small
          (descend B P (steps s.pt size vaddr) s.pt.root.start_paddr s)
          (descend-Descends B P (steps s.pt size vaddr) own s s.pt.root.start_paddr [] v v.root_own
            (omega (arith, length-steps-lt s.pt size vaddr v.levels))))
