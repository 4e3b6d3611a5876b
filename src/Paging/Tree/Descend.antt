-- ===== src/Paging/Tree/Descend.antt =====
-- `get_entry_mut_or_create` of src/arch/aarch64/paging.rs: the way down to the table of a page,
-- with new tables where there were none. It never panics, and no translation changes.
use sys_hyper.Base.{
  ℕ, ◌+◌, ◌<◌, ◌≡◌, refl, true, false, ◌==◌, Bool-cases, inl, inr, if◌then◌else◌, List, [], ◌∷◌,
  some, length, arith,
}
use sys_hyper.Base.Run.{Run, ok, err, panic, hang, and_then, and_then_assoc, ◌>>=◌, pure, lift}
use sys_hyper.Error.{HvErrorNum}
use sys_hyper.Memory.Frame.{Frame, PhysMemory, new_zero}
use sys_hyper.Memory.Frame.Bitmap.{BitAlloc}
use sys_hyper.Memory.Frame.Alloc.{Allocates, new_zero-Allocates}
use sys_hyper.Paging.PageSize.{PageSize, p4_index, p3_index, p2_index, p1_index}
use sys_hyper.Paging.Pte.{GenericPte}
use sys_hyper.Paging.Table.{PagingError, HvPageTable, PtState, Words, slot, next_table_mut}
use sys_hyper.Paging.Map.{
  PtM, read_entry, write_entry, alloc_intrm_table, create, next_table_mut_or_create, with_memory,
  track, get_entry_mut_or_create,
}
use sys_hyper.Paging.Tree.{IsTable, IsTree}
use sys_hyper.Paging.Tree.Grow.{Owner, Grows, Grows-refl, Grows-trans}
use sys_hyper.Paging.Tree.Create.{own_new, create-Grows, linked_slot, own_new_self}

-- The tables that lead to the page of `vaddr`, the index in the last of them, and what is left.
abbrev pub upper : HvPageTable → ℕ → List ℕ → List ℕ
upper pt vaddr is = if pt.level == 4 then p4_index vaddr ∷ is else is

abbrev pub steps : HvPageTable → PageSize → ℕ → List ℕ
steps pt PageSize.size1_g vaddr = upper pt vaddr []
steps pt PageSize.size2_m vaddr = upper pt vaddr (p3_index vaddr ∷ [])
steps pt PageSize.size4_k vaddr = upper pt vaddr (p3_index vaddr ∷ p2_index vaddr ∷ [])

abbrev pub leaf : PageSize → ℕ → ℕ
leaf PageSize.size1_g vaddr = p3_index vaddr
leaf PageSize.size2_m vaddr = p2_index vaddr
leaf PageSize.size4_k vaddr = p1_index vaddr

abbrev pub labels : List ℕ → List ℕ → List ℕ
labels [] ls = ls
labels (i ∷ is) ls = labels is (i ∷ ls)

module _ (P : GenericPte) where
  -- The entries with these indices lead from the table x to the table t.
  abbrev pub Leads : Words → ℕ → List ℕ → ℕ → Type 0
  Leads word x [] t = x ≡ t
  Leads word x (i ∷ is) t = (p : ℕ) × IsTable P (word x i) p × Leads word p is t

module _ {State : Type 0} (B : BitAlloc State) (P : GenericPte) where
  abbrev pub Creates :
      Owner → PtState State → ℕ → ℕ → List ℕ → Run PagingError (PtState State) ℕ → Type 0
  Creates own s t i ls (ok p s') =
      (own' : Owner) × Grows B P own s own' s'
      × (own' p ≡ some (i ∷ ls))
      × IsTable P (s'.memory.word t i) p
  Creates own s t i ls (err e s') = (own' : Owner) × Grows B P own s own' s'
  Creates own s t i ls panic = ⊥
  Creates own s t i ls hang = ⊥

  module _ (own : Owner) (s : PtState State) (v : IsTree B P own s) (t i : ℕ) (ls : List ℕ)
      (o : own t ≡ some ls) (deep : length ls + 1 < s.pt.level) where
    create-Creates :
        P.is_unused (s.memory.word t i) ≡ true
        → (r : Run HvErrorNum (PhysMemory State) Frame) → new_zero B s.memory ≡ r
        → Allocates B s.memory r
        → Creates own s t i ls (create B P (slot t i) s)
    unfolding create alloc_intrm_table with_memory track read_entry write_entry
    create-Creates u (ok f n) e a = rw e (
      own_new B P own s v t i ls o deep u f n a,
      create-Grows B P own s v t i ls o deep u f n a,
      own_new_self B P own s v t i ls o deep u f n a,
      linked_slot B P own s v t i ls o deep u f n a,
    )
    create-Creates u (err x n) e a = rw (e, a.1) (own, Grows-refl B P own s v)
    create-Creates u panic e a = absurd a
    create-Creates u hang e a = absurd a

    next_table_mut-Creates :
        P.is_unused (s.memory.word t i) ≡ false
        → Creates own s t i ls (lift (next_table_mut P (s.memory.word t i)) s)
    unfolding next_table_mut
    next_table_mut-Creates u = elim (Bool-cases (P.is_present (s.memory.word t i))) [
      | inr absent ↦ rw absent (own, Grows-refl B P own s v)
      | inl present ↦ elim (Bool-cases (P.is_huge (s.memory.word t i))) [
        | inl huge ↦ rw (present, huge) (own, Grows-refl B P own s v)
        | inr table ↦
            rw (present, table)
              (
                own,
                Grows-refl B P own s v,
                v.child t ls i o deep present table,
                record { used = u; present = present; table = table; target = refl },
              )
      ]
    ]

    -- On a table whose tables form a tree, at an entry that is not in the last level:
    -- `next_table_mut_or_create` neither panics nor hangs. On success the entry leads to the table that
    -- is returned, and that table is the tree's at that place. On success and on an error the tables
    -- form a tree, every entry that was in use is kept, and every address translates as before.
    pub next_table_mut_or_create-Creates :
        Creates own s t i ls (next_table_mut_or_create B P (slot t i) s)
    unfolding next_table_mut_or_create read_entry
    next_table_mut_or_create-Creates = elim (Bool-cases (P.is_unused (s.memory.word t i))) [
      | inl u ↦
          rw u (create-Creates u (new_zero B s.memory) refl (new_zero-Allocates B s.memory v.ready))
      | inr u ↦ rw u (next_table_mut-Creates u)
    ]

  -- The walk by recursion on the indices.
  unfoldable pub descend : List ℕ → ℕ → PtM B P ℕ
  descend [] t = pure t
  descend (i ∷ is) t = next_table_mut_or_create B P (slot t i) >>= descend is

  abbrev pub Descends :
      Owner → PtState State → ℕ → List ℕ → List ℕ → Run PagingError (PtState State) ℕ → Type 0
  Descends own s x ls is (ok t s') =
      (own' : Owner) × Grows B P own s own' s'
      × (own' t ≡ some (labels is ls))
      × Leads P s'.memory.word x is t
  Descends own s x ls is (err e s') = (own' : Owner) × Grows B P own s own' s'
  Descends own s x ls is panic = ⊥
  Descends own s x ls is hang = ⊥

  module _ {own own1 : Owner} {s s1 : PtState State} {x p i : ℕ} {ls : List ℕ}
      (g : Grows B P own s own1 s1) (o : own1 p ≡ some (i ∷ ls)) (owner : own x ≡ some ls)
      (e : IsTable P (s1.memory.word x i) p) where
    prepend :
        (is : List ℕ) (r : Run PagingError (PtState State) ℕ)
        → Descends own1 s1 p (i ∷ ls) is r
        → Descends own s x ls (i ∷ is) r
    prepend is (ok t s2) (own2, h, o2, l) =
        let kept = h.keep x ls i (g.ext x ls owner) e.used in
        (own2, Grows-trans B P g h, o2, (p, rw kept e, l))
    prepend is (err q s2) (own2, h) = (own2, Grows-trans B P g h)
    prepend is panic d = d
    prepend is hang d = d

  descend-first :
      (own : Owner) (s : PtState State) (x i : ℕ) (ls is : List ℕ)
      → own x ≡ some ls
      → ((own1 : Owner) (s1 : PtState State) (p : ℕ)
          → Grows B P own s own1 s1
          → own1 p ≡ some (i ∷ ls)
          → Descends own1 s1 p (i ∷ ls) is (descend is p s1))
      → (r : Run PagingError (PtState State) ℕ) → Creates own s x i ls r
      → Descends own s x ls (i ∷ is) (and_then r (descend is))
  descend-first own s x i ls is o ih (ok p s1) (own1, g, o1, e) =
      prepend g o1 o e is (descend is p s1) (ih own1 s1 p g o1)
  descend-first own s x i ls is o ih (err q s1) c = c
  descend-first own s x i ls is o ih panic c = c
  descend-first own s x i ls is o ih hang c = c

  pub descend-Descends :
      (is : List ℕ) (own : Owner) (s : PtState State) (x : ℕ) (ls : List ℕ)
      → IsTree B P own s
      → own x ≡ some ls
      → length ls + length is < s.pt.level
      → Descends own s x ls is (descend is x s)
  unfolding descend
  descend-Descends [] own s x ls v o d = (own, Grows-refl B P own s v, o, refl)
  descend-Descends (i ∷ is) own s x ls v o d =
      descend-first own s x i ls is o
        (λ own1 s1 p g o1.
          descend-Descends is own1 s1 p (i ∷ ls) g.tree o1 (rw g.same_level (omega arith)))
        (next_table_mut_or_create B P (slot x i) s)
        (next_table_mut_or_create-Creates own s v x i ls o (omega arith))

  -- `get_entry_mut_or_create` is the walk by recursion over the indices of the page's tables, followed
  -- by the index of the page in the last of them.
  pub get_entry_mut_or_create-descend :
      (vaddr : ℕ) (size : PageSize) (s : PtState State)
      → get_entry_mut_or_create B P vaddr size s
        ≡ and_then
            (descend (steps s.pt size vaddr) s.pt.root.start_paddr s)
            (λ t. pure (slot t (leaf size vaddr)))
  unfolding get_entry_mut_or_create descend
  get_entry_mut_or_create-descend vaddr PageSize.size1_g s = elim (Bool-cases (s.pt.level == 4)) [
    | inl e ↦ simp (e, and_then_assoc)
    | inr e ↦ simp e
  ]
  get_entry_mut_or_create-descend vaddr PageSize.size2_m s = elim (Bool-cases (s.pt.level == 4)) [
    | inl e ↦ simp (e, and_then_assoc)
    | inr e ↦ simp (e, and_then_assoc)
  ]
  get_entry_mut_or_create-descend vaddr PageSize.size4_k s = elim (Bool-cases (s.pt.level == 4)) [
    | inl e ↦ simp (e, and_then_assoc)
    | inr e ↦ simp (e, and_then_assoc)
  ]
