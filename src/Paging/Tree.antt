-- ===== src/Paging/Tree.antt =====
-- The tree of tables behind a page table of src/arch/aarch64/paging.rs: what an address resolves
-- to, and the shape of the tree.
pub mod Query
pub mod Grow
pub mod Create
pub mod Descend
pub mod Leaf
pub mod Path
pub mod MapPage
pub mod UnmapPage
pub mod Pages
pub mod Mapped
pub mod MapRegion
pub mod UnmapRegion
use sys_hyper.Base.{
  ℕ, ◌+◌, ◌%◌, ◌<◌, ◌≡◌, refl, ◌⊎◌, Bool, true, false, ◌==◌, if◌then◌else◌, List, [], ◌∷◌, Option,
  some, length, arith,
}
use sys_hyper.Base.Result
use sys_hyper.Base.Result.{Result}
use sys_hyper.Memory.Frame.Bitmap.{BitAlloc}
use sys_hyper.Memory.Frame.Alloc.{IsReady, IsTaken}
use sys_hyper.Paging.PageSize.{PageSize, p4_index, p3_index, p2_index, p1_index}
use sys_hyper.Paging.Pte.{GenericPte}
use sys_hyper.Paging.Table.{PagingError, HvPageTable, PtState, Words}

-- The index in each table on the way to the 4 KiB page of `vaddr`.
abbrev pub path : HvPageTable → ℕ → List ℕ
path pt vaddr = if pt.level == 4 then p4_index vaddr ∷ below else below
  where
    below : List ℕ
    below = p3_index vaddr ∷ p2_index vaddr ∷ p1_index vaddr ∷ []

module _ (P : GenericPte) where
  -- An entry that maps a block, by the indices that are left below it.
  abbrev pub block : ℕ → List ℕ → Result PagingError (ℕ × PageSize)
  block e [] = Result.ok (e, PageSize.size4_k)
  block e (_ ∷ []) = Result.ok (e, PageSize.size2_m)
  block e (_ ∷ _ ∷ []) = Result.ok (e, PageSize.size1_g)
  block e (_ ∷ _ ∷ _ ∷ _) =
      if P.is_present e
      then Result.err PagingError.mapped_to_huge_page
      else Result.err PagingError.not_mapped

  -- An entry above the last level: it maps a block, or leads on to the next table.
  unfoldable pub next :
      ℕ → List ℕ → Result PagingError (ℕ × PageSize) → Result PagingError (ℕ × PageSize)
  next e is rest =
      if P.is_unused e
      then Result.err PagingError.not_mapped
      else if P.is_huge e
      then block e is
      else if P.is_present e
      then rest
      else Result.err PagingError.not_mapped

  -- The entry that maps the address with these indices, if there is one.
  unfoldable pub resolve : Words → ℕ → List ℕ → Result PagingError (ℕ × PageSize)
  unfolding next
  resolve word t [] = Result.err PagingError.not_mapped
  resolve word t (i ∷ []) =
      if P.is_unused (word t i)
      then Result.err PagingError.not_mapped
      else Result.ok (word t i, PageSize.size4_k)
  resolve word t (i ∷ j ∷ is) = next (word t i) (j ∷ is) (resolve word (P.addr (word t i)) (j ∷ is))

  pub resolve_step :
      (word : Words) (t i j : ℕ) (is : List ℕ)
      → resolve word t (i ∷ j ∷ is)
        ≡ next (word t i) (j ∷ is) (resolve word (P.addr (word t i)) (j ∷ is))
  unfolding resolve
  resolve_step word t i j is = refl

  pub next_cong :
      (e : ℕ) (is : List ℕ) (r r' : Result PagingError (ℕ × PageSize))
      → (P.is_present e ≡ true → P.is_huge e ≡ false → r ≡ r')
      → next e is r ≡ next e is r'
  unfolding next
  next_cong e is r r' h = ground arith

  -- The entry leads to the table at p.
  pub record IsTable (e p : ℕ) : Type 0 where
    pub used : P.is_unused e ≡ false
    pub present : P.is_present e ≡ true
    pub table : P.is_huge e ≡ false
    pub target : P.addr e ≡ p

  -- Two memories that agree on an entry, and behind it if it leads on.
  pub resolve_cong :
      (w w' : Words) (x j k : ℕ) (is : List ℕ)
      → w' x j ≡ w x j
      → (let e = w x j in
          P.is_present e ≡ true
          → P.is_huge e ≡ false
          → resolve w' (P.addr e) (k ∷ is) ≡ resolve w (P.addr e) (k ∷ is))
      → resolve w' x (j ∷ k ∷ is) ≡ resolve w x (j ∷ k ∷ is)
  resolve_cong w w' x j k is same ih =
      rw (resolve_step w' x j k is, resolve_step w x j k is, same) (next_cong _ _ _ _ ih)

  pub resolve_through :
      (w : Words) (x j k p : ℕ) (is : List ℕ)
      → IsTable (w x j) p
      → resolve w x (j ∷ k ∷ is) ≡ resolve w p (k ∷ is)
  unfolding next
  resolve_through w x j k p is q =
      rw (resolve_step w x j k is, q.used, q.table, q.present, q.target)

module _ {State : Type 0} (B : BitAlloc State) (P : GenericPte) where
  -- `own t` is the list of indices, last first, that leads from the root to the table at t. So no
  -- table is reached in two ways, and no table is in the allocator's pool.
  pub record IsTree (own : ℕ → Option (List ℕ)) (s : PtState State) : Type 0 where
    pub levels : (s.pt.level ≡ 3) ⊎ (s.pt.level ≡ 4)
    pub root_own : own s.pt.root.start_paddr ≡ some []
    pub child :
        (t : ℕ) (ls : List ℕ) (i : ℕ)
        → own t ≡ some ls
        → length ls + 1 < s.pt.level
        → P.is_present (s.memory.word t i) ≡ true
        → P.is_huge (s.memory.word t i) ≡ false
        → own (P.addr (s.memory.word t i)) ≡ some (i ∷ ls)
    pub taken : (t : ℕ) (ls : List ℕ) → own t ≡ some ls → IsTaken B s.memory t
    pub aligned : (t : ℕ) (ls : List ℕ) → own t ≡ some ls → t % 0x1000 ≡ 0
    pub ready : IsReady B s.memory
