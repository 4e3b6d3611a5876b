-- ===== src/Paging/Tree/Query.antt =====
-- `query` and the tree: the code's unrolled walk finds the entry that `resolve` finds.
use sys_hyper.Base.{ℕ, ◌+◌, ◌≡◌, ◌==◌, Bool-cases, inl, inr, arith}
use sys_hyper.Base.Result
use sys_hyper.Base.Result.{Result, ◌>>=◌}
use sys_hyper.Paging.PageSize.{PageSize, page_offset, p4_index, p3_index, p2_index}
use sys_hyper.Paging.Pte.{GenericPte}
use sys_hyper.Paging.Table.{PagingError, HvPageTable, Words, get_entry_mut, query, next_table_mut}
use sys_hyper.Paging.Tree.{path, resolve}

module _ (P : GenericPte) (word : Words) (vaddr : ℕ) where
  -- What `query` answers for an entry.
  abbrev pub answer : ℕ × PageSize → Result PagingError (ℕ × ℕ × PageSize)
  answer (e, size) = do
    flags ← Result.unwrap (P.flags e)
    Result.ok (P.addr e + page_offset size vaddr, flags, size)

  abbrev entry3 : ℕ → ℕ
  entry3 p3 = word p3 (p3_index vaddr)

  abbrev entry2 : ℕ → ℕ
  entry2 p3 = word (P.addr (entry3 p3)) (p2_index vaddr)

  abbrev entry4 : ℕ → ℕ
  entry4 root = word root (p4_index vaddr)

  -- `query` gives what the recursive walk `resolve` finds along the indices of the address: its frame
  -- with the offset in the page, its flags and its size, or the error of the walk.
  pub query-resolve :
      (pt : HvPageTable)
      → query P word pt vaddr ≡ (resolve P word pt.root.start_paddr (path pt vaddr) >>= answer)
  unfolding query get_entry_mut next_table_mut resolve
  query-resolve pt = elim (Bool-cases (pt.level == 4)) [
    | inl e ↦
        let root = pt.root.start_paddr in
        let p3 = P.addr (entry4 root) in
        rw e (
          ground (
            arith,
            P.unused_absent (entry4 root),
            P.unused_absent (entry3 p3),
            P.unused_absent (entry2 p3),
          ))
    | inr e ↦
        let p3 = pt.root.start_paddr in
        rw e (ground (arith, P.unused_absent (entry3 p3), P.unused_absent (entry2 p3)))
  ]
