-- ===== src/Paging/Table.antt =====
-- The page table of src/arch/aarch64/paging.rs (`HvPageTableImmut`, `HvPageTableUnlocked` and
-- `HvPageTable`): its data, and the operations that only read it.
use sys_hyper.Base.{ℕ, ◌+◌, not, ◌==◌, if◌then◌else◌, List}
use sys_hyper.Base.Result
use sys_hyper.Base.Result.{Result, ◌>>=◌}
use sys_hyper.Error.{HvErrorNum}
use sys_hyper.Memory.Frame.{Frame, PhysMemory}
use sys_hyper.Paging.PageSize.{PageSize, page_offset, p4_index, p3_index, p2_index, p1_index}
use sys_hyper.Paging.Pte.{GenericPte}

pub data PagingError : Type 0 where
  no_memory not_mapped already_mapped mapped_to_huge_page : PagingError

-- `From<PagingError> for HvError`
unfoldable pub to_hv_error : PagingError → HvErrorNum
to_hv_error PagingError.no_memory = HvErrorNum.enomem
to_hv_error _ = HvErrorNum.efault

-- The root table, the number of levels (3 or 4) and the frames of the tables below the root.
pub record HvPageTable : Type 0 where
  pub root : Frame
  pub level : ℕ
  pub intrm_tables : List Frame

-- `&mut table[index]` for the table in the frame at `table`.
pub record Slot : Type 0 where
  pub table : ℕ
  pub index : ℕ

abbrev pub slot : ℕ → ℕ → Slot
slot t i = record { table = t; index = i }

-- A page table and the physical memory that holds it.
pub record PtState (State : Type 0) : Type 0 where
  pub pt : HvPageTable
  pub memory : PhysMemory State

abbrev pub Words : Type 0
Words = ℕ → ℕ → ℕ

module _ (P : GenericPte) where
  unfoldable pub next_table_mut : ℕ → Result PagingError ℕ
  next_table_mut entry =
      if not (P.is_present entry)
      then Result.err PagingError.not_mapped
      else if P.is_huge entry
      then Result.err PagingError.mapped_to_huge_page
      else Result.ok (P.addr entry)

  unfoldable pub get_entry_mut : Words → HvPageTable → ℕ → Result PagingError (Slot × PageSize)
  unfolding next_table_mut
  get_entry_mut word pt vaddr = do
    p3 ←
        (if pt.level == 4
          then next_table_mut (word pt.root.start_paddr (p4_index vaddr))
          else Result.ok pt.root.start_paddr)
    let p3e = word p3 (p3_index vaddr)
    if P.is_huge p3e then Result.ok (slot p3 (p3_index vaddr), PageSize.size1_g) else do
      p2 ← next_table_mut p3e
      let p2e = word p2 (p2_index vaddr)
      if P.is_huge p2e
          then Result.ok (slot p2 (p2_index vaddr), PageSize.size2_m)
          else do p1 ← next_table_mut p2e; Result.ok (slot p1 (p1_index vaddr), PageSize.size4_k)

  unfoldable pub query : Words → HvPageTable → ℕ → Result PagingError (ℕ × ℕ × PageSize)
  unfolding get_entry_mut page_offset
  query word pt vaddr = do
    (place, size) ← get_entry_mut word pt vaddr
    let entry = word place.table place.index
    if P.is_unused entry then Result.err PagingError.not_mapped else do
      flags ← Result.unwrap (P.flags entry)
      Result.ok (P.addr entry + page_offset size vaddr, flags, size)

  -- `starting_level`
  unfoldable pub starting_level : HvPageTable → ℕ
  starting_level pt = if pt.level == 4 then 0 else 1
