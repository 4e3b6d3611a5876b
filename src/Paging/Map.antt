-- ===== src/Paging/Map.antt =====
-- The operations of `HvPageTableUnlocked` and `HvPageTable` (src/arch/aarch64/paging.rs) that change
-- a page table. Each function takes the table and the physical memory, and returns both.
use sys_hyper.Base.{ℕ, zero, suc, ◌/◌, not, ◌&&◌, leb, ◌==◌, if◌then◌else◌, [], ◌∷◌, ◌++◌}
use sys_hyper.Base.Run.{
  M, Run, ok, err, panic, hang, ◌>>=◌, ◌>>◌, pure, fail, assert, get, put, lift, checked_add,
  checked_sub, map_err,
}
use sys_hyper.Error.{HvErrorNum}
use sys_hyper.Memory.Addr
use sys_hyper.Memory.Flags.{contains, no_hugepages}
use sys_hyper.Memory.Region.{MemoryRegion, map_fn}
use sys_hyper.Memory.Frame.Bitmap.{BitAlloc}
use sys_hyper.Memory.Frame.{Frame, PhysMemory, new_zero}
use sys_hyper.Paging.PageSize.{
  PageSize, bytes, same_size, is_aligned, align_down, is_huge, p4_index, p3_index, p2_index,
  p1_index,
}
use sys_hyper.Paging.Pte.{GenericPte}
use sys_hyper.Paging.Table.{
  PagingError, to_hv_error, Slot, PtState, Words, next_table_mut, get_entry_mut,
}

-- The page size that `map` chooses for what is left of a region.
unfoldable pub choose_size : ℕ → ℕ → ℕ → ℕ → PageSize
unfolding is_aligned contains
choose_size vaddr paddr size flags =
    if is_aligned PageSize.size1_g vaddr
      && is_aligned PageSize.size1_g paddr
      && leb (bytes PageSize.size1_g) size
      && not (contains flags no_hugepages)
    then PageSize.size1_g
    else if is_aligned PageSize.size2_m vaddr
        && is_aligned PageSize.size2_m paddr
        && leb (bytes PageSize.size2_m) size
        && not (contains flags no_hugepages)
    then PageSize.size2_m
    else PageSize.size4_k

module _ {State : Type 0} (B : BitAlloc State) (P : GenericPte) where
  abbrev pub PtM : Type 0 → Type 0
  PtM A = M PagingError (PtState State) A

  abbrev pub store : Words → Slot → ℕ → Words
  store word slot e p i = if slot.table == p && slot.index == i then e else word p i

  unfoldable pub read_entry : Slot → PtM ℕ
  read_entry slot = do s ← get; pure (s.memory.word slot.table slot.index)

  unfoldable pub write_entry : Slot → ℕ → PtM (Unit {0})
  write_entry slot e = do
    s ← get
    put (record s { memory = record (s.memory) { word = store s.memory.word slot e } })

  abbrev pub in_memory :
      {A E : Type 0}
      → (HvErrorNum → E)
      → PtState State
      → Run HvErrorNum (PhysMemory State) A
      → Run E (PtState State) A
  in_memory f s (ok a n) = ok a (record s { memory = n })
  in_memory f s (err e n) = err (f e) (record s { memory = n })
  in_memory f s panic = panic
  in_memory f s hang = hang

  -- An operation on physical memory, with its error replaced.
  unfoldable pub with_memory :
      {A E : Type 0} → (HvErrorNum → E) → M HvErrorNum (PhysMemory State) A → M E (PtState State) A
  with_memory f m s = in_memory f s (m s.memory)

  unfoldable pub track : Frame → PtM (Unit {0})
  track frame = do
    s ← get
    put (record s { pt = record (s.pt) { intrm_tables = s.pt.intrm_tables ++ frame ∷ [] } })

  -- The error is the one that `next_table_mut_or_create` puts in its place.
  unfoldable pub alloc_intrm_table : PtM ℕ
  unfolding with_memory track
  alloc_intrm_table = do
    frame ← with_memory (λ _. PagingError.no_memory) (new_zero B)
    track frame
    pure frame.start_paddr

  -- A new table behind an unused entry.
  unfoldable pub create : Slot → PtM ℕ
  unfolding read_entry write_entry alloc_intrm_table
  create slot = do
    paddr ← alloc_intrm_table
    e ← read_entry slot
    write_entry slot (P.set_table paddr e)
    pure paddr

  unfoldable pub next_table_mut_or_create : Slot → PtM ℕ
  unfolding read_entry create
  next_table_mut_or_create slot = do
    entry ← read_entry slot
    if P.is_unused entry then create slot else lift (next_table_mut P entry)

  unfoldable pub get_entry_mut_or_create : ℕ → PageSize → PtM Slot
  unfolding next_table_mut_or_create
  get_entry_mut_or_create vaddr size = do
    s ← get
    p3 ←
        (if s.pt.level == 4
          then next_table_mut_or_create
              (record { table = s.pt.root.start_paddr; index = p4_index vaddr })
          else pure s.pt.root.start_paddr)
    let p3e : Slot = record { table = p3; index = p3_index vaddr }
    if same_size size PageSize.size1_g then pure p3e else do
      p2 ← next_table_mut_or_create p3e
      let p2e : Slot = record { table = p2; index = p2_index vaddr }
      if same_size size PageSize.size2_m then pure p2e else do
        p1 ← next_table_mut_or_create p2e
        pure (record { table = p1; index = p1_index vaddr })

  -- The part of `map_page` that has its entry.
  unfoldable pub map_entry : PageSize → ℕ → ℕ → Slot → PtM Slot
  unfolding read_entry write_entry align_down is_huge
  map_entry size paddr flags slot = do
    entry ← read_entry slot
    if not (P.is_unused entry) then fail PagingError.already_mapped else do
      write_entry slot (P.set_addr (align_down size paddr) entry)
      e ← read_entry slot
      write_entry slot (P.set_flags flags (is_huge size) e)
      pure slot

  unfoldable pub map_page : ℕ → PageSize → ℕ → ℕ → PtM Slot
  unfolding get_entry_mut_or_create map_entry
  map_page vaddr size paddr flags = do
    slot ← get_entry_mut_or_create vaddr size
    map_entry size paddr flags slot

  unfoldable pub unmap_page : ℕ → PtM (ℕ × PageSize)
  unfolding get_entry_mut read_entry write_entry
  unmap_page vaddr = do
    s ← get
    (slot, size) ← lift (get_entry_mut P s.memory.word s.pt vaddr)
    entry ← read_entry slot
    if P.is_unused entry
        then fail PagingError.not_mapped
        else do write_entry slot (P.clear entry); pure (P.addr entry, size)

  unfoldable pub update : ℕ → ℕ → ℕ → PtM PageSize
  unfolding get_entry_mut read_entry write_entry is_huge
  update vaddr paddr flags = do
    s ← get
    (slot, size) ← lift (get_entry_mut P s.memory.word s.pt vaddr)
    entry ← read_entry slot
    write_entry slot (P.set_addr paddr entry)
    e ← read_entry slot
    write_entry slot (P.set_flags flags (is_huge size) e)
    pure size

  -- The `while size > 0` of `map`. `hang` is fuel that ran out.
  unfoldable pub map_loop : ℕ → MemoryRegion → ℕ → ℕ → M HvErrorNum (PtState State) (Unit {0})
  unfolding map_fn choose_size map_page to_hv_error
  map_loop fuel region vaddr zero = pure tt
  map_loop zero region vaddr (suc n) = λ s. hang
  map_loop (suc fuel) region vaddr (suc n) = do
    let size = suc n
    let paddr = map_fn region.mapper vaddr
    let page_size = choose_size vaddr paddr size region.flags
    assert (is_aligned page_size vaddr)
    λ s. map_err to_hv_error (map_page vaddr page_size paddr region.flags s)
    next ← checked_add vaddr (bytes page_size)
    left ← checked_sub size (bytes page_size)
    map_loop fuel region next left

  -- One round for each 4 KiB of the region is enough.
  unfoldable pub map : MemoryRegion → M HvErrorNum (PtState State) (Unit {0})
  unfolding map_loop Addr.is_aligned
  map region = do
    assert (Addr.is_aligned region.start)
    assert (Addr.is_aligned region.size)
    map_loop (region.size / 0x1000) region region.start region.size

  -- The `while size > 0` of `unmap`; a page found at a misaligned address is its endless loop.
  unfoldable pub unmap_loop : ℕ → ℕ → ℕ → M HvErrorNum (PtState State) (Unit {0})
  unfolding unmap_page to_hv_error is_aligned
  unmap_loop fuel vaddr zero = pure tt
  unmap_loop zero vaddr (suc n) = λ s. hang
  unmap_loop (suc fuel) vaddr (suc n) = do
    (_, page_size) ← (λ s. map_err to_hv_error (unmap_page vaddr s))
    if not (is_aligned page_size vaddr) then (λ s. hang) else do
      assert (leb (bytes page_size) (suc n))
      next ← checked_add vaddr (bytes page_size)
      left ← checked_sub (suc n) (bytes page_size)
      unmap_loop fuel next left

  unfoldable pub unmap : MemoryRegion → M HvErrorNum (PtState State) (Unit {0})
  unfolding unmap_loop
  unmap region = unmap_loop (region.size / 0x1000) region.start region.size
