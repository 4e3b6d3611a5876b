-- ===== src/Memory/Region.antt =====
-- `Mapper` of src/memory/mapper.rs and `MemoryRegion` of src/memory/mm.rs. Addresses are words
-- below 2^64.
use sys_hyper.Base.{ℕ, ◌+◌, ◌-◌, ◌%◌, ◌^◌, Bool, not, ◌||◌, leb}
use sys_hyper.Base.Run.{M, ◌>>=◌, pure, checked_add}

pub data Mapper : Type 0 where
  offset fixed : ℕ → Mapper

pub record MemoryRegion : Type 0 where
  pub start : ℕ
  pub size : ℕ
  pub flags : ℕ
  pub mapper : Mapper

-- `usize::wrapping_sub`
abbrev pub wrapping_sub : ℕ → ℕ → ℕ
wrapping_sub a b = (a + 2 ^ 64 - b) % 2 ^ 64

unfoldable pub map_fn : Mapper → ℕ → ℕ
map_fn (Mapper.offset off) vaddr = wrapping_sub vaddr off
map_fn (Mapper.fixed paddr) vaddr = paddr

unfoldable pub new_with_offset_mapper : ℕ → ℕ → ℕ → ℕ → MemoryRegion
new_with_offset_mapper start_vaddr start_paddr size flags = record {
  start = start_vaddr;
  size = size;
  flags = flags;
  mapper = Mapper.offset (wrapping_sub start_vaddr start_paddr);
}

module _ {E S : Type 0} where
  unfoldable pub is_overlap_with : MemoryRegion → MemoryRegion → M E S Bool
  is_overlap_with r other = do
    let p0 = r.start
    p1 ← checked_add p0 r.size
    let p2 = other.start
    p3 ← checked_add p2 other.size
    pure (not (leb p1 p2 || leb p3 p0))
