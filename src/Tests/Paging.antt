-- ===== src/Tests/Paging.antt =====
-- A page table with three levels and an empty root, and a pool of eight frames.
use sys_hyper.Base.{
  ℕ, ◌+◌, ◌-◌, ◌%◌, ◌^◌, ◌≡◌, refl, true, false, ◌==◌, ◌&&◌, if◌then◌else◌, List, [], ◌∷◌, Option,
  none, some, Bool-cases, inl, inr, arith,
}
use sys_hyper.Base.Result.{◌>>=◌}
use sys_hyper.Error.{HvErrorNum}
use sys_hyper.Memory.MemorySet.{MemorySet, insert, test_free_area}
use sys_hyper.Memory.MemorySet.FreeArea.{free_of_all, test_free_area-free_of_all}
use sys_hyper.Memory.MemorySet.Insert.{Inserts, insert-Inserts}
use sys_hyper.Base.Run.{ok}
use sys_hyper.Memory.Region.{Mapper, MemoryRegion, map_fn}
use sys_hyper.Memory.Frame.{Frame, PhysMemory, new_zero}
use sys_hyper.Memory.Frame.Alloc.{IsReady, Allocates, new_zero-Allocates}
use sys_hyper.Paging.PageSize.{PageSize, p3_index, p2_index, p1_index}
use sys_hyper.Paging.Stage2.{
  stage2_pte, addr, flags, is_unused, is_present, is_huge, set_addr, set_flags, kept_flags,
  set_flags-set_addr,
}
use sys_hyper.Paging.Stage2.DescriptorAttr.{from_bits_truncate, contains}
use sys_hyper.Paging.Table.{PtState, slot, query}
use sys_hyper.Paging.Map.{map_page, unmap_page, map, next_table_mut_or_create}
use sys_hyper.Paging.Tree.{IsTree, resolve}
use sys_hyper.Paging.Tree.Query.{answer, query-resolve}
use sys_hyper.Paging.Tree.Descend.{Creates, next_table_mut_or_create-Creates}
use sys_hyper.Paging.Tree.MapPage.{Maps, map_page-Maps}
use sys_hyper.Paging.Tree.MapRegion.{Linear, MapsRegion, map-MapsRegion}
use sys_hyper.Paging.Tree.UnmapPage.{Unmaps, unmap_page-Unmaps}
use sys_hyper.Riscv.Entry as Riscv
use sys_hyper.Riscv.Stage1 as Riscv1
use sys_hyper.Riscv.Stage2 as Riscv2
use sys_hyper.Riscv.RoundTrip.{ReadsBack, riscv_set_flags-set_addr}
use sys_hyper.Tests.BitSet.{BitSet, bit_set}

abbrev pool : BitSet
pool = record { bits = λ i. true; bound = 8 }

abbrev memory : PhysMemory BitSet
memory = record { word = λ p i. 0; allocator = record { base = 0x10000; inner = pool } }

abbrev root : Frame
root = record { start_paddr = 0x1000; frame_count = 1 }

abbrev pub empty_table : PtState BitSet
empty_table = record { pt = record { root = root; level = 3; intrm_tables = [] }; memory = memory }

abbrev pub own : ℕ → Option (List ℕ)
own t = if t == 0x1000 then some [] else none

memory-IsReady : IsReady bit_set memory
unfolding bit_set
memory-IsReady = record { aligned = refl; below = λ i h. ground arith }

own-root : (t : ℕ) (ls : List ℕ) → own t ≡ some ls → t ≡ 0x1000
own-root t ls h = elim (Bool-cases (t == 0x1000)) [
  | inl e ↦ ground arith
  | inr e ↦ let h' = rw e at h in cc h'
]

pub empty_table-IsTree : IsTree bit_set stage2_pte own empty_table
unfolding bit_set
empty_table-IsTree = record {
  levels = inl refl;
  root_own = refl;
  child =
      λ t ls i o d present table. cc (present, stage2_pte.unused_absent 0 stage2_pte.zero-unused);
  taken = λ t ls o i e. absurd (omega (arith, own-root t ls o));
  aligned = λ t ls o. rw (own-root t ls o) refl;
  ready = memory-IsReady;
}

new_zero-Allocates_example : Allocates bit_set memory (new_zero bit_set memory)
new_zero-Allocates_example = new_zero-Allocates bit_set memory memory-IsReady

map_page-Maps_example :
    Maps bit_set stage2_pte empty_table 0x5000 PageSize.size4_k 0x8000_3000 7
      (map_page bit_set stage2_pte 0x5000 PageSize.size4_k 0x8000_3000 7 empty_table)
map_page-Maps_example =
    map_page-Maps bit_set stage2_pte empty_table-IsTree 0x5000 PageSize.size4_k 0x8000_3000 7
      (omega arith)

-- The same table with 1 GiB at 0x4000_0000 mapped to 0x8000_0000.
abbrev pub block_table : PtState BitSet
block_table = record empty_table {
  memory = record memory { word = λ t i. if t == 0x1000 && i == 1 then 0x8000_07fd else 0 };
}

pub block_table-IsTree : IsTree bit_set stage2_pte own block_table
unfolding bit_set stage2_pte is_huge from_bits_truncate contains
block_table-IsTree = record {
  levels = inl refl;
  root_own = refl;
  child = λ t ls i o d present table. elim (Bool-cases (t == 0x1000 && i == 1)) [
    | inl hit ↦ let no_table = rw hit at table in cc no_table
    | inr miss ↦
        let absent = rw miss at present in
        cc (absent, stage2_pte.unused_absent 0 stage2_pte.zero-unused)
  ];
  taken = λ t ls o i e. absurd (omega (arith, own-root t ls o));
  aligned = λ t ls o. rw (own-root t ls o) refl;
  ready = record { aligned = refl; below = λ i h. ground arith };
}

unmap_page-Unmaps_example :
    Unmaps bit_set stage2_pte block_table 0x4000_5000
      (unmap_page bit_set stage2_pte 0x4000_5000 block_table)
unmap_page-Unmaps_example = unmap_page-Unmaps bit_set stage2_pte block_table-IsTree 0x4000_5000

next_table_mut_or_create-Creates_example :
    Creates bit_set stage2_pte own empty_table 0x1000 5 []
      (next_table_mut_or_create bit_set stage2_pte (slot 0x1000 5) empty_table)
next_table_mut_or_create-Creates_example =
    next_table_mut_or_create-Creates bit_set stage2_pte own empty_table empty_table-IsTree 0x1000 5
      [] refl (omega arith)

query-resolve_example : query stage2_pte memory.word empty_table.pt 0x5000 ≡ (
    resolve stage2_pte memory.word 0x1000 (0 ∷ 0 ∷ 5 ∷ []) >>= answer stage2_pte memory.word 0x5000)
unfolding p3_index p2_index p1_index
query-resolve_example = query-resolve stage2_pte memory.word 0x5000 empty_table.pt

-- 4 MiB and a page at 0x4020_0000, mapped to 0x8020_0000.
abbrev pub two_blocks : MemoryRegion
two_blocks = record {
  start = 0x4020_0000;
  size = 0x40_1000;
  flags = 7;
  mapper = Mapper.offset ((0x4020_0000 + 2 ^ 64 - 0x8020_0000) % 2 ^ 64);
}

pub two_blocks-Linear : Linear two_blocks.mapper two_blocks.start 0x8020_0000 two_blocks.size
unfolding map_fn
two_blocks-Linear d lt = omega arith

map-MapsRegion_example :
    MapsRegion bit_set stage2_pte empty_table 0x4020_0000 0x40_1000 0x8020_0000 7
      (map bit_set stage2_pte two_blocks empty_table)
map-MapsRegion_example =
    map-MapsRegion bit_set stage2_pte two_blocks 0x8020_0000 empty_table-IsTree two_blocks-Linear
      refl refl refl (omega arith) (omega arith)

set_flags-set_addr_example :
    let w = set_flags 3 true (set_addr 0x8020_0000 0) in
    (is_unused w ≡ false)
    × (is_present w ≡ true)
    × (is_huge w ≡ true)
    × (addr w ≡ 0x8020_0000)
    × (flags w ≡ some (kept_flags 3))
set_flags-set_addr_example = set_flags-set_addr 0x8020_0000 3 true 0 (refl, omega arith)

-- An empty set, and one with a region below the new one.
abbrev pub empty_set : MemorySet BitSet
empty_set = record { regions = []; page_table = empty_table }

insert-Inserts_example :
    Inserts bit_set stage2_pte empty_set two_blocks 0x8020_0000
      (insert bit_set stage2_pte two_blocks empty_set)
insert-Inserts_example =
    insert-Inserts bit_set stage2_pte empty_set two_blocks 0x8020_0000 tt empty_table-IsTree
      (omega arith) two_blocks-Linear refl refl refl (omega arith) (omega arith)

test_free_area-free_of_all_example :
    test_free_area {E = HvErrorNum}
      (two_blocks ∷ [])
      (record two_blocks { start = 0x4030_0000 })
      memory
    ≡ ok (free_of_all (two_blocks ∷ []) (record two_blocks { start = 0x4030_0000 })) memory
test_free_area-free_of_all_example =
    test_free_area-free_of_all {E = HvErrorNum} (two_blocks ∷ [])
      (record two_blocks { start = 0x4030_0000 }) memory (omega arith, omega arith, omega arith, tt)
      (omega arith) (omega arith)

riscv_set_flags-set_addr_example :
    ReadsBack false 0x8020_0000 3 (Riscv1.set_flags 3 (Riscv.set_addr 0x8020_0000 0xff))
    × ReadsBack true 0x8020_0000 3 (Riscv2.set_flags 3 (Riscv.set_addr 0x8020_0000 0xff))
riscv_set_flags-set_addr_example = riscv_set_flags-set_addr 0x8020_0000 3 0xff (refl, omega arith)
