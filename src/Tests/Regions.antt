-- ===== src/Tests/Regions.antt =====
-- Regions that are unmapped, and sets of regions that are all mapped.
use sys_hyper.Base.{◌-◌, ◌^◌, ◌≡◌, refl, [], ◌∷◌, arith}
use sys_hyper.Base.Bits.{bit_not}
use sys_hyper.Base.Result
use sys_hyper.Base.Run.{and_then}
use sys_hyper.Memory.Region.{Mapper, MemoryRegion}
use sys_hyper.Memory.MemorySet.{MemorySet, insert, delete, clear}
use sys_hyper.Memory.MemorySet.Mapped.{IsMapped, KeepsMapped, insert-IsMapped}
use sys_hyper.Memory.MemorySet.Delete.{Deletes, delete-Deletes}
use sys_hyper.Memory.MemorySet.Clear.{Clears, clear-Clears}
use sys_hyper.Paging.PageSize.{PageSize, page_offset, p3_index}
use sys_hyper.Paging.Entry.{phys_addr_mask}
use sys_hyper.Paging.Table.{query, get_entry_mut}
use sys_hyper.Paging.Map.{map, unmap}
use sys_hyper.Paging.Stage2.{stage2_pte, addr, flags, is_unused, is_huge}
use sys_hyper.Paging.Stage2.DescriptorAttr.{
  from_bits_truncate, contains, to_mem_flags, mem_type, add_io,
}
use sys_hyper.Paging.Tree.MapPage.{translate}
use sys_hyper.Paging.Tree.Mapped.{Pages}
use sys_hyper.Paging.Tree.UnmapRegion.{UnmapsRegion, unmap-UnmapsRegion, Undoes, unmap-map}
use sys_hyper.Tests.BitSet.{BitSet, bit_set}
use sys_hyper.Tests.Paging.{
  own, empty_table, empty_table-IsTree, block_table, block_table-IsTree, two_blocks,
  two_blocks-Linear, empty_set,
}

-- The region of the block of 1 GiB.
abbrev block : MemoryRegion
block = record {
  start = 0x4000_0000;
  size = 0x4000_0000;
  flags = 7;
  mapper = Mapper.offset (2 ^ 64 - 0x4000_0000);
}

block-translate :
    translate bit_set stage2_pte block_table 0x4000_0000
    ≡ Result.ok (0x8000_0000, 3, PageSize.size1_g)
unfolding query get_entry_mut stage2_pte is_huge is_unused addr flags from_bits_truncate contains
    to_mem_flags mem_type add_io page_offset p3_index phys_addr_mask bit_not
block-translate = refl

block-Pages : Pages bit_set stage2_pte block_table block.start block.size
block-Pages =
    Pages.page PageSize.size1_g 0x8000_0000 3 refl (omega arith) block-translate Pages.done

unmap-UnmapsRegion_example :
    UnmapsRegion bit_set stage2_pte block_table 0x4000_0000 0x4000_0000
      (unmap bit_set stage2_pte block block_table)
unmap-UnmapsRegion_example =
    unmap-UnmapsRegion bit_set stage2_pte block block_table-IsTree block-Pages (omega arith)

unmap-map_example : Undoes bit_set stage2_pte empty_table 0x4020_0000 0x40_1000 (
    and_then
      (map bit_set stage2_pte two_blocks empty_table)
      (λ _. unmap bit_set stage2_pte two_blocks))
unmap-map_example =
    unmap-map bit_set stage2_pte two_blocks 0x8020_0000 empty_table-IsTree two_blocks-Linear refl
      refl refl (omega arith) (omega arith)

insert-IsMapped_example :
    KeepsMapped bit_set stage2_pte (insert bit_set stage2_pte two_blocks empty_set)
insert-IsMapped_example =
    insert-IsMapped bit_set stage2_pte empty_set two_blocks 0x8020_0000
      (record { order = tt; tree = (own, empty_table-IsTree); mapped = tt }) (omega arith)
      two_blocks-Linear refl refl refl (omega arith) (omega arith)

-- The set of that block.
abbrev block_set : MemorySet BitSet
block_set = record { regions = block ∷ []; page_table = block_table }

block_set-IsMapped : IsMapped bit_set stage2_pte block_set
block_set-IsMapped = record {
  order = (omega arith, omega arith, omega arith, tt);
  tree = (own, block_table-IsTree);
  mapped = (block-Pages, omega arith, tt);
}

delete-Deletes_example :
    Deletes bit_set stage2_pte block_set 0x4000_0000
      (delete bit_set stage2_pte 0x4000_0000 block_set)
delete-Deletes_example = delete-Deletes bit_set stage2_pte block_set 0x4000_0000 block_set-IsMapped

clear-Clears_example : Clears bit_set stage2_pte block_set (clear bit_set stage2_pte block_set)
clear-Clears_example = clear-Clears bit_set stage2_pte block_set block_set-IsMapped
