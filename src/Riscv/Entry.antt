-- ===== src/Riscv/Entry.antt =====
-- The Sv39 entry that src/arch/riscv64/s1pt.rs and s2pt.rs share: `DescriptorAttr`, and
-- `PageTableEntry` with its `GenericPTE`. The attributes that a leaf always has are a parameter.
use sys_hyper.Base.{
  ℕ, ◌-◌, ◌*◌, ◌/◌, ◌%◌, ◌^◌, Bool, not, ◌||◌, ◌==◌, if◌then◌else◌, bit_and, bit_or,
}
use sys_hyper.Base.Bits.{bit_not}
use sys_hyper.Memory.Flags

abbrev pub valid : ℕ
valid = 2 ^ 0

abbrev pub readable : ℕ
readable = 2 ^ 1

abbrev pub writable : ℕ
writable = 2 ^ 2

abbrev pub executable : ℕ
executable = 2 ^ 3

abbrev pub user : ℕ
user = 2 ^ 4

abbrev pub pte_ppn_mask : ℕ
pte_ppn_mask = 0x3f_ffff_ffff_fc00

abbrev pub ppn_mask : ℕ
ppn_mask = 0xff_ffff_ffff_f000

-- `contains` and `from_bits_truncate` of the bitflags crate; bits 0 to 7 are declared.
unfoldable pub contains : ℕ → ℕ → Bool
contains attr other = bit_and attr other == other

unfoldable pub from_bits_truncate : ℕ → ℕ
from_bits_truncate bits = bit_and bits (2 ^ 8 - 1)

-- `From<DescriptorAttr> for MemFlags`
unfoldable pub to_mem_flags : ℕ → ℕ
unfolding contains
to_mem_flags attr =
    if not (contains attr valid)
    then 0
    else let flags : ℕ = 0 in
      let flags = if contains attr readable then bit_or flags Flags.read else flags in
      let flags = if contains attr writable then bit_or flags Flags.write else flags in
      let flags = if contains attr executable then bit_or flags Flags.execute else flags in
      if contains attr user then bit_or flags Flags.user else flags

-- `From<MemFlags> for DescriptorAttr`, from the attributes that are always set.
unfoldable pub from_mem_flags : ℕ → ℕ → ℕ
from_mem_flags always flags =
    let attr = always in
    let attr = if Flags.contains flags Flags.read then bit_or attr readable else attr in
    let attr = if Flags.contains flags Flags.write then bit_or attr writable else attr in
    let attr = if Flags.contains flags Flags.execute then bit_or attr executable else attr in
    if Flags.contains flags Flags.user then bit_or attr user else attr

unfoldable pub addr : ℕ → ℕ
addr e = bit_and e pte_ppn_mask * 2 ^ 2

unfoldable pub flags : ℕ → ℕ
unfolding from_bits_truncate to_mem_flags
flags e = to_mem_flags (from_bits_truncate e)

unfoldable pub is_unused : ℕ → Bool
is_unused e = e == 0

unfoldable pub is_present : ℕ → Bool
unfolding from_bits_truncate contains
is_present e = contains (from_bits_truncate e) valid

unfoldable pub is_huge : ℕ → Bool
unfolding from_bits_truncate contains
is_huge e =
    contains (from_bits_truncate e) readable
    || contains (from_bits_truncate e) writable
    || contains (from_bits_truncate e) executable

-- `get_bits(0..7)` are the bits below bit 7.
unfoldable pub set_addr : ℕ → ℕ → ℕ
set_addr paddr e = bit_or (e % 2 ^ 7) (bit_and paddr ppn_mask / 2 ^ 2)

-- The attributes `attr` with the page number of `e`.
abbrev pub with_attr : ℕ → ℕ → ℕ
with_attr attr e = bit_or (bit_and attr (bit_not 64 pte_ppn_mask)) (bit_and e pte_ppn_mask)

unfoldable pub set_flags : ℕ → ℕ → ℕ → ℕ
unfolding from_mem_flags bit_not
set_flags always flags e = with_attr (from_mem_flags always flags) e

unfoldable pub set_table : ℕ → ℕ → ℕ
unfolding set_addr bit_not
set_table paddr e = with_attr valid (set_addr paddr e)

unfoldable pub clear : ℕ → ℕ
clear e = 0
