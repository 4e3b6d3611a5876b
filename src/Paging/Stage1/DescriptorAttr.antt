-- ===== src/Paging/Stage1/DescriptorAttr.antt =====
-- `DescriptorAttr` and `MemType` of src/arch/aarch64/s1pt.rs: the attribute bits of an entry, with
-- `contains` and `from_bits_truncate` of the bitflags crate.
use sys_hyper.Base.{
  ℕ, ◌*◌, ◌-◌, ◌/◌, ◌^◌, Bool, not, ◌&&◌, ◌==◌, if◌then◌else◌, Option, some, none, bit_and, bit_or,
}
use sys_hyper.Memory.Flags

abbrev pub valid : ℕ
valid = 2 ^ 0

abbrev pub non_block : ℕ
non_block = 2 ^ 1

abbrev pub ap_el0 : ℕ
ap_el0 = 2 ^ 6

abbrev pub ap_ro : ℕ
ap_ro = 2 ^ 7

abbrev pub inner : ℕ
inner = 2 ^ 8

abbrev pub shareable : ℕ
shareable = 2 ^ 9

abbrev pub af : ℕ
af = 2 ^ 10

abbrev ns : ℕ
ns = 2 ^ 5

abbrev ng : ℕ
ng = 2 ^ 11

abbrev attr_index_mask : ℕ
attr_index_mask = 0b111 * 2 ^ 2

-- All bits that are declared.
abbrev all_bits : ℕ
all_bits = 2 ^ 12 - 1

unfoldable pub contains : ℕ → ℕ → Bool
contains attr other = bit_and attr other == other

unfoldable pub from_bits_truncate : ℕ → ℕ
from_bits_truncate bits = bit_and bits all_bits

pub data MemType : Type 0 where
  normal device : MemType

abbrev mem_type_number : MemType → ℕ
mem_type_number MemType.normal = 0
mem_type_number MemType.device = 1

unfoldable pub from_mem_type : MemType → ℕ
unfolding from_bits_truncate
from_mem_type MemType.device = from_bits_truncate (mem_type_number MemType.device * 2 ^ 2)
from_mem_type MemType.normal =
    from_bits_truncate (bit_or (mem_type_number MemType.normal * 2 ^ 2) (bit_or inner shareable))

-- `none` is a panic.
unfoldable pub mem_type : ℕ → Option MemType
mem_type attr =
    let idx = bit_and attr attr_index_mask / 2 ^ 2 in
    if idx == 0 then some MemType.normal else if idx == 1 then some MemType.device else none

-- The end of `From<DescriptorAttr> for MemFlags`.
unfoldable pub add_io : ℕ → Option MemType → Option ℕ
add_io flags none = none
add_io flags (some MemType.device) = some (bit_or flags Flags.io)
add_io flags (some MemType.normal) = some flags

-- `From<DescriptorAttr> for MemFlags`
unfoldable pub to_mem_flags : ℕ → Option ℕ
unfolding contains mem_type add_io
to_mem_flags attr =
    let flags = if contains attr valid && contains attr ap_el0 then bit_or 0 Flags.read else 0 in
    let flags = if not (contains attr ap_ro) then bit_or flags Flags.write else flags in
    add_io flags (mem_type attr)

-- The memory type that flags ask for.
unfoldable pub flags_mem_type : ℕ → MemType
flags_mem_type flags = if Flags.contains flags Flags.io then MemType.device else MemType.normal

-- `From<MemFlags> for DescriptorAttr`
unfoldable pub from_mem_flags : ℕ → ℕ
unfolding from_mem_type
from_mem_flags flags =
    let attr =
      if Flags.contains flags Flags.io
      then from_mem_type MemType.device
      else from_mem_type MemType.normal in
    let attr = bit_or attr (bit_or valid af) in
    let attr = if Flags.contains flags Flags.read then bit_or attr ap_el0 else attr in
    if not (Flags.contains flags Flags.write) then bit_or attr ap_ro else attr
