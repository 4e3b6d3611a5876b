-- ===== src/Paging/Stage1.antt =====
-- The entries of stage 1 page tables: src/arch/aarch64/s1pt.rs.
pub mod DescriptorAttr
use sys_hyper.Base.{
  ℕ, suc, ◌+◌, ◌*◌, ◌/◌, ◌%◌, ◌^◌, ◌<◌, ◌≡◌, refl, sym, ◌∙◌, ap, Bool, true, false, not, ◌&&◌, ◌==◌,
  Bool-cases, inl, inr, if◌then◌else◌, Option, some, none, bit_and, bit_or, arith,
}
use sys_hyper.Base.Bits.{bit_not}
use sys_hyper.Base.Bits.Mask.{bit_and-low_mask}
use sys_hyper.Memory.Flags
use sys_hyper.Paging.Pte.{GenericPte, IsFrame}
use sys_hyper.Paging.Entry.{
  phys_addr_mask, bit_and-phys_addr_mask, frame_field, bit_and-replaced, attributes_with_address,
}
use DescriptorAttr.{
  MemType, from_bits_truncate, from_mem_type, to_mem_flags, from_mem_flags, flags_mem_type,
}

unfoldable pub addr : ℕ → ℕ
addr e = bit_and e phys_addr_mask

unfoldable pub flags : ℕ → Option ℕ
unfolding from_bits_truncate to_mem_flags
flags e = to_mem_flags (from_bits_truncate e)

unfoldable pub is_unused : ℕ → Bool
is_unused e = e == 0

unfoldable pub is_present : ℕ → Bool
unfolding from_bits_truncate DescriptorAttr.contains
is_present e = DescriptorAttr.contains (from_bits_truncate e) DescriptorAttr.valid

unfoldable pub is_huge : ℕ → Bool
unfolding from_bits_truncate DescriptorAttr.contains
is_huge e = not (DescriptorAttr.contains (from_bits_truncate e) DescriptorAttr.non_block)

unfoldable pub set_addr : ℕ → ℕ → ℕ
set_addr paddr e = bit_or (bit_and e (bit_not 64 phys_addr_mask)) (bit_and paddr phys_addr_mask)

unfoldable pub set_flags_and_mem_type : ℕ → MemType → ℕ → ℕ
unfolding from_mem_type
set_flags_and_mem_type flags m e =
    let attr = bit_or flags (from_mem_type m) in
    bit_or (bit_and attr (bit_not 64 phys_addr_mask)) (bit_and e phys_addr_mask)

unfoldable pub set_flags : ℕ → Bool → ℕ → ℕ
unfolding from_mem_flags flags_mem_type set_flags_and_mem_type
set_flags flags huge e =
    let m = flags_mem_type flags in
    let attr = from_mem_flags flags in
    let attr = if not huge then bit_or attr DescriptorAttr.non_block else attr in
    set_flags_and_mem_type attr m e

unfoldable pub set_table : ℕ → ℕ → ℕ
unfolding set_addr set_flags_and_mem_type
set_table paddr e =
    set_flags_and_mem_type (bit_or DescriptorAttr.valid DescriptorAttr.non_block) MemType.normal
      (set_addr paddr e)

unfoldable pub clear : ℕ → ℕ
clear e = 0

-- READ, WRITE and IO come back from an entry; EXECUTE and the others do not.
unfoldable pub kept_flags : ℕ → ℕ
kept_flags f =
    (if Flags.contains f Flags.read then Flags.read else 0)
    + (if Flags.contains f Flags.write then Flags.write else 0)
    + (if Flags.contains f Flags.io then Flags.io else 0)

abbrev contains_valid : ℕ → Bool
contains_valid a = DescriptorAttr.contains a DescriptorAttr.valid

abbrev contains_non_block : ℕ → Bool
contains_non_block a = DescriptorAttr.contains a DescriptorAttr.non_block

-- An entry with the attributes `a` and the address bits of `x`.
module _ (x a : ℕ) (lt : a < 2 ^ 12) where
  abbrev entry : ℕ
  entry = bit_or a (bit_and x phys_addr_mask)

  entry-fields : entry ≡ x / 2 ^ 12 % 2 ^ 36 * 2 ^ 12 + a
  entry-fields = attributes_with_address a x (omega arith)

  entry-attributes : from_bits_truncate entry ≡ a
  unfolding from_bits_truncate
  entry-attributes = bit_and-low_mask 12 entry ∙ rw entry-fields (omega arith)

  entry-addr : addr entry ≡ bit_and x phys_addr_mask
  unfolding addr
  entry-addr =
      bit_and-phys_addr_mask entry ∙ rw (entry-fields, bit_and-phys_addr_mask x) (omega arith)

  entry-is_unused : 0 < a → is_unused entry ≡ false
  unfolding is_unused
  entry-is_unused h = rw entry-fields (ground arith)

-- The attributes that `set_flags` writes, by the flags in it.
abbrev leaf_attributes : Bool → Bool → Bool → Bool → ℕ
leaf_attributes i r w huge =
    let attr = bit_or (if i then 0x4 else 0x300) 0x401 in
    let attr = if r then bit_or attr 0x40 else attr in
    let attr = if not w then bit_or attr 0x80 else attr in
    let attr = if not huge then bit_or attr 2 else attr in bit_or attr (if i then 0x4 else 0x300)

set_flags-entry :
    (f : ℕ) (huge : Bool) (e : ℕ)
    → set_flags f huge e
      ≡ bit_or
          (leaf_attributes
            (Flags.contains f Flags.io)
            (Flags.contains f Flags.read)
            (Flags.contains f Flags.write)
            huge)
          (bit_and e phys_addr_mask)
unfolding set_flags set_flags_and_mem_type from_mem_flags flags_mem_type from_mem_type
    phys_addr_mask bit_not from_bits_truncate
set_flags-entry f huge e = ground arith

-- What a leaf's attributes say, for all flags.
record LeafAttributes (i r w huge : Bool) (a : ℕ) : Type 0 where
  small : a < 2 ^ 12
  used : 0 < a
  present : contains_valid a ≡ true
  block : not (contains_non_block a) ≡ huge
  back : to_mem_flags a ≡ some ((if r then 1 else 0) + (if w then 2 else 0) + (if i then 16 else 0))

leaf_attributes-LeafAttributes :
    (i r w huge : Bool) → LeafAttributes i r w huge (leaf_attributes i r w huge)
unfolding to_mem_flags DescriptorAttr.contains DescriptorAttr.mem_type DescriptorAttr.add_io
leaf_attributes-LeafAttributes i r w huge = record {
  small = ground arith;
  used = ground arith;
  present = ground arith;
  block = ground arith;
  back = ground arith;
}

module _ (p e a : ℕ) (d : IsFrame p) (lt : a < 2 ^ 12) where
  abbrev placed : ℕ
  placed = bit_or a (bit_and (set_addr p e) phys_addr_mask)

  placed-addr : addr placed ≡ p
  unfolding set_addr
  placed-addr = entry-addr (set_addr p e) a lt ∙ bit_and-replaced e p ∙ frame_field p d

  placed-is_present : is_present placed ≡ contains_valid a
  unfolding is_present
  placed-is_present = rw (entry-attributes (set_addr p e) a lt) refl

  placed-is_huge : is_huge placed ≡ not (contains_non_block a)
  unfolding is_huge
  placed-is_huge = rw (entry-attributes (set_addr p e) a lt) refl

  placed-flags : flags placed ≡ to_mem_flags a
  unfolding flags
  placed-flags = rw (entry-attributes (set_addr p e) a lt) refl

-- After `set_addr` and `set_flags` at a frame address below 2^48, whatever the entry was: it is used
-- and present, it is huge as asked, its address reads back, and so do the flags READ, WRITE and IO,
-- without a panic, and no other flag.
pub stage1_set_flags-set_addr :
    (p f : ℕ) (huge : Bool) (e : ℕ)
    → IsFrame p
    → let w = set_flags f huge (set_addr p e) in
      (is_unused w ≡ false)
      × (is_present w ≡ true)
      × (is_huge w ≡ huge)
      × (addr w ≡ p)
      × (flags w ≡ some (kept_flags f))
unfolding kept_flags
stage1_set_flags-set_addr p f huge e d =
    let i = Flags.contains f Flags.io in
    let r = Flags.contains f Flags.read in
    let w = Flags.contains f Flags.write in
    let h = leaf_attributes-LeafAttributes i r w huge in
    rw (set_flags-entry f huge (set_addr p e)) (
      entry-is_unused (set_addr p e) _ h.small h.used,
      placed-is_present p e _ d h.small ∙ h.present,
      placed-is_huge p e _ d h.small ∙ h.block,
      placed-addr p e _ d h.small,
      placed-flags p e _ d h.small ∙ h.back,
    )

set_table-placed : (p e : ℕ) → set_table p e ≡ bit_or 0x303 (bit_and (set_addr p e) phys_addr_mask)
unfolding set_table set_flags_and_mem_type from_mem_type from_bits_truncate phys_addr_mask bit_not
set_table-placed p e = refl

pub set_table_lem :
    (p e : ℕ)
    → IsFrame p
    → let w = set_table p e in
      (is_unused w ≡ false) × (is_present w ≡ true) × (is_huge w ≡ false) × (addr w ≡ p)
unfolding DescriptorAttr.contains
set_table_lem p e d =
    let lt : 0x303 < 2 ^ 12 = omega arith in
    rw (set_table-placed p e) (
      entry-is_unused (set_addr p e) 0x303 lt (omega arith),
      placed-is_present p e 0x303 d lt,
      placed-is_huge p e 0x303 d lt,
      placed-addr p e 0x303 d lt,
    )

pub unused_absent : (e : ℕ) → is_unused e ≡ true → is_present e ≡ false
unfolding is_unused is_present from_bits_truncate DescriptorAttr.contains
unused_absent e h = let z : e ≡ 0 = ground arith in rw z refl

unfoldable pub stage1_pte : GenericPte
unfolding is_unused clear
stage1_pte = record {
  addr = addr;
  flags = flags;
  is_unused = is_unused;
  is_present = is_present;
  is_huge = is_huge;
  set_addr = set_addr;
  set_flags = set_flags;
  set_table = set_table;
  clear = clear;
  kept_flags = kept_flags;
  zero-unused = refl;
  clear-unused = λ e. refl;
  unused_absent = unused_absent;
  set_table_lem = set_table_lem;
  set_leaf_lem = stage1_set_flags-set_addr;
}
