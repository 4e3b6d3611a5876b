-- ===== src/Riscv/RoundTrip.antt =====
-- What the entries of src/arch/riscv64/s1pt.rs and s2pt.rs read back as.
use sys_hyper.Base.{
  ℕ, ◌+◌, ◌-◌, ◌*◌, ◌/◌, ◌%◌, ◌^◌, ◌<◌, ◌≡◌, refl, ◌∙◌, ap, Bool, true, false, ◌||◌, if◌then◌else◌,
  bit_and, bit_or, arith,
}
use sys_hyper.Base.Bits.{bit_not}
use sys_hyper.Base.Bits.Mask.{bit_and-low_mask, bit_and-shift, bit_or_fields}
use sys_hyper.Memory.Flags
use sys_hyper.Paging.Entry.{bit_or_comm}
use sys_hyper.Riscv.Entry.{
  valid, readable, writable, executable, user, pte_ppn_mask, ppn_mask, contains, from_bits_truncate,
  to_mem_flags, from_mem_flags, addr, flags, is_unused, is_present, is_huge, set_addr, set_flags,
  set_table,
}
use sys_hyper.Riscv.Stage1
use sys_hyper.Riscv.Stage2

-- The addresses that an entry can hold: a page number of 44 bits.
abbrev pub IsFrame : ℕ → Type 0
IsFrame p = (p % 0x1000 ≡ 0) × (p < 2 ^ 56)

bit_and-pte_ppn_mask : (x : ℕ) → bit_and x pte_ppn_mask ≡ x / 2 ^ 10 % 2 ^ 44 * 2 ^ 10
bit_and-pte_ppn_mask x =
    bit_and-shift 10 x (2 ^ 44 - 1) ∙ ap (λ (t : ℕ). t * 2 ^ 10) (bit_and-low_mask 44 (x / 2 ^ 10))

bit_and-ppn_mask : (x : ℕ) → bit_and x ppn_mask ≡ x / 2 ^ 12 % 2 ^ 44 * 2 ^ 12
bit_and-ppn_mask x =
    bit_and-shift 12 x (2 ^ 44 - 1) ∙ ap (λ (t : ℕ). t * 2 ^ 12) (bit_and-low_mask 44 (x / 2 ^ 12))

set_addr-fields : (p e : ℕ) → IsFrame p → set_addr p e ≡ p / 2 ^ 12 * 2 ^ 10 + e % 2 ^ 7
unfolding set_addr
set_addr-fields p e (d, lt) =
    let h : p / 2 ^ 12 % 2 ^ 44 * 2 ^ 12 / 2 ^ 2 ≡ p / 2 ^ 12 * 2 ^ 10 = omega arith in
    rw (bit_and-ppn_mask p, h)
      (bit_or_comm 64 (e % 2 ^ 7) (p / 2 ^ 12 * 2 ^ 10) (omega arith) (omega arith)
        ∙ bit_or_fields 10 (p / 2 ^ 12) (e % 2 ^ 7) (omega arith))

-- An entry with the attributes `a` and the address `p`.
module _ (p e a : ℕ) (f : IsFrame p) (lt : a < 2 ^ 8) where
  abbrev entry : ℕ
  entry = bit_or a (bit_and (set_addr p e) pte_ppn_mask)

  entry-fields : entry ≡ p / 2 ^ 12 * 2 ^ 10 + a
  entry-fields =
      let small = f.1 in
      let h : (p / 2 ^ 12 * 2 ^ 10 + e % 2 ^ 7) / 2 ^ 10 % 2 ^ 44 * 2 ^ 10 ≡ p / 2 ^ 12 * 2 ^ 10 =
        omega arith in
      rw (bit_and-pte_ppn_mask (set_addr p e), set_addr-fields p e f, h)
        (bit_or_comm 64 a (p / 2 ^ 12 * 2 ^ 10) (omega arith) (omega arith)
          ∙ bit_or_fields 10 (p / 2 ^ 12) a (omega arith))

  pub entry-attributes : from_bits_truncate entry ≡ a
  unfolding from_bits_truncate
  entry-attributes = bit_and-low_mask 8 entry ∙ rw entry-fields (omega arith)

  pub entry-addr : addr entry ≡ p
  unfolding addr
  entry-addr =
      let small = f.1 in let d = f.0 in rw (bit_and-pte_ppn_mask entry, entry-fields) (omega arith)

  pub entry-is_unused : 0 < a → is_unused entry ≡ false
  unfolding is_unused
  entry-is_unused h = rw entry-fields (ground arith)

-- The attributes that `set_flags` writes for stage 2 or stage 1, by the flags in it.
abbrev pub always : Bool → ℕ
always true = bit_or valid user
always false = valid

abbrev leaf_attributes : Bool → Bool → Bool → Bool → Bool → ℕ
leaf_attributes stage2 r w x u =
    let attr = always stage2 in
    let attr = if r then bit_or attr readable else attr in
    let attr = if w then bit_or attr writable else attr in
    let attr = if x then bit_or attr executable else attr in if u then bit_or attr user else attr

set_flags-entry :
    (stage2 : Bool) (f e : ℕ)
    → set_flags (always stage2) f e
      ≡ bit_or
          (leaf_attributes stage2
            (Flags.contains f Flags.read)
            (Flags.contains f Flags.write)
            (Flags.contains f Flags.execute)
            (Flags.contains f Flags.user))
          (bit_and e pte_ppn_mask)
unfolding set_flags from_mem_flags bit_not
set_flags-entry stage2 f e = ground arith

-- READ, WRITE, EXECUTE and USER come back from a leaf; USER always does in stage 2.
unfoldable pub kept_flags : Bool → ℕ → ℕ
kept_flags stage2 f =
    (if Flags.contains f Flags.read then Flags.read else 0)
    + (if Flags.contains f Flags.write then Flags.write else 0)
    + (if Flags.contains f Flags.execute then Flags.execute else 0)
    + (if stage2 || Flags.contains f Flags.user then Flags.user else 0)

record LeafAttributes (stage2 r w x u : Bool) (a : ℕ) : Type 0 where
  small : a < 2 ^ 8
  used : 0 < a
  present : contains a valid ≡ true
  leaf : (contains a readable || contains a writable || contains a executable) ≡ (r || w || x)
  back :
      to_mem_flags a
      ≡ (if r then 1 else 0)
        + (if w then 2 else 0)
        + (if x then 4 else 0)
        + (if stage2 || u then 512 else 0)

leaf_attributes-LeafAttributes :
    (stage2 r w x u : Bool) → LeafAttributes stage2 r w x u (leaf_attributes stage2 r w x u)
unfolding to_mem_flags contains
leaf_attributes-LeafAttributes stage2 r w x u = record {
  small = ground arith;
  used = ground arith;
  present = ground arith;
  leaf = ground arith;
  back = ground arith;
}

module _ (p e a : ℕ) (d : IsFrame p) (lt : a < 2 ^ 8) where
  abbrev placed : ℕ
  placed = bit_or a (bit_and (set_addr p e) pte_ppn_mask)

  placed-is_present : is_present placed ≡ contains a valid
  unfolding is_present
  placed-is_present = rw (entry-attributes p e a d lt) refl

  placed-is_huge :
      is_huge placed ≡ (contains a readable || contains a writable || contains a executable)
  unfolding is_huge
  placed-is_huge = rw (entry-attributes p e a d lt) refl

  placed-flags : flags placed ≡ to_mem_flags a
  unfolding flags
  placed-flags = rw (entry-attributes p e a d lt) refl

-- What an entry reads back as after `set_addr` of `p` and `set_flags` of `f`.
abbrev pub ReadsBack : Bool → ℕ → ℕ → ℕ → Type 0
ReadsBack stage2 p f w =
    (is_unused w ≡ false)
    × (is_present w ≡ true)
    × (is_huge w ≡ (
        Flags.contains f Flags.read
        || Flags.contains f Flags.write
        || Flags.contains f Flags.execute))
    × (addr w ≡ p)
    × (flags w ≡ kept_flags stage2 f)

leaf-ReadsBack :
    (stage2 : Bool) (p f e : ℕ)
    → IsFrame p
    → ReadsBack stage2 p f (set_flags (always stage2) f (set_addr p e))
unfolding kept_flags
leaf-ReadsBack stage2 p f e d =
    let r = Flags.contains f Flags.read in
    let w = Flags.contains f Flags.write in
    let x = Flags.contains f Flags.execute in
    let u = Flags.contains f Flags.user in
    let h = leaf_attributes-LeafAttributes stage2 r w x u in
    rw (set_flags-entry stage2 f (set_addr p e)) (
      entry-is_unused p e _ d h.small h.used,
      placed-is_present p e _ d h.small ∙ h.present,
      placed-is_huge p e _ d h.small ∙ h.leaf,
      entry-addr p e _ d h.small,
      placed-flags p e _ d h.small ∙ h.back,
    )

-- After `set_addr` and `set_flags` at a frame address below 2^56, whatever the entry was, in stage 1
-- and in stage 2: it is used and present, its address reads back, and so do the flags READ, WRITE,
-- EXECUTE and USER (USER always in stage 2). It is a leaf if and only if one of READ, WRITE and
-- EXECUTE is in the flags; without them it counts as a table.
pub riscv_set_flags-set_addr :
    (p f e : ℕ)
    → IsFrame p
    → ReadsBack false p f (Stage1.set_flags f (set_addr p e))
      × ReadsBack true p f (Stage2.set_flags f (set_addr p e))
unfolding Stage1.set_flags Stage2.set_flags
riscv_set_flags-set_addr p f e d = (leaf-ReadsBack false p f e d, leaf-ReadsBack true p f e d)

-- After `set_table` at a frame address below 2^56: the entry is used and present, it is no leaf, and
-- the address of the table reads back.
riscv_set_table_lem :
    (p e : ℕ)
    → IsFrame p
    → let w = set_table p e in
      (is_unused w ≡ false) × (is_present w ≡ true) × (is_huge w ≡ false) × (addr w ≡ p)
unfolding set_table contains bit_not
riscv_set_table_lem p e d =
    let lt : 1 < 2 ^ 8 = omega arith in
    (
      entry-is_unused p e 1 d lt (omega arith),
      placed-is_present p e 1 d lt,
      placed-is_huge p e 1 d lt,
      entry-addr p e 1 d lt,
    )
