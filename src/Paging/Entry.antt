-- ===== src/Paging/Entry.antt =====
-- The address field of an entry (`PHYS_ADDR_MASK` of src/arch/aarch64/s1pt.rs and s2pt.rs), and how
-- the masks of `set_addr` and `set_flags_and_mem_type` act on it.
use sys_hyper.Base.{
  ℕ, ◌+◌, ◌-◌, ◌*◌, ◌/◌, ◌%◌, ◌^◌, ◌<◌, ◌≡◌, refl, sym, ◌∙◌, ap, Bool, true, false, not, ◌&&◌, ◌||◌,
  ltb, ltb→lt, Bool-cases, inl, inr, bit_and, bit_or, arith,
}
use sys_hyper.Base.Bits.{
  test_bit, bit_not, test_bit-bit_and, test_bit-bit_or, test_bit-bit_not, test_bit_above,
  eq_of_test_bit, bit_or-lt,
}
use sys_hyper.Base.Bits.Mask.{bit_and-low_mask, bit_and-shift, bit_or_fields}
use sys_hyper.Paging.Pte.{IsFrame}

unfoldable pub phys_addr_mask : ℕ
unfolding bit_not
phys_addr_mask = bit_and 0xffffffffffff (bit_not 64 (0x1000 - 1))

-- The address bits of a word.
pub bit_and-phys_addr_mask : (e : ℕ) → bit_and e phys_addr_mask ≡ e / 2 ^ 12 % 2 ^ 36 * 2 ^ 12
unfolding phys_addr_mask
bit_and-phys_addr_mask e =
    bit_and-shift 12 e (2 ^ 36 - 1) ∙ ap (λ (t : ℕ). t * 2 ^ 12) (bit_and-low_mask 36 (e / 2 ^ 12))

pub frame_field : (p : ℕ) → IsFrame p → bit_and p phys_addr_mask ≡ p
frame_field p (d, lt) = bit_and-phys_addr_mask p ∙ omega arith

field_bit : (a b m n : Bool) → n ≡ not m → ((a && n || b && m) && m) ≡ (b && m)
field_bit a b true n h = rw h (ground arith)
field_bit a b false n h = ground arith

phys_addr_mask-lt : phys_addr_mask < 2 ^ 64
unfolding phys_addr_mask
phys_addr_mask-lt = omega arith

field-lt : (e : ℕ) → bit_and e phys_addr_mask < 2 ^ 64
field-lt e = rw (bit_and-phys_addr_mask e) (omega arith)

-- The address bits of a word whose address field was replaced.
pub bit_and-replaced :
    (e p : ℕ)
    → bit_and
        (bit_or (bit_and e (bit_not 64 phys_addr_mask)) (bit_and p phys_addr_mask))
        phys_addr_mask
      ≡ bit_and p phys_addr_mask
bit_and-replaced e p = eq_of_test_bit 64 _ _ (field-lt _) (field-lt p) (λ i. bits i)
  where
    m : ℕ
    m = phys_addr_mask

    expand :
        (i : ℕ)
        → test_bit (bit_and (bit_or (bit_and e (bit_not 64 m)) (bit_and p m)) m) i ≡ (
            (test_bit e i && test_bit (bit_not 64 m) i || test_bit p i && test_bit m i)
            && test_bit m i)
    expand i =
        test_bit-bit_and _ m i
        ∙ rw
            (
              test_bit-bit_or (bit_and e (bit_not 64 m)) (bit_and p m) i,
              test_bit-bit_and e (bit_not 64 m) i,
              test_bit-bit_and p m i,
            )
            refl

    bits :
        (i : ℕ)
        → test_bit (bit_and (bit_or (bit_and e (bit_not 64 m)) (bit_and p m)) m) i
          ≡ test_bit (bit_and p m) i
    bits i = expand i ∙ (elim (Bool-cases (ltb i 64)) [
      | inl lt ↦
          field_bit _ _ (test_bit m i) _
            (test_bit-bit_not 64 m i phys_addr_mask-lt (ltb→lt i 64 lt))
          ∙ sym (test_bit-bit_and p m i)
      | inr le ↦
          let z = test_bit_above m 64 i phys_addr_mask-lt (ground arith) in
          rw (z, test_bit-bit_and p m i, z) (ground arith)
    ])

pub bit_or_comm : (w x y : ℕ) → x < 2 ^ w → y < 2 ^ w → bit_or x y ≡ bit_or y x
bit_or_comm w x y h g =
    eq_of_test_bit w _ _ (bit_or-lt w x y h g) (bit_or-lt w y x g h)
      (λ i. test_bit-bit_or x y i ∙ ground arith ∙ sym (test_bit-bit_or y x i))

-- An entry from attributes, in the bits below the address, and the address of another entry.
pub attributes_with_address :
    (a e : ℕ) → a < 2 ^ 12 → bit_or a (bit_and e phys_addr_mask) ≡ e / 2 ^ 12 % 2 ^ 36 * 2 ^ 12 + a
attributes_with_address a e lt =
    bit_or_comm 64 a (bit_and e phys_addr_mask) (omega arith) (field-lt e)
    ∙ rw (bit_and-phys_addr_mask e) (bit_or_fields 12 (e / 2 ^ 12 % 2 ^ 36) a lt)
