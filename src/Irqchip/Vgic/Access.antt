-- ===== src/Irqchip/Vgic/Access.antt =====
-- What `restrict_bitmask_access` of src/device/irqchip/gicv3/vgic.rs lets through.
use sys_hyper.Base.{
  ℕ, zero, suc, ◌+◌, ◌-◌, ◌*◌, ◌/◌, ◌%◌, ◌^◌, ◌<◌, ◌≤◌, ◌≡◌, refl, sym, ◌∙◌, Bool, true, false,
  ◌&&◌, ◌||◌, leb, ltb, if◌then◌else◌, Bool-cases, inl, inr, ◌⊎◌, Option, none, some, List, length,
  bit_and, bit_or, arith, lt→ltb,
}
use sys_hyper.Base.Bits.{
  test_bit, bit_not, test_bit-bit_or, test_bit-bit_and, test_bit-bit_not, test_bit-zero,
}
use sys_hyper.Base.Bits.Shift.{test_bit-shift, test_bit-ones, lt_of_test_bit}
use sys_hyper.Base.Run.{Run, ok, err, panic, hang}
use sys_hyper.Error.{HvErrorNum}
use sys_hyper.Memory.Mmio.{Bus, MmioAccess, is_access_size, mmio_perform_access}
use sys_hyper.Irqchip.Vgic.Bitmap.{mask_loop, access_mask, owns, irq_in_zone-owns}
use sys_hyper.Irqchip.Vgic.{restrict_bitmask_access, masked_access, masked_read, masked_modify}

-- The numbers of bits for an interrupt that the registers have.
abbrev pub IsField : ℕ → Type 0
IsField bits = (bits ≡ 1) ⊎ (bits ≡ 2) ⊎ (bits ≡ 8)

-- Bit i of register `reg_index` belongs to an interrupt of the zone.
abbrev pub mine : List ℕ → ℕ → ℕ → ℕ → Bool
mine b reg_index bits i = ltb i 32 && owns b (reg_index * (32 / bits) + i / bits)

module _ (b : List ℕ) (l : length b ≡ 32) where
  abbrev Masks : ℕ → ℕ → ℕ → ℕ → ℕ → Option ℕ → Type 0
  Masks bits first irq n mask none = ⊥
  Masks bits first irq n mask (some m) =
      (i : ℕ)
      → test_bit m i ≡ (
          test_bit mask i
          || (leb (irq * bits) i && ltb i ((irq + n) * bits) && owns b (first + i / bits)))

  quotient :
      (bits irq i : ℕ) → IsField bits → irq * bits ≤ i → i < irq * bits + bits → i / bits ≡ irq
  quotient bits irq i f le lt = elim f [
    | inl e ↦ let le' = rw e at le in let lt' = rw e at lt in rw e (omega arith)
    | inr g ↦ elim g [
      | inl e ↦ let le' = rw e at le in let lt' = rw e at lt in rw e (omega arith)
      | inr e ↦ let le' = rw e at le in let lt' = rw e at lt in rw e (omega arith)
    ]
  ]

  -- The mask after one interrupt more.
  field_bit :
      (bits first irq i : ℕ) (o : Bool) (mask : ℕ)
      → IsField bits
      → owns b (first + irq) ≡ o
      → test_bit (if o then bit_or mask ((2 ^ bits - 1) * 2 ^ (irq * bits)) else mask) i ≡ (
          test_bit mask i
          || (leb (irq * bits) i && ltb i (irq * bits + bits) && owns b (first + i / bits)))
  field_bit bits first irq i o mask f h =
      elim (Bool-cases (leb (irq * bits) i && ltb i (irq * bits + bits))) [
        | inl inside ↦
            let q : i / bits ≡ irq = quotient bits irq i f (ground arith) (ground arith) in
            rw (inside, q, h) (with_bit o inside)
        | inr outside ↦ rw outside (without_bit o outside)
      ]
    where
      bits_of :
          test_bit (bit_or mask ((2 ^ bits - 1) * 2 ^ (irq * bits))) i
          ≡ (test_bit mask i || (leb (irq * bits) i && ltb (i - irq * bits) bits))
      bits_of =
          test_bit-bit_or mask ((2 ^ bits - 1) * 2 ^ (irq * bits)) i
          ∙ rw (test_bit-shift (irq * bits) (2 ^ bits - 1) i, test_bit-ones bits (i - irq * bits))
              refl

      with_bit :
          (o : Bool)
          → (leb (irq * bits) i && ltb i (irq * bits + bits)) ≡ true
          → test_bit (if o then bit_or mask ((2 ^ bits - 1) * 2 ^ (irq * bits)) else mask) i
            ≡ (test_bit mask i || (true && o))
      with_bit true inside = bits_of ∙ ground arith
      with_bit false inside = ground arith

      without_bit :
          (o : Bool)
          → (leb (irq * bits) i && ltb i (irq * bits + bits)) ≡ false
          → test_bit (if o then bit_or mask ((2 ^ bits - 1) * 2 ^ (irq * bits)) else mask) i
            ≡ (test_bit mask i || (false && owns b (first + i / bits)))
      without_bit true outside = bits_of ∙ ground arith
      without_bit false outside = ground arith

  extend :
      (bits first irq n mask mask' : ℕ) (r : Option ℕ)
      → ((i : ℕ)
          → test_bit mask' i ≡ (
              test_bit mask i
              || (leb (irq * bits) i && ltb i (irq * bits + bits) && owns b (first + i / bits))))
      → Masks bits first (irq + 1) n mask' r
      → Masks bits first irq (suc n) mask r
  extend bits first irq n mask mask' none step h = h
  extend bits first irq n mask mask' (some m) step h = λ i.
      let a : (irq + 1) * bits ≡ irq * bits + bits = omega arith in
      let c : (irq + 1 + n) * bits ≡ irq * bits + bits + n * bits = omega arith in
      let d : (irq + suc n) * bits ≡ irq * bits + bits + n * bits = omega arith in
      h i ∙ rw (step i, a, c, d) (ground arith)

  mask_loop-Masks :
      (n bits first irq mask : ℕ)
      → IsField bits
      → first + irq + n ≤ 1024
      → Masks bits first irq n mask (mask_loop b bits first irq n mask)
  unfolding mask_loop
  mask_loop-Masks zero bits first irq mask f le =
      λ i. let z : irq + 0 ≡ irq = omega arith in rw z (ground arith)
  mask_loop-Masks (suc n) bits first irq mask f le =
      let small : (first + irq) % 2 ^ 32 ≡ first + irq = omega arith in
      rw (small, irq_in_zone-owns b (first + irq) l (omega arith))
        (extend bits first irq n mask _ _
          (λ i. field_bit bits first irq i (owns b (first + irq)) mask f refl)
          (mask_loop-Masks n bits first (irq + 1) _ f (omega arith)))

  abbrev Mines : ℕ → ℕ → Option ℕ → Type 0
  Mines bits reg_index none = ⊥
  Mines bits reg_index (some m) = (m < 2 ^ 64) × ((i : ℕ) → test_bit m i ≡ mine b reg_index bits i)

  whole :
      (bits i : ℕ) → IsField bits → (leb (0 * bits) i && ltb i ((0 + 32 / bits) * bits)) ≡ ltb i 32
  whole bits i f = elim f [
    | inl e ↦ rw e (ground arith)
    | inr g ↦ elim g [ inl e ↦ rw e (ground arith) | inr e ↦ rw e (ground arith) ]
  ]

  Masks-Mines :
      (bits reg_index : ℕ) (r : Option ℕ)
      → IsField bits
      → Masks bits (reg_index * (32 / bits)) 0 (32 / bits) 0 r
      → Mines bits reg_index r
  Masks-Mines bits reg_index none f h = h
  Masks-Mines bits reg_index (some m) f h =
      let eq : (i : ℕ) → test_bit m i ≡ mine b reg_index bits i =
        λ i. h i ∙ rw (test_bit-zero i, whole bits i f) refl in
      let low = lt_of_test_bit 32 m (λ i le. eq i ∙ ground arith) in (omega arith, eq)

  pub access_mask-Mines :
      (bits reg_index : ℕ)
      → IsField bits
      → (reg_index + 1) * (32 / bits) ≤ 1024
      → Mines bits reg_index (access_mask b reg_index bits)
  unfolding access_mask
  access_mask-Mines bits reg_index f le =
      Masks-Mines bits reg_index _ f
        (mask_loop-Masks (32 / bits) bits (reg_index * (32 / bits)) 0 0 f (omega arith))

-- Bit i of an access at `address` to the registers that begin at `first`, with `bits` bits for each
-- interrupt: in the first 32 bits it is for an interrupt of the zone.
abbrev pub own_bit : List ℕ → ℕ → ℕ → ℕ → ℕ → Bool
own_bit b bits first address i =
    let interrupt = ((address - first) * 8 + i) / bits in ltb i 32 && owns b interrupt

own_bit-mine :
    (b : List ℕ) (bits first reg_index address i : ℕ)
    → IsField bits
    → address ≡ first + 4 * reg_index
    → own_bit b bits first address i ≡ mine b reg_index bits i
own_bit-mine b bits first reg_index address i f e =
    let same : ((address - first) * 8 + i) / bits ≡ reg_index * (32 / bits) + i / bits = elim f [
      | inl q ↦ rw q (omega arith)
      | inr g ↦ elim g [ inl q ↦ rw q (omega arith) | inr q ↦ rw q (omega arith) ]
    ] in
    rw same refl

module _ {Device : Type 0} (B : Bus Device) (b : List ℕ) (base bits first : ℕ) (mmio : MmioAccess)
    (d : Device) where
  abbrev addr : ℕ
  addr = base + mmio.address

  -- The register before the access, and the device after it was read.
  abbrev old : ℕ
  old = (B.read addr mmio.size d).0

  abbrev device_read : Device
  device_read = (B.read addr mmio.size d).1

  abbrev written : ℕ → Device → Device
  written w = B.write addr mmio.size (w % 2 ^ (8 * mmio.size))

  abbrev Reads : MmioAccess → Device → Type 0
  Reads r d' =
      (d' ≡ device_read)
      × ((i : ℕ) → test_bit r.value i ≡ (own_bit b bits first mmio.address i && test_bit old i))

  abbrev Modifies : Device → Type 0
  Modifies d' =
      (w : ℕ) × (d' ≡ written w device_read)
      × ((i : ℕ)
          → i < 64
          → test_bit w i ≡ (
              if own_bit b bits first mmio.address i
              then test_bit mmio.value i
              else test_bit old i))

  abbrev Pokes : Device → Type 0
  Pokes d' =
      (w : ℕ) × (d' ≡ written w d)
      × ((i : ℕ) → test_bit w i ≡ (own_bit b bits first mmio.address i && test_bit mmio.value i))

  -- What a zone's access to a register comes to, bit by bit: a read shows its own bits, and zeros for
  -- the others; a write of its own bits keeps the others, or, for a register whose set bits alone
  -- count (`is_poke`), has zeros there.
  abbrev pub Restricts : Bool → Run HvErrorNum Device MmioAccess → Type 0
  Restricts is_poke (ok r d') =
      if mmio.is_write then if is_poke then Pokes d' else Modifies d' else Reads r d'
  Restricts is_poke (err e d') = ⊥
  Restricts is_poke panic = ⊥
  Restricts is_poke hang = ⊥

  modified :
      (m : ℕ)
      → m < 2 ^ 64
      → ((i : ℕ) → test_bit m i ≡ own_bit b bits first mmio.address i)
      → (i : ℕ) → i < 64
      → test_bit (bit_or (bit_and old (bit_not 64 m)) (bit_and mmio.value m)) i
        ≡ (if own_bit b bits first mmio.address i then test_bit mmio.value i else test_bit old i)
  modified m lt eq i small =
      test_bit-bit_or (bit_and old (bit_not 64 m)) (bit_and mmio.value m) i
      ∙ rw
          (
            test_bit-bit_and old (bit_not 64 m) i,
            test_bit-bit_and mmio.value m i,
            test_bit-bit_not 64 m i lt small,
            eq i,
          )
          (ground arith)

  masked-Restricts :
      (is_poke : Bool) (m : ℕ)
      → base + mmio.address < 2 ^ 64
      → is_access_size mmio.size ≡ true
      → m < 2 ^ 64
      → ((i : ℕ) → test_bit m i ≡ own_bit b bits first mmio.address i)
      → Restricts is_poke (masked_access B m is_poke base mmio d)
  unfolding masked_access masked_read masked_modify mmio_perform_access
  masked-Restricts is_poke m fits size lt eq = elim (Bool-cases (mmio.is_write)) [
    | inr reads ↦
        rw (reads, lt→ltb (base + mmio.address) (2 ^ 64) fits, size)
          (refl, λ i. test_bit-bit_and old m i ∙ rw (eq i) (ground arith))
    | inl writes ↦ elim (Bool-cases is_poke) [
      | inl poke ↦
          rw (writes, poke, lt→ltb (base + mmio.address) (2 ^ 64) fits, size)
            (
              bit_and mmio.value m,
              refl,
              λ i. test_bit-bit_and mmio.value m i ∙ rw (eq i) (ground arith),
            )
      | inr modify ↦
          rw
            (
              writes,
              modify,
              lt→ltb (base + mmio.address) (2 ^ 64) fits,
              size,
              lt→ltb (base + mmio.address) (2 ^ 64) fits,
              size,
            )
            (
              bit_or (bit_and old (bit_not 64 m)) (bit_and mmio.value m),
              refl,
              λ i small. modified m lt eq i small,
            )
    ]
  ]

  unmasked :
      (l : length b ≡ 32) (is_poke : Bool) (reg_index : ℕ) (r : Option ℕ)
      → IsField bits
      → mmio.address ≡ first + 4 * reg_index
      → access_mask b reg_index bits ≡ r
      → base + mmio.address < 2 ^ 64
      → is_access_size mmio.size ≡ true
      → Mines b l bits reg_index r
      → Restricts is_poke (restrict_bitmask_access B b mmio reg_index bits is_poke base d)
  unfolding restrict_bitmask_access
  unmasked l is_poke reg_index none f a e fits size h = absurd h
  unmasked l is_poke reg_index (some m) f a e fits size (lt, eq) = rw e (
      masked-Restricts is_poke m fits size lt
        (λ i. eq i ∙ sym (own_bit-mine b bits first reg_index mmio.address i f a)))

  -- For a bitmap of 32 words, registers of 32 bits with 1, 2 or 8 bits for each interrupt, the
  -- register number `reg_index` with all of its interrupts below 1024, and an access of 1, 2, 4 or 8
  -- bytes that begins where that register does, at an address below 2^64:
  -- `restrict_bitmask_access` does not panic, and the device is accessed once to read, and once to
  -- write. The bits of the access that are for an interrupt of the zone are those of the register's
  -- interrupts that the zone has; the bits behind the register count as others. A read returns the
  -- zone's bits and zeros. A write of `is_poke` has the access's bits for the zone's and zeros.
  -- Another write has the access's bits for the zone's, and for all others the bits that it has just
  -- read.
  pub restrict_bitmask_access-Restricts :
      (reg_index : ℕ) (is_poke : Bool)
      → mmio.address ≡ first + 4 * reg_index
      → length b ≡ 32
      → IsField bits
      → (reg_index + 1) * (32 / bits) ≤ 1024
      → base + mmio.address < 2 ^ 64
      → is_access_size mmio.size ≡ true
      → Restricts is_poke (restrict_bitmask_access B b mmio reg_index bits is_poke base d)
  restrict_bitmask_access-Restricts reg_index is_poke a l f le fits size =
      unmasked l is_poke reg_index (access_mask b reg_index bits) f a refl fits size
        (access_mask-Mines b l bits reg_index f le)
