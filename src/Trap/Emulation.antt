-- ===== src/Trap/Emulation.antt =====
-- What a guest's access to a device comes to (`handle_dabt` of src/arch/aarch64/trap.rs).
use sys_hyper.Base.{
  ℕ, ◌+◌, ◌-◌, ◌*◌, ◌/◌, ◌^◌, ◌<◌, ◌≤◌, ◌≡◌, refl, true, ◌==◌, ltb, if◌then◌else◌, Bool-cases, inl,
  inr, ◌⊎◌, Option, none, some, List, ◌∷◌, ◌++◌, arith,
}
use sys_hyper.Base.Bits.Mask.{bit_and-low_mask}
use sys_hyper.Base.Run.{M, Run, ok, panic, and_then, ◌>>◌}
use sys_hyper.Error.{HvErrorNum}
use sys_hyper.Machine.{Machine, MachineM, Stop}
use sys_hyper.Memory.Mmio.{MmioAccess}
use sys_hyper.Trap.Completion.{Completes, completed}
use sys_hyper.Trap.DataAbort.{
  sign_extend, expect, srt_of, size_of, is_write_of, address_of, write_back, guest_value,
  handle_dabt,
}
use sys_hyper.Trap.Syndrome.{Syndrome, arch_skip_instruction}
use sys_hyper.Zone.Access.{handle, mmio_handle_access}
use sys_hyper.Zone.MmioRegions.{MmioConfig, Fits}
use sys_hyper.Zone.MmioRegions.Lookup.{AllMiss, FindsFirst, find_mmio_region-FindsFirst}

-- A signed value of 1, 2 or 4 bytes that is read from a device: a value whose sign bit is clear is
-- kept; another gets ones up to bit 32 + 8 * size and no further, so that only values of 4 bytes are
-- extended to 64 bits.
pub sign_extend_lem :
    (size v : ℕ)
    → (size ≡ 1) ⊎ (size ≡ 2) ⊎ (size ≡ 4)
    → v < 2 ^ (8 * size)
    → sign_extend (32 - 8 * size) v
      ≡ (if ltb v (2 ^ (8 * size - 1)) then v else v + 2 ^ (32 + 8 * size) - 2 ^ (8 * size))
unfolding sign_extend
sign_extend_lem size v s h = elim s [
  | inl e ↦ let h' = rw e at h in rw e (ground arith)
  | inr r ↦ elim r [
    | inl e ↦ let h' = rw e at h in rw e (ground arith)
    | inr e ↦ let h' = rw e at h in rw e (ground arith)
  ]
]

module _ {Handler Gpm Device : Type 0}
    (call : Handler → MmioAccess → ℕ → M HvErrorNum (Machine Handler Gpm Device) MmioAccess) where
  abbrev pub value_of : Syndrome → ℕ → Machine Handler Gpm Device → ℕ
  value_of syndrome me s =
      if srt_of syndrome == 31 then 0 else (s.core me).regs.usr (srt_of syndrome)

  -- The access at an address, with the guest's value.
  abbrev pub access_at : ℕ → Syndrome → ℕ → Machine Handler Gpm Device → MmioAccess
  access_at address syndrome me s = record {
    address = address;
    size = size_of syndrome;
    is_write = is_write_of syndrome;
    value = value_of syndrome me s;
  }

  -- The access is given to the first region of the list that holds it, with the offset from its start
  -- and the guest's value, and what its handler gives back is completed; or no region holds it.
  abbrev pub Serves :
      List (MmioConfig Handler)
      → Syndrome
      → ℕ
      → Machine Handler Gpm Device
      → Run Stop (Machine Handler Gpm Device) (Unit {0})
      → Type 0
  Serves cs syndrome me s r =
      ((c : MmioConfig Handler) × (earlier later : List (MmioConfig Handler)) × (cs
          ≡ earlier ++ c ∷ later)
        × AllMiss (address_of syndrome) (size_of syndrome) earlier
        × (offset : ℕ) × (c.region.start + offset ≡ address_of syndrome)
        × (offset + size_of syndrome ≤ c.region.size)
        × Completes syndrome me (call c.handler (access_at offset syndrome me s) c.arg s) r)
      ⊎ (AllMiss (address_of syndrome) (size_of syndrome) cs × (r ≡ panic))

  guest_value-ok :
      (syndrome : Syndrome) (me : ℕ) (s : Machine Handler Gpm Device)
      → guest_value call syndrome me s ≡ ok (value_of syndrome me s) s
  unfolding guest_value
  guest_value-ok syndrome me s = elim (Bool-cases (srt_of syndrome == 31)) [
    | inl zero_register ↦ rw zero_register refl
    | inr other ↦
        let low = bit_and-low_mask 5 (syndrome.iss / 2 ^ 16) in
        let fits : ltb (srt_of syndrome) 31 ≡ true = ground arith in rw (other, fits) refl
  ]

  -- The end of the handler, with the access that a device's handler gives back.
  abbrev complete : Syndrome → ℕ → MmioAccess → MachineM Handler Gpm Device (Unit {0})
  complete syndrome me mmio = write_back call syndrome me mmio >> arch_skip_instruction syndrome me

  unfolded :
      (syndrome : Syndrome) (me zone : ℕ) (s : Machine Handler Gpm Device)
      → (s.cpus me).zone ≡ some zone
      → handle_dabt call syndrome me s
        ≡ and_then
            (expect (
              mmio_handle_access call
                (s.zones.zone zone).mmio
                (access_at (address_of syndrome) syndrome me s)
                s))
            (complete syndrome me)
  unfolding handle_dabt
  unfolded syndrome me zone s e = rw (guest_value-ok syndrome me s, e) refl

  served :
      (syndrome : Syndrome) (me : ℕ) (s : Machine Handler Gpm Device)
      (cs : List (MmioConfig Handler)) (o : Option (Option (MmioConfig Handler)))
      → FindsFirst (address_of syndrome) (size_of syndrome) cs o
      → Serves cs syndrome me s (
          and_then
            (expect (handle call (access_at (address_of syndrome) syndrome me s) o s))
            (complete syndrome me))
  served syndrome me s cs none f = absurd f
  served syndrome me s cs (some none) f = inr (f, refl)
  served syndrome me s cs (some (some c)) (earlier, later, e, holds, misses) = inl (
    c,
    earlier,
    later,
    e,
    misses,
    address_of syndrome - c.region.start,
    omega (arith, holds.0),
    omega (arith, holds.0, holds.1),
    completed call syndrome me
        (call c.handler (access_at (address_of syndrome - c.region.start) syndrome me s) c.arg s),
  )

  -- On a CPU that is in a zone, when the ends of the access and of all regions of the zone are below
  -- 2^64: an access that traps is given to the handler of the first region that it lies within, with
  -- the offset from the region's start and the guest's value. An error of the handler is a panic. After
  -- it, the guest goes on past the instruction, 2 or 4 bytes long as IL says; a read has put the
  -- handler's value into the register of the instruction, extended by `sign_extend` if the load is
  -- signed, unless it is the zero register; a write has changed no register; nothing else of what the
  -- handler left changes. The hypervisor panics if a signed load into another register is of more than
  -- 4 bytes, or the guest's address would pass 2^64, and if no region of the zone holds the access.
  pub handle_dabt-Serves :
      (syndrome : Syndrome) (me zone : ℕ) (s : Machine Handler Gpm Device)
      → (s.cpus me).zone ≡ some zone
      → address_of syndrome + size_of syndrome < 2 ^ 64
      → Fits (address_of syndrome) (size_of syndrome) (s.zones.zone zone).mmio
      → Serves (s.zones.zone zone).mmio syndrome me s (handle_dabt call syndrome me s)
  unfolding mmio_handle_access
  handle_dabt-Serves syndrome me zone s e h f = rw (unfolded syndrome me zone s e) (
      served syndrome me s (s.zones.zone zone).mmio _ (
        find_mmio_region-FindsFirst (address_of syndrome) (size_of syndrome)
          (s.zones.zone zone).mmio h f))
