-- ===== src/Trap/DataAbort.antt =====
-- `handle_dabt` of src/arch/aarch64/trap.rs: an access of a guest to an address that is not mapped is
-- given to the device there. The call of a device's handler is a parameter, as in Zone.Access.
use sys_hyper.Base.{
  ℕ, ◌+◌, ◌-◌, ◌*◌, ◌/◌, ◌%◌, ◌^◌, Bool, not, ◌==◌, ◌&&◌, leb, if◌then◌else◌, bit_and, bit_or,
}
use sys_hyper.Base.Run.{M, Run, ok, err, panic, hang, ◌>>=◌, ◌>>◌, pure, get, checked_sub}
use sys_hyper.Error.{HvErrorNum}
use sys_hyper.Machine.{MachineM, Machine, Stop, usr, set_usr, this_zone}
use sys_hyper.Memory.Mmio.{MmioAccess}
use sys_hyper.Trap.Syndrome.{Syndrome, arch_skip_instruction}
use sys_hyper.Zone.Access.{mmio_handle_access}

-- `(value << k) as i32 as usize >> k` on 64 bits.
unfoldable pub sign_extend : ℕ → ℕ → ℕ
sign_extend k value =
    let low = value * 2 ^ k % 2 ^ 32 in
    (if leb (2 ^ 31) low then low + 2 ^ 64 - 2 ^ 32 else low) / 2 ^ k

-- An error of the handler is a panic; the guest's registers are written after the access.
abbrev pub expect : {S A : Type 0} → Run HvErrorNum S A → Run Stop S A
expect (ok a s) = ok a s
expect (err e s) = panic
expect panic = panic
expect hang = hang

-- The access that the syndrome describes, and the register that it reads or writes.
abbrev pub srt_of : Syndrome → ℕ
srt_of syndrome = bit_and (syndrome.iss / 2 ^ 16) 0x1f

abbrev pub size_of : Syndrome → ℕ
size_of syndrome = 2 ^ bit_and (syndrome.iss / 2 ^ 22) 0x3

abbrev pub is_write_of : Syndrome → Bool
is_write_of syndrome = not (bit_and (syndrome.iss / 2 ^ 6) 0x1 == 0)

abbrev pub is_signed : Syndrome → Bool
is_signed syndrome = not (bit_and (syndrome.iss / 2 ^ 21) 0x1 == 0)

abbrev pub address_of : Syndrome → ℕ
address_of syndrome = bit_or (bit_and syndrome.far 0xfff) (syndrome.hpfar * 2 ^ 8 % 2 ^ 64)

module _ {Handler Gpm Device : Type 0}
    (call : Handler → MmioAccess → ℕ → M HvErrorNum (Machine Handler Gpm Device) MmioAccess) where
  abbrev extended : Syndrome → ℕ → MachineM Handler Gpm Device ℕ
  extended syndrome value =
      if is_signed syndrome
      then (checked_sub 32 (8 * size_of syndrome) >>= λ k. pure (sign_extend k value))
      else pure value

  -- The value that was read goes to the guest's register; register 31 is the zero register.
  unfoldable pub write_back : Syndrome → ℕ → MmioAccess → MachineM Handler Gpm Device (Unit {0})
  unfolding sign_extend
  write_back syndrome me mmio =
      if not (is_write_of syndrome) && not (srt_of syndrome == 31)
      then extended syndrome mmio.value >>= set_usr me (srt_of syndrome)
      else pure tt

  -- The value that the guest writes.
  unfoldable pub guest_value : Syndrome → ℕ → MachineM Handler Gpm Device ℕ
  guest_value syndrome me = if srt_of syndrome == 31 then pure 0 else usr me (srt_of syndrome)

  unfoldable pub handle_dabt : Syndrome → ℕ → MachineM Handler Gpm Device (Unit {0})
  handle_dabt syndrome me = do
    value ← guest_value syndrome me
    zone ← this_zone me
    s ← get
    mmio ← λ t. expect (
        mmio_handle_access call (s.zones.zone zone).mmio
          (record {
            address = address_of syndrome;
            size = size_of syndrome;
            is_write = is_write_of syndrome;
            value = value;
          })
          t)
    write_back syndrome me mmio
    arch_skip_instruction syndrome me
