-- ===== src/Memory/Mmio.antt =====
-- src/memory/mmio.rs: an access of a guest to device memory, and the access of the device that the
-- hypervisor makes for it. The devices on the bus are a parameter.
use sys_hyper.Base.{
  ℕ, ◌+◌, ◌*◌, ◌%◌, ◌^◌, ◌<◌, Bool, false, ◌&&◌, ◌||◌, ◌==◌, leb, ltb, if◌then◌else◌, Option, none,
  some,
}
use sys_hyper.Base.Run.{M, ok, ◌>>=◌, ◌>>◌, pure, panics, checked_add}

pub record MmioAccess : Type 0 where
  pub address : ℕ
  pub size : ℕ
  pub is_write : Bool
  pub value : ℕ

pub record MmioRegion : Type 0 where
  pub start : ℕ
  pub size : ℕ

-- `none` is the panic of a sum that overflows.
unfoldable pub contains_region : MmioRegion → ℕ → ℕ → Option Bool
contains_region r addr sz =
    if leb r.start addr
    then if ltb (addr + sz) (2 ^ 64) && ltb (r.start + r.size) (2 ^ 64)
      then some (leb (addr + sz) (r.start + r.size))
      else none
    else some false

-- Device memory: `read addr size` and `write addr size value` of 1, 2, 4 or 8 bytes.
pub record Bus (Device : Type 0) : Type 0 where
  pub read : ℕ → ℕ → Device → ℕ × Device
  pub write : ℕ → ℕ → ℕ → Device → Device
  pub read-lt : (addr size : ℕ) (d : Device) → (read addr size d).0 < 2 ^ (8 * size)

abbrev pub is_access_size : ℕ → Bool
is_access_size n = n == 1 || n == 2 || n == 4 || n == 8

module _ {Device E : Type 0} (B : Bus Device) where
  unfoldable pub bus_read : ℕ → ℕ → M E Device ℕ
  bus_read addr size d = ok ((B.read addr size d).0) ((B.read addr size d).1)

  unfoldable pub bus_write : ℕ → ℕ → ℕ → M E Device (Unit {0})
  bus_write addr size value d = ok tt (B.write addr size value d)

  unfoldable pub access : ℕ → MmioAccess → M E Device MmioAccess
  unfolding bus_read bus_write
  access addr mmio =
      if mmio.is_write
      then bus_write addr mmio.size (mmio.value % 2 ^ (8 * mmio.size)) >> pure mmio
      else do value ← bus_read addr mmio.size; pure (record mmio { value = value })

  -- The access, with the value that was read.
  unfoldable pub mmio_perform_access : ℕ → MmioAccess → M E Device MmioAccess
  unfolding access
  mmio_perform_access base mmio = do
    addr ← checked_add base mmio.address
    if is_access_size mmio.size then access addr mmio else panics

  unfoldable pub mmio_generic_handler : MmioAccess → ℕ → M E Device MmioAccess
  unfolding mmio_perform_access
  mmio_generic_handler mmio base = mmio_perform_access base mmio
