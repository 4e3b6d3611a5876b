-- ===== src/Zone/Access.antt =====
-- `mmio_handle_access` of src/memory/mmio.rs: an access of a guest goes to the handler of the
-- region that contains it, with the offset from the region's start. The call of a handler is a
-- parameter.
use sys_hyper.Base.{ℕ, ◌+◌, ◌-◌, ◌≤◌, ◌≡◌, Bool, false, ◌⊎◌, Option, none, some, List}
use sys_hyper.Base.Run.{M, fail, panics}
use sys_hyper.Error.{HvErrorNum}
use sys_hyper.Memory.Mmio.{MmioAccess, contains_region}
use sys_hyper.Zone.MmioRegions.{MmioConfig, In, find_mmio_region}

abbrev get_or : Bool → Option Bool → Bool
get_or d none = d
get_or d (some b) = b

module _ {Handler Device : Type 0}
    (call : Handler → MmioAccess → ℕ → M HvErrorNum Device MmioAccess) where
  abbrev pub handle :
      MmioAccess → Option (Option (MmioConfig Handler)) → M HvErrorNum Device MmioAccess
  handle mmio none = panics
  handle mmio (some none) = fail HvErrorNum.einval
  handle mmio (some (some c)) =
      call c.handler (record mmio { address = mmio.address - c.region.start }) c.arg

  -- The regions are those of the zone of the CPU.
  unfoldable pub mmio_handle_access :
      List (MmioConfig Handler) → MmioAccess → M HvErrorNum Device MmioAccess
  unfolding find_mmio_region
  mmio_handle_access cs mmio = handle mmio (find_mmio_region mmio.address mmio.size cs)

  -- An access goes to a region of the list, within its bounds, or no region contains it.
  abbrev pub Dispatches :
      List (MmioConfig Handler) → MmioAccess → M HvErrorNum Device MmioAccess → Type 0
  Dispatches cs mmio m =
      ((c : MmioConfig Handler) × In c cs
        × (offset : ℕ) × (c.region.start + offset ≡ mmio.address)
        × (offset + mmio.size ≤ c.region.size)
        × (m ≡ call c.handler (record mmio { address = offset }) c.arg))
      ⊎ (((c : MmioConfig Handler)
            → In c cs
            → contains_region c.region mmio.address mmio.size ≡ some false)
          × (m ≡ fail HvErrorNum.einval))
