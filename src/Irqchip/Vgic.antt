-- ===== src/Irqchip/Vgic.antt =====
-- src/device/irqchip/gicv3/vgic.rs: the accesses of a zone to the interrupt distributor and the
-- redistributors, let through for its own interrupts only.
pub mod Bitmap
pub mod Access
use sys_hyper.Base.{
  ℕ, zero, suc, ◌+◌, ◌-◌, ◌*◌, ◌/◌, ◌%◌, ◌^◌, ◌<◌, ◌≡◌, Bool, true, false, not, ◌&&◌, ◌||◌, ◌==◌,
  leb, ltb, if◌then◌else◌, Option, none, some, List, [], ◌∷◌, get_elem?, set, bit_and, bit_or, map,
}
use sys_hyper.Base.Bits.{bit_not}
use Bitmap.{irq_in_zone, access_mask}
use sys_hyper.Base.Run.{M, Run, ok, ◌>>=◌, ◌>>◌, pure, panics, get, put, assert, unwrap}
use sys_hyper.Error.{HvErrorNum}
use sys_hyper.Irqchip.Gicd.{
  Gic, host_gicr_base, gicd_ctlr, gicd_typer, gicd_iidr, gicd_igroupr, gicd_isenabler,
  gicd_icenabler, gicd_ispendr, gicd_icpendr, gicd_isactiver, gicd_icactiver, gicd_ipriorityr,
  gicd_itargetsr, gicd_icfgr, gicd_irouter, gicdv3_cidr0, gicdv3_pidr0, gicdv3_pidr4, gicr_iidr,
  gicr_typer, gicr_syncr, gicr_typer_last, max_cpu_num,
}
use sys_hyper.Irqchip.ListRegisters.{is_spi}
use sys_hyper.Memory.Mmio.{Bus, MmioAccess, mmio_perform_access}

-- The range `base..base + (n - 1) * size`, which does not hold its end.
unfoldable pub reg_range : ℕ → ℕ → ℕ → ℕ → Bool
reg_range base n size reg = leb base reg && ltb reg (base + (n - 1) * size)

module _ {Device : Type 0} (B : Bus Device) where
  abbrev pub DeviceM : Type 0 → Type 0
  DeviceM A = M HvErrorNum Device A

  unfoldable pub masked_read : ℕ → ℕ → MmioAccess → DeviceM MmioAccess
  unfolding mmio_perform_access
  masked_read mask gicd_base mmio = do
    r ← mmio_perform_access B gicd_base mmio
    pure (record r { value = bit_and r.value mask })

  -- The lock that the code takes around the two accesses is not modelled.
  unfoldable pub masked_modify : ℕ → ℕ → MmioAccess → DeviceM MmioAccess
  unfolding mmio_perform_access
  masked_modify mask gicd_base mmio = do
    r ← mmio_perform_access B gicd_base (record mmio { is_write = false })
    let value = bit_or (bit_and r.value (bit_not 64 mask)) (bit_and mmio.value mask)
    mmio_perform_access B gicd_base (record r { is_write = true; value = value })

  -- The access with its mask: a read, a write that keeps the other bits, or a write of set bits
  -- alone (`is_poke`).
  unfoldable pub masked_access : ℕ → Bool → ℕ → MmioAccess → DeviceM MmioAccess
  unfolding masked_read masked_modify mmio_perform_access
  masked_access mask is_poke gicd_base mmio =
      if not mmio.is_write
      then masked_read mask gicd_base mmio
      else if not is_poke
      then masked_modify mask gicd_base mmio
      else mmio_perform_access B gicd_base (record mmio { value = bit_and mmio.value mask })

  unfoldable pub restrict_bitmask_access :
      List ℕ → MmioAccess → ℕ → ℕ → Bool → ℕ → DeviceM MmioAccess
  unfolding access_mask masked_access
  restrict_bitmask_access irq_bitmap mmio reg_index bits_per_irq is_poke gicd_base = do
    mask ← unwrap (access_mask irq_bitmap reg_index bits_per_irq)
    masked_access mask is_poke gicd_base mmio

  -- The zone that makes the access is `irq_bitmap`.
  unfoldable pub vgicv3_handle_irq_ops : Gic → List ℕ → MmioAccess → ℕ → DeviceM MmioAccess
  unfolding irq_in_zone is_spi mmio_perform_access
  vgicv3_handle_irq_ops gic irq_bitmap mmio irq = if not (is_spi irq) then pure mmio else do
    b ← unwrap (irq_in_zone irq_bitmap irq)
    if not b then pure mmio else mmio_perform_access B gic.gicd_base mmio

  unfoldable pub vgicv3_dist_misc_access : MmioAccess → ℕ → DeviceM MmioAccess
  unfolding reg_range mmio_perform_access
  vgicv3_dist_misc_access mmio gicd_base =
      let reg = mmio.address in
      if reg_range gicdv3_pidr0 4 4 reg
        || reg_range gicdv3_pidr4 4 4 reg
        || reg_range gicdv3_cidr0 4 4 reg
        || reg == gicd_ctlr
        || reg == gicd_typer
        || reg == gicd_iidr
      then if not mmio.is_write then mmio_perform_access B gicd_base mmio else pure mmio
      else panics

  unfoldable pub vgicv3_dist_handler : Gic → List ℕ → MmioAccess → DeviceM MmioAccess
  unfolding reg_range vgicv3_handle_irq_ops restrict_bitmask_access vgicv3_dist_misc_access
  vgicv3_dist_handler gic irq_bitmap mmio =
      let reg = mmio.address in
      if reg_range gicd_irouter 1024 8 reg
      then vgicv3_handle_irq_ops gic irq_bitmap mmio ((reg - gicd_irouter) % 2 ^ 32 / 8)
      else if reg_range gicd_itargetsr 1024 1 reg
      then vgicv3_handle_irq_ops gic irq_bitmap mmio ((reg - gicd_itargetsr) % 2 ^ 32)
      else if reg_range gicd_icenabler 32 4 reg
          || reg_range gicd_isenabler 32 4 reg
          || reg_range gicd_icpendr 32 4 reg
          || reg_range gicd_ispendr 32 4 reg
          || reg_range gicd_icactiver 32 4 reg
          || reg_range gicd_isactiver 32 4 reg
      then restrict_bitmask_access irq_bitmap mmio (bit_and reg 0x7f / 4) 1 true gic.gicd_base
      else if reg_range gicd_igroupr 32 4 reg
      then restrict_bitmask_access irq_bitmap mmio (bit_and reg 0x7f / 4) 1 false gic.gicd_base
      else if reg_range gicd_icfgr 64 4 reg
      then restrict_bitmask_access irq_bitmap mmio (bit_and reg 0xff / 4) 2 false gic.gicd_base
      else if reg_range gicd_ipriorityr 255 4 reg
      then restrict_bitmask_access irq_bitmap mmio (bit_and reg 0x3ff / 4) 8 false gic.gicd_base
      else vgicv3_dist_misc_access mmio gic.gicd_base

  unfoldable pub mark_last : ℕ → MmioAccess → MmioAccess
  mark_last cpu mmio =
      if cpu == max_cpu_num - 1
      then record mmio { value = bit_or mmio.value gicr_typer_last }
      else mmio

  -- `zone` is the zone that makes the access, `owner` that of CPU `cpu`: an access to a redistributor
  -- of a CPU without a zone panics.
  unfoldable pub vgicv3_redist_handler : Gic → ℕ → Option ℕ → MmioAccess → ℕ → DeviceM MmioAccess
  unfolding host_gicr_base mmio_perform_access mark_last
  vgicv3_redist_handler gic zone owner mmio cpu = do
    gicr_base ← unwrap (host_gicr_base gic cpu)
    let reg = mmio.address
    if reg == gicr_typer
        then (λ d. (mmio_perform_access B gicr_base mmio >>= λ r. pure (mark_last cpu r)) d)
        else if reg == gicr_iidr || leb 0xffd0 reg && leb reg 0xfffc
        then mmio_perform_access B gicr_base mmio
        else if reg == gicr_syncr
        then pure (record mmio { value = 0 })
        else (unwrap owner >>= λ z.
            if z == zone then mmio_perform_access B gicr_base mmio else pure mmio)
