-- ===== src/Irqchip/Reset.antt =====
-- `Zone::arch_irqchip_reset` of src/device/irqchip/gicv3/mod.rs: the interrupts of a zone are disabled
-- and deactivated, but for those of the first word, which are banked for each CPU.
use sys_hyper.Base.{
  ℕ, ◌+◌, ◌*◌, ◌==◌, ◌≡◌, refl, Bool-cases, inl, inr, if◌then◌else◌, List, [], ◌∷◌, Option,
}
use sys_hyper.Base.Run.{M, ok, ◌>>=◌, ◌>>◌, pure, unwrap}
use sys_hyper.Irqchip.Gicd.{Gic, host_gicd_base, gicd_icenabler, gicd_icactiver}
use sys_hyper.Memory.Mmio.{Bus, bus_write}

module _ {E Device : Type 0} (B : Bus Device) where
  -- The `for` over the words from `idx`.
  unfoldable pub reset_words : ℕ → ℕ → List ℕ → M E Device (Unit {0})
  unfolding bus_write
  reset_words gicd_base idx [] = pure tt
  reset_words gicd_base idx (mask ∷ masks) = do
    (if idx == 0 then pure tt else do
      bus_write B (gicd_base + gicd_icenabler + idx * 4) 4 mask
      bus_write B (gicd_base + gicd_icactiver + idx * 4) 4 mask)
    reset_words gicd_base (idx + 1) masks

  unfoldable pub arch_irqchip_reset : Option Gic → List ℕ → M E Device (Unit {0})
  unfolding host_gicd_base reset_words
  arch_irqchip_reset GIC irq_bitmap = do
    gic ← unwrap GIC
    reset_words (host_gicd_base gic) 0 irq_bitmap

  -- The writes do not fail.
  pub reset_words-ok :
      (gicd_base idx : ℕ) (masks : List ℕ) (d : Device)
      → (d' : Device) × (reset_words gicd_base idx masks d ≡ ok tt d')
  unfolding reset_words bus_write
  reset_words-ok gicd_base idx [] d = (d, refl)
  reset_words-ok gicd_base idx (mask ∷ masks) d = elim (Bool-cases (idx == 0)) [
    | inl first ↦ let (d', e) = reset_words-ok gicd_base (idx + 1) masks d in (d', rw first e)
    | inr later ↦
        let (d', e) = reset_words-ok gicd_base (idx + 1) masks (
          B.write (gicd_base + gicd_icactiver + idx * 4) 4 mask
            (B.write (gicd_base + gicd_icenabler + idx * 4) 4 mask d)) in
        (d', rw later e)
  ]
