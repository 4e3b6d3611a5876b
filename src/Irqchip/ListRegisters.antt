-- ===== src/Irqchip/ListRegisters.antt =====
-- `inject_irq` of src/device/irqchip/gicv3/mod.rs: the list registers of the virtual CPU interface.
-- The register `ich_elrsr_el2`, by which the hardware says which list registers are empty, is a
-- parameter.
pub mod Inject
use sys_hyper.Base.{
  ℕ, zero, suc, ◌+◌, ◌-◌, ◌*◌, ◌%◌, ◌^◌, ◌<◌, ◌≤◌, ◌≡◌, ◌≢◌, refl, sym, ◌∙◌, ap, Bool, true, false,
  not, ◌&&◌, ltb, ◌==◌, Bool-cases, inl, inr, ◌⊎◌, if◌then◌else◌, Option, none, some, bit_and,
  bit_or, arith,
}
use sys_hyper.Base.Run.{M, Run, ok, err, panic, hang, ◌>>=◌, ◌>>◌, pure, panics, get, put}

-- `is_spi` and `is_sgi`
unfoldable pub is_spi : ℕ → Bool
is_spi irqn = ltb 31 irqn && ltb irqn 1020

unfoldable pub is_sgi : ℕ → Bool
is_sgi irqn = ltb irqn 16

-- The registers `ich_vtr_el2` and `ich_lr<n>_el2`.
pub record VirtualInterface : Type 0 where
  pub vtr : ℕ
  pub lr : ℕ → ℕ

unfoldable pub lr_num : VirtualInterface → ℕ
lr_num s = bit_and s.vtr 0xf + 1

-- `read_lr` and `write_lr`; `hang` is their `loop {}`.
unfoldable pub read_lr : {E : Type 0} → ℕ → M E VirtualInterface ℕ
read_lr id s = if ltb id 16 then ok (s.lr id) s else hang

unfoldable pub write_lr : {E : Type 0} → ℕ → ℕ → M E VirtualInterface (Unit {0})
write_lr id val s =
    if ltb id 16 then ok tt (record s { lr = λ i. if id == i then val else s.lr i }) else hang

-- What the search for a list register ends with.
pub data Scan : Type 0 where
  enabled_again : Scan
  searched : Option ℕ → Scan

abbrev pub or_else : Option ℕ → ℕ → Option ℕ
or_else none i = some i
or_else (some k) i = some k

-- The `for` over the list registers from `i`, of which there are `n`.
unfoldable pub scan : {E : Type 0} → ℕ → ℕ → ℕ → ℕ → Option ℕ → M E VirtualInterface Scan
unfolding read_lr
scan elsr irq_id i zero free_ir = pure (Scan.searched free_ir)
scan elsr irq_id i (suc n) free_ir =
    if ltb 0 (bit_and (2 ^ i) elsr) then scan elsr irq_id (i + 1) n (or_else free_ir i) else do
      lr_val ← read_lr i
      let rest = scan elsr irq_id (i + 1) n free_ir
      if bit_and lr_val (2 ^ 32 - 1) == irq_id then pure Scan.enabled_again else rest

-- The value of the list register for an interrupt.
unfoldable pub lr_value : ℕ → Bool → ℕ
unfolding is_sgi
lr_value irq_id is_hardware =
    let val = bit_or (bit_or irq_id (2 ^ 60)) (2 ^ 62) in
    if not (is_sgi (irq_id % 2 ^ 32)) && is_hardware
    then bit_or (bit_or val (2 ^ 61)) (irq_id * 2 ^ 32 % 2 ^ 64)
    else val

module _ (elrsr : (ℕ → ℕ) → ℕ) where
  unfoldable pub finish : {E : Type 0} → ℕ → Bool → Scan → M E VirtualInterface (Unit {0})
  unfolding lr_value write_lr
  finish irq_id is_hardware Scan.enabled_again = pure tt
  finish irq_id is_hardware (Scan.searched none) = panics
  finish irq_id is_hardware (Scan.searched (some free_ir)) =
      write_lr free_ir (lr_value irq_id is_hardware)

  unfoldable pub inject_irq : {E : Type 0} → ℕ → Bool → M E VirtualInterface (Unit {0})
  unfolding lr_num scan finish
  inject_irq irq_id is_hardware = do
    s ← get
    r ← scan (elrsr s.lr) irq_id 0 (lr_num s) none
    finish irq_id is_hardware r
