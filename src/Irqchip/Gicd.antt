-- ===== src/Irqchip/Gicd.antt =====
-- The register offsets of src/device/irqchip/gicv3/gicd.rs and gicr.rs, and `Gic` of
-- src/device/irqchip/gicv3/mod.rs.
use sys_hyper.Base.{ℕ, ◌+◌, ◌*◌, ◌^◌, ltb, Option, none, some, if◌then◌else◌}

abbrev pub gicd_ctlr : ℕ
gicd_ctlr = 0x0000

abbrev pub gicd_typer : ℕ
gicd_typer = 0x0004

abbrev pub gicd_iidr : ℕ
gicd_iidr = 0x0008

abbrev pub gicd_igroupr : ℕ
gicd_igroupr = 0x0080

abbrev pub gicd_isenabler : ℕ
gicd_isenabler = 0x0100

abbrev pub gicd_icenabler : ℕ
gicd_icenabler = 0x0180

abbrev pub gicd_ispendr : ℕ
gicd_ispendr = 0x0200

abbrev pub gicd_icpendr : ℕ
gicd_icpendr = 0x0280

abbrev pub gicd_isactiver : ℕ
gicd_isactiver = 0x0300

abbrev pub gicd_icactiver : ℕ
gicd_icactiver = 0x0380

abbrev pub gicd_ipriorityr : ℕ
gicd_ipriorityr = 0x0400

abbrev pub gicd_itargetsr : ℕ
gicd_itargetsr = 0x0800

abbrev pub gicd_icfgr : ℕ
gicd_icfgr = 0x0c00

abbrev pub gicd_irouter : ℕ
gicd_irouter = 0x6000

abbrev pub gicdv3_cidr0 : ℕ
gicdv3_cidr0 = 0xfff0

abbrev pub gicdv3_pidr0 : ℕ
gicdv3_pidr0 = 0xffe0

abbrev pub gicdv3_pidr4 : ℕ
gicdv3_pidr4 = 0xffd0

abbrev pub gicr_iidr : ℕ
gicr_iidr = 0x0004

abbrev pub gicr_typer : ℕ
gicr_typer = 0x0008

abbrev pub gicr_syncr : ℕ
gicr_syncr = 0x00c0

abbrev pub gicr_typer_last : ℕ
gicr_typer_last = 2 ^ 4

abbrev pub max_cpu_num : ℕ
max_cpu_num = 4

abbrev pub per_gicr_size : ℕ
per_gicr_size = 0x20000

pub record Gic : Type 0 where
  pub gicd_base : ℕ
  pub gicr_base : ℕ
  pub gicd_size : ℕ
  pub gicr_size : ℕ

-- `host_gicd_base` and `host_gicd_size`; the `unwrap` of `GIC` is the caller's.
unfoldable pub host_gicd_base : Gic → ℕ
host_gicd_base gic = gic.gicd_base

unfoldable pub host_gicd_size : Gic → ℕ
host_gicd_size gic = gic.gicd_size

-- `none` is the panic of the assertion, or of a sum that overflows.
unfoldable pub host_gicr_base : Gic → ℕ → Option ℕ
host_gicr_base gic id =
    if ltb id max_cpu_num
    then if ltb (gic.gicr_base + id * per_gicr_size) (2 ^ 64)
      then some (gic.gicr_base + id * per_gicr_size)
      else none
    else none
