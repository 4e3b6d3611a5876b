-- ===== src/Config.antt =====
-- src/config.rs: the configuration of a zone.
use sys_hyper.Base.{
  ℕ, zero, suc, ◌+◌, ◌/◌, ◌^◌, ◌≤◌, ◌≡◌, refl, sym, ap, ◌∙◌, Bool, false, ◌==◌, ◌&&◌, ◌||◌, leb,
  ltb, if◌then◌else◌, Bool-cases, inl, inr, Option, none, some, List, [], ◌∷◌, take, bit_and, arith,
}
use native.Mathlib.Nat.{pow-suc, div-div-eq-div-mul}
use sys_hyper.Base.Bits.{test_bit}
use sys_hyper.Base.Bits.Mask.{bit_and-low_mask}

abbrev pub mem_type_ram : ℕ
mem_type_ram = 0

abbrev pub mem_type_io : ℕ
mem_type_io = 1

abbrev pub mem_type_virtio : ℕ
mem_type_virtio = 2

abbrev pub config_max_memory_regions : ℕ
config_max_memory_regions = 16

abbrev pub config_max_interrupts : ℕ
config_max_interrupts = 32

pub record HvConfigMemoryRegion : Type 0 where
  pub mem_type : ℕ
  pub physical_start : ℕ
  pub virtual_start : ℕ
  pub size : ℕ

-- src/arch/aarch64/zone.rs
pub record HvArchZoneConfig : Type 0 where
  pub gicd_base : ℕ
  pub gicr_base : ℕ
  pub gicd_size : ℕ
  pub gicr_size : ℕ

pub record HvZoneConfig : Type 0 where
  pub zone_id : ℕ
  pub cpu_bits : ℕ
  pub num_memory_regions : ℕ
  pub memory_region_array : List HvConfigMemoryRegion
  pub num_interrupts : ℕ
  pub interrupt_array : List ℕ
  pub entry_point : ℕ
  pub kernel_load_paddr : ℕ
  pub kernel_size : ℕ
  pub dtb_load_paddr : ℕ
  pub dtb_size : ℕ
  pub arch : HvArchZoneConfig

-- `none` is a panic: more regions than the array has room for.
unfoldable pub memory_regions : HvZoneConfig → Option (List HvConfigMemoryRegion)
memory_regions c =
    if ltb config_max_memory_regions c.num_memory_regions
    then none
    else some (take c.num_memory_regions c.memory_region_array)

unfoldable pub interrupts : HvZoneConfig → Option (List ℕ)
interrupts c =
    if ltb config_max_interrupts c.num_interrupts
    then none
    else some (take c.num_interrupts c.interrupt_array)

-- The `for` of `cpus` from CPU i, with n to go.
unfoldable pub cpus_from : ℕ → ℕ → ℕ → List ℕ
cpus_from cpu_bits i zero = []
cpus_from cpu_bits i (suc n) =
    let rest = cpus_from cpu_bits (i + 1) n in
    if bit_and (cpu_bits / 2 ^ i) 1 == 1 then i ∷ rest else rest

unfoldable pub cpus : HvZoneConfig → List ℕ
unfolding cpus_from
cpus c = cpus_from c.cpu_bits 0 64

abbrev pub has : List ℕ → ℕ → Bool
has [] j = false
has (x ∷ xs) j = x == j || has xs j

bit_of : (x i : ℕ) → (bit_and (x / 2 ^ i) 1 == 1) ≡ test_bit x i
unfolding test_bit
bit_of x zero = let e : x / 2 ^ 0 ≡ x = omega arith in rw (e, bit_and-low_mask 1 x) refl
bit_of x (suc i) =
    let e : x / 2 ^ suc i ≡ x / 2 / 2 ^ i =
      ap (λ (t : ℕ). x / t) (omega (arith, pow-suc 2 i)) ∙ sym (div-div-eq-div-mul x 2 (2 ^ i)) in
    rw (e, bit_of (x / 2) i) refl

cpus_from-has : (x n i j : ℕ) → has (cpus_from x i n) j ≡ (leb i j && ltb j (i + n) && test_bit x j)
unfolding cpus_from
cpus_from-has x zero i j = ground arith
cpus_from-has x (suc n) i j = elim (Bool-cases (i == j)) [
  | inl e ↦
      let d : i ≡ j = ground arith in
      elim (Bool-cases (test_bit x i)) [
        | inl m ↦ let m' = rw d at m in rw (bit_of x i, m) (ground (arith, m'))
        | inr m ↦
            let m' = rw d at m in
            rw (bit_of x i, m, cpus_from-has x n (i + 1) j) (ground (arith, m'))
      ]
  | inr e ↦ elim (Bool-cases (test_bit x i)) [
    | inl m ↦ rw (bit_of x i, m, e, cpus_from-has x n (i + 1) j) (ground arith)
    | inr m ↦ rw (bit_of x i, m, cpus_from-has x n (i + 1) j) (ground arith)
  ]
]

abbrev pub Increasing : ℕ → List ℕ → Type 0
Increasing i [] = Unit
Increasing i (x ∷ xs) = (i ≤ x) × Increasing (suc x) xs

cpus_from-Increasing : (x n i k : ℕ) → k ≤ i → Increasing k (cpus_from x i n)
unfolding cpus_from
cpus_from-Increasing x zero i k h = tt
cpus_from-Increasing x (suc n) i k h = elim (Bool-cases (test_bit x i)) [
  | inl m ↦ rw (bit_of x i, m) (h, cpus_from-Increasing x n (i + 1) (suc i) (omega arith))
  | inr m ↦ rw (bit_of x i, m) (cpus_from-Increasing x n (i + 1) k (omega arith))
]

-- `cpus` lists the numbers of the bits that are set among the 64, each once and in increasing order.
pub cpus-has :
    (c : HvZoneConfig)
    → Increasing 0 (cpus c) × ((j : ℕ) → has (cpus c) j ≡ (ltb j 64 && test_bit c.cpu_bits j))
unfolding cpus
cpus-has c = (
  cpus_from-Increasing c.cpu_bits 64 0 0 (omega arith),
  λ j. cpus_from-has c.cpu_bits 64 0 j ∙ ground arith,
)
