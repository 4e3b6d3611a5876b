-- ===== src/Paging/PageSize.antt =====
-- `PageSize` and the table indices of src/arch/aarch64/paging.rs.
use sys_hyper.Base.{
  ℕ, ◌+◌, ◌-◌, ◌*◌, ◌/◌, ◌%◌, ◌^◌, ◌<◌, bit_and, ◌≡◌, ap, ◌∙◌, Bool, true, false, ◌==◌, arith,
}
use sys_hyper.Base.Bits.{bit_not}
use sys_hyper.Base.Bits.Mask.{bit_and-low_mask, bit_and-shift}

pub data PageSize : Type 0 where
  size4_k size2_m size1_g : PageSize

-- `self as usize`
abbrev pub bytes : PageSize → ℕ
bytes PageSize.size4_k = 0x1000
bytes PageSize.size2_m = 0x20_0000
bytes PageSize.size1_g = 0x4000_0000

unfoldable pub page_offset : PageSize → ℕ → ℕ
page_offset s addr = bit_and addr (bytes s - 1)

unfoldable pub is_aligned : PageSize → ℕ → Bool
unfolding page_offset
is_aligned s addr = page_offset s addr == 0

unfoldable pub align_down : PageSize → ℕ → ℕ
unfolding bit_not
align_down s addr = bit_and addr (bit_not 64 (bytes s - 1))

unfoldable pub is_huge : PageSize → Bool
is_huge PageSize.size1_g = true
is_huge PageSize.size2_m = true
is_huge PageSize.size4_k = false

abbrev pub same_size : PageSize → PageSize → Bool
same_size PageSize.size4_k PageSize.size4_k = true
same_size PageSize.size2_m PageSize.size2_m = true
same_size PageSize.size1_g PageSize.size1_g = true
same_size _ _ = false

-- `ENTRY_COUNT`
abbrev pub entry_count : ℕ
entry_count = 512

unfoldable pub p4_index : ℕ → ℕ
p4_index vaddr = bit_and (vaddr / 2 ^ (12 + 27)) (entry_count - 1)

unfoldable pub p3_index : ℕ → ℕ
p3_index vaddr = bit_and (vaddr / 2 ^ (12 + 18)) (entry_count - 1)

unfoldable pub p2_index : ℕ → ℕ
p2_index vaddr = bit_and (vaddr / 2 ^ (12 + 9)) (entry_count - 1)

unfoldable pub p1_index : ℕ → ℕ
p1_index vaddr = bit_and (vaddr / 2 ^ 12) (entry_count - 1)

pub page_offset-mod : (s : PageSize) (addr : ℕ) → page_offset s addr ≡ addr % bytes s
unfolding page_offset
page_offset-mod PageSize.size4_k addr = bit_and-low_mask 12 addr
page_offset-mod PageSize.size2_m addr = bit_and-low_mask 21 addr
page_offset-mod PageSize.size1_g addr = bit_and-low_mask 30 addr

pub align_down-sub :
    (s : PageSize) (addr : ℕ) → addr < 2 ^ 64 → align_down s addr ≡ addr - addr % bytes s
unfolding align_down
align_down-sub PageSize.size4_k addr h =
    bit_and-shift 12 addr (2 ^ 52 - 1)
    ∙ ap (λ (t : ℕ). t * 2 ^ 12) (bit_and-low_mask 52 (addr / 2 ^ 12))
    ∙ omega arith
align_down-sub PageSize.size2_m addr h =
    bit_and-shift 21 addr (2 ^ 43 - 1)
    ∙ ap (λ (t : ℕ). t * 2 ^ 21) (bit_and-low_mask 43 (addr / 2 ^ 21))
    ∙ omega arith
align_down-sub PageSize.size1_g addr h =
    bit_and-shift 30 addr (2 ^ 34 - 1)
    ∙ ap (λ (t : ℕ). t * 2 ^ 30) (bit_and-low_mask 34 (addr / 2 ^ 30))
    ∙ omega arith

pub p4_index-mod : (vaddr : ℕ) → p4_index vaddr ≡ vaddr / 0x80_0000_0000 % 512
unfolding p4_index
p4_index-mod vaddr = bit_and-low_mask 9 (vaddr / 2 ^ 39)

pub p3_index-mod : (vaddr : ℕ) → p3_index vaddr ≡ vaddr / 0x4000_0000 % 512
unfolding p3_index
p3_index-mod vaddr = bit_and-low_mask 9 (vaddr / 2 ^ 30)

pub p2_index-mod : (vaddr : ℕ) → p2_index vaddr ≡ vaddr / 0x20_0000 % 512
unfolding p2_index
p2_index-mod vaddr = bit_and-low_mask 9 (vaddr / 2 ^ 21)

pub p1_index-mod : (vaddr : ℕ) → p1_index vaddr ≡ vaddr / 0x1000 % 512
unfolding p1_index
p1_index-mod vaddr = bit_and-low_mask 9 (vaddr / 2 ^ 12)
