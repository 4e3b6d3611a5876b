-- ===== src/Memory/Addr.antt =====
-- src/memory/addr.rs: page alignment on 64-bit addresses.
use sys_hyper.Base.{
  ℕ, ◌-◌, ◌*◌, ◌/◌, ◌%◌, ◌^◌, ◌<◌, bit_and, ◌≡◌, refl, ap, ◌∙◌, ◌↔◌, Bool, true, ◌==◌, ==→≡, arith,
}
use sys_hyper.Base.Bits.{bit_not}
use sys_hyper.Base.Bits.Mask.{bit_and-low_mask, bit_and-shift}
use sys_hyper.Base.Run.{M, ◌>>=◌, pure, checked_add, checked_sub}

-- `PAGE_SIZE`
abbrev pub page_size : ℕ
page_size = 0x1000

unfoldable pub page_offset : ℕ → ℕ
page_offset addr = bit_and addr (page_size - 1)

unfoldable pub is_aligned : ℕ → Bool
unfolding page_offset
is_aligned addr = page_offset addr == 0

unfoldable pub align_down : ℕ → ℕ
unfolding bit_not
align_down addr = bit_and addr (bit_not 64 (page_size - 1))

module _ {E S : Type 0} where
  unfoldable pub align_up : ℕ → M E S ℕ
  unfolding bit_not
  align_up addr = do
    a ← checked_add addr page_size
    b ← checked_sub a 1
    pure (bit_and b (bit_not 64 (page_size - 1)))

  unfoldable pub page_count : ℕ → M E S ℕ
  unfolding align_up
  page_count size = do n ← align_up size; pure (n / page_size)

pub page_offset-mod : (addr : ℕ) → page_offset addr ≡ addr % 0x1000
unfolding page_offset
page_offset-mod addr = bit_and-low_mask 12 addr

pub align_down-sub : (addr : ℕ) → addr < 2 ^ 64 → align_down addr ≡ addr - addr % 0x1000
unfolding align_down
align_down-sub addr h =
    bit_and-shift 12 addr (2 ^ 52 - 1)
    ∙ ap (λ (t : ℕ). t * 2 ^ 12) (bit_and-low_mask 52 (addr / 2 ^ 12))
    ∙ omega arith

pub is_aligned_iff : (addr : ℕ) → (is_aligned addr ≡ true) ↔ (addr % 0x1000 ≡ 0)
unfolding is_aligned
is_aligned_iff addr = rw (page_offset-mod addr) (==→≡ _ 0, λ e. rw e refl)
