-- ===== src/Paging/Pte.antt =====
-- The trait `GenericPTE` of src/arch/aarch64/paging.rs with the laws that the page table relies on.
-- An entry is a 64-bit word, and a zeroed table holds zeros. The entries of stage 1 and of stage 2
-- fill this record.
use sys_hyper.Base.{ℕ, ◌%◌, ◌^◌, ◌<◌, ◌≡◌, Bool, true, false, Option, some}

-- An address that an entry can hold.
abbrev pub IsFrame : ℕ → Type 0
IsFrame p = (p % 0x1000 ≡ 0) × (p < 2 ^ 48)

pub record GenericPte : Type 0 where
  pub addr : ℕ → ℕ
  -- `none` is a panic.
  pub flags : ℕ → Option ℕ
  pub is_unused : ℕ → Bool
  pub is_present : ℕ → Bool
  pub is_huge : ℕ → Bool
  pub set_addr : ℕ → ℕ → ℕ
  pub set_flags : ℕ → Bool → ℕ → ℕ
  pub set_table : ℕ → ℕ → ℕ
  pub clear : ℕ → ℕ
  -- The flags that come back from an entry that was given `flags`.
  pub kept_flags : ℕ → ℕ
  pub zero-unused : is_unused 0 ≡ true
  pub clear-unused : (e : ℕ) → is_unused (clear e) ≡ true
  pub unused_absent : (e : ℕ) → is_unused e ≡ true → is_present e ≡ false
  pub set_table_lem :
      (p : ℕ) (e : ℕ)
      → IsFrame p
      → (is_unused (set_table p e) ≡ false)
        × (is_present (set_table p e) ≡ true)
        × (is_huge (set_table p e) ≡ false)
        × (addr (set_table p e) ≡ p)
  pub set_leaf_lem :
      (p f : ℕ) (huge : Bool) (e : ℕ)
      → IsFrame p
      → (is_unused (set_flags f huge (set_addr p e)) ≡ false)
        × (is_present (set_flags f huge (set_addr p e)) ≡ true)
        × (is_huge (set_flags f huge (set_addr p e)) ≡ huge)
        × (addr (set_flags f huge (set_addr p e)) ≡ p)
        × (flags (set_flags f huge (set_addr p e)) ≡ some (kept_flags f))
