-- ===== src/Memory/Frame/Bitmap.antt =====
-- The crate bitmap_allocator, as far as src/memory/frame.rs relies on it: a set of free indices.
use sys_hyper.Base.{
  ℕ, ◌+◌, ◌≤◌, ◌<◌, ◌≡◌, Bool, true, false, ◌&&◌, leb, ltb, ◌==◌, if◌then◌else◌, Option, none, some,
}

pub record BitAlloc (State : Type 0) : Type 0 where
  pub is_free : State → ℕ → Bool
  pub default : State
  -- `insert(start..end)`
  pub insert : ℕ → ℕ → State → State
  pub alloc : State → Option (ℕ × State)
  -- `alloc_contiguous(size, align_log2)`
  pub alloc_contiguous : ℕ → ℕ → State → Option (ℕ × State)
  pub dealloc : ℕ → State → State
  pub default_empty : (i : ℕ) → is_free default i ≡ false
  pub insert_range :
      (start end : ℕ) (s : State) (i : ℕ)
      → is_free (insert start end s) i ≡ (if leb start i && ltb i end then true else is_free s i)
  pub alloc_some :
      (s : State) (i : ℕ) (t : State)
      → alloc s ≡ some (i, t)
      → (is_free s i ≡ true) × ((j : ℕ) → is_free t j ≡ (if i == j then false else is_free s j))
  pub alloc_none : (s : State) (i : ℕ) → alloc s ≡ none → is_free s i ≡ false
  pub alloc_contiguous_some :
      (n k : ℕ) (s : State) (i : ℕ) (t : State)
      → alloc_contiguous n k s ≡ some (i, t)
      → ((j : ℕ) → i ≤ j → j < i + n → is_free s j ≡ true)
        × ((j : ℕ) → is_free t j ≡ (if leb i j && ltb j (i + n) then false else is_free s j))
  pub dealloc_used :
      (i : ℕ) (s : State)
      → is_free s i ≡ false
      → (j : ℕ) → is_free (dealloc i s) j ≡ (if i == j then true else is_free s j)
