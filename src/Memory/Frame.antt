-- ===== src/Memory/Frame.antt =====
-- src/memory/frame.rs. Physical memory is the words of page frames: `word p i` is the i-th 64-bit
-- word of the frame at `p`. The bitmap is the crate bitmap_allocator's (`Frame.Bitmap`).
pub mod Bitmap
pub mod Alloc
use sys_hyper.Base.{
  ℕ, zero, suc, ◌+◌, ◌-◌, ◌*◌, ◌/◌, ◌%◌, ◌^◌, ltb, leb, ◌==◌, ◌&&◌, if◌then◌else◌, Option, none,
  some,
}
use sys_hyper.Base.Run.{
  M, Run, ok, err, panic, ◌>>=◌, ◌>>◌, pure, fail, assert, checked_add, checked_sub, get, put,
}
use sys_hyper.Error.{HvErrorNum}
use sys_hyper.Memory.Addr.{page_size, align_up, align_down, is_aligned}
use Bitmap.{BitAlloc}

pub record Frame : Type 0 where
  pub start_paddr : ℕ
  pub frame_count : ℕ

pub record FrameAllocator (State : Type 0) : Type 0 where
  pub base : ℕ
  pub inner : State

-- Physical memory and the static `FRAME_ALLOCATOR`, on which every operation below works.
pub record PhysMemory (State : Type 0) : Type 0 where
  pub word : ℕ → ℕ → ℕ
  pub allocator : FrameAllocator State

-- `Frame::size`
unfoldable pub size : Frame → ℕ
size f = f.frame_count * page_size

module _ {State : Type 0} (B : BitAlloc State) where
  abbrev pub FrameM : Type 0 → Type 0
  FrameM A = M HvErrorNum (PhysMemory State) A

  set_inner : State → FrameM (Unit {0})
  set_inner t = do m ← get; put (record m { allocator = record (m.allocator) { inner = t } })

  -- `map(|idx| idx * PAGE_SIZE + self.base)`
  frame_address : ℕ → FrameM ℕ
  frame_address idx = do m ← get; checked_add (idx * page_size) (m.allocator.base)

  unfoldable pub init : ℕ → ℕ → FrameM (Unit {0})
  unfolding align_up
  init base size = do
    b ← align_up base
    n ← align_up size
    m ← get
    let pages = B.insert 0 (n / page_size) m.allocator.inner
    put (record m { allocator = record { base = b; inner = pages } })

  taken : Option (ℕ × State) → FrameM (Option ℕ)
  unfolding set_inner frame_address
  taken none = pure none
  taken (some (idx, t)) = do set_inner t; p ← frame_address idx; pure (some p)

  unfoldable pub alloc : FrameM (Option ℕ)
  unfolding taken
  alloc = do m ← get; taken (B.alloc m.allocator.inner)

  unfoldable pub alloc_contiguous : ℕ → ℕ → FrameM (Option ℕ)
  unfolding taken
  alloc_contiguous frame_count align_log2 = do
    m ← get
    taken (B.alloc_contiguous frame_count align_log2 m.allocator.inner)

  unfoldable pub dealloc : ℕ → FrameM (Unit {0})
  unfolding set_inner
  dealloc target = do
    m ← get
    d ← checked_sub target m.allocator.base
    set_inner (B.dealloc (d / page_size) m.allocator.inner)

  dealloc_range : ℕ → ℕ → FrameM (Unit {0})
  unfolding set_inner
  dealloc_range zero i = pure tt
  dealloc_range (suc n) i = do
    m ← get
    set_inner (B.dealloc i m.allocator.inner)
    dealloc_range n (i + 1)

  unfoldable pub dealloc_contiguous : ℕ → ℕ → FrameM (Unit {0})
  unfolding dealloc_range
  dealloc_contiguous target frame_count = do
    m ← get
    d ← checked_sub target m.allocator.base
    dealloc_range frame_count (d / page_size)

  -- `.map(|start_paddr| …).ok_or(hv_err!(ENOMEM))`
  frame_or_enomem : ℕ → Option ℕ → FrameM Frame
  frame_or_enomem n none = fail HvErrorNum.enomem
  frame_or_enomem n (some p) = pure (record { start_paddr = p; frame_count = n })

  unfoldable pub new : FrameM Frame
  unfolding alloc frame_or_enomem
  new = do p ← alloc; frame_or_enomem 1 p

  unfoldable pub fill : Frame → ℕ → FrameM (Unit {0})
  unfolding size
  fill f byte = do
    m ← get
    put (record m {
      word = λ p i.
          if leb f.start_paddr p && ltb p (f.start_paddr + size f)
          then byte * 0x0101_0101_0101_0101
          else m.word p i;
    })

  unfoldable pub clear : Frame → FrameM (Unit {0})
  unfolding fill
  clear f = fill f 0

  unfoldable pub new_zero : FrameM Frame
  unfolding new clear
  new_zero = do f ← new; clear f; pure f

  unfoldable pub new_contiguous : ℕ → ℕ → FrameM Frame
  unfolding alloc_contiguous frame_or_enomem
  new_contiguous frame_count align_log2 = do
    p ← alloc_contiguous frame_count align_log2
    frame_or_enomem frame_count p

  unfoldable pub from_paddr : ℕ → FrameM Frame
  unfolding is_aligned
  from_paddr start_paddr = do
    assert (is_aligned start_paddr)
    pure (record { start_paddr = start_paddr; frame_count = 0 })

  drop_count : ℕ → ℕ → FrameM (Unit {0})
  unfolding dealloc dealloc_contiguous
  drop_count zero p = pure tt
  drop_count (suc zero) p = dealloc p
  drop_count (suc (suc n)) p = dealloc_contiguous p (suc (suc n))

  unfoldable pub drop : Frame → FrameM (Unit {0})
  unfolding drop_count
  drop f = drop_count f.frame_count f.start_paddr
