-- ===== src/Memory/Frame/Alloc.antt =====
-- What the allocation of a zeroed frame does to physical memory (src/memory/frame.rs).
use sys_hyper.Base.{
  ℕ, ◌+◌, ◌*◌, ◌%◌, ◌^◌, ◌<◌, ◌≡◌, ◌≢◌, refl, true, false, ◌==◌, if◌then◌else◌, Option-cases,
  Bool-cases, ap, ◌∙◌, inl, inr, some, arith, lt→ltb,
}
use sys_hyper.Base.Run.{Run, ok, err, panic, hang}
use sys_hyper.Error.{HvErrorNum}
use sys_hyper.Memory.Frame.Bitmap.{BitAlloc}
use sys_hyper.Memory.Frame.{
  Frame, PhysMemory, new, new_zero, clear, fill, size, alloc, taken, set_inner, frame_address,
  frame_or_enomem,
}

module _ {State : Type 0} (B : BitAlloc State) where
  -- The pool is aligned, and its frames lie below 2^48.
  pub record IsReady (m : PhysMemory State) : Type 0 where
    pub aligned : m.allocator.base % 0x1000 ≡ 0
    pub below :
        (i : ℕ) → B.is_free m.allocator.inner i ≡ true → i * 0x1000 + m.allocator.base < 2 ^ 48

  -- The allocator does not own the frame at p.
  abbrev pub IsTaken : PhysMemory State → ℕ → Type 0
  IsTaken m p = (i : ℕ) → p ≡ i * 0x1000 + m.allocator.base → B.is_free m.allocator.inner i ≡ false

  -- `f` is a new zeroed frame: it was free, it is taken, and nothing else has changed.
  pub record IsFresh (m : PhysMemory State) (f : Frame) (n : PhysMemory State) : Type 0 where
    pub single : f.frame_count ≡ 1
    pub frame_aligned : f.start_paddr % 0x1000 ≡ 0
    pub frame_below : f.start_paddr < 2 ^ 48
    pub was_free : ¬ IsTaken m f.start_paddr
    pub now_taken : IsTaken n f.start_paddr
    pub others : (p : ℕ) → IsTaken m p → IsTaken n p
    pub same_base : n.allocator.base ≡ m.allocator.base
    pub same_owner :
        (i : ℕ)
        → (i * 0x1000 + m.allocator.base ≢ f.start_paddr)
        → B.is_free n.allocator.inner i ≡ B.is_free m.allocator.inner i
    pub zeroed : (i : ℕ) → n.word f.start_paddr i ≡ 0
    pub kept : (p i : ℕ) → p % 0x1000 ≡ 0 → p ≢ f.start_paddr → n.word p i ≡ m.word p i
    pub ready : IsReady n

  abbrev pub Allocates : PhysMemory State → Run HvErrorNum (PhysMemory State) Frame → Type 0
  Allocates m (ok f n) = IsFresh m f n
  Allocates m (err e n) =
      (e ≡ HvErrorNum.enomem) × (n ≡ m) × ((i : ℕ) → B.is_free m.allocator.inner i ≡ false)
  Allocates m panic = ⊥
  Allocates m hang = ⊥

  module _ (m : PhysMemory State) (r : IsReady m) (idx : ℕ) (t : State)
      (e : B.alloc m.allocator.inner ≡ some (idx, t)) where
    new_zero-IsFresh : Allocates m (new_zero B m)
    unfolding new_zero new clear fill size alloc taken set_inner frame_address frame_or_enomem
    new_zero-IsFresh =
        rw (e, lt→ltb (idx * 0x1000 + m.allocator.base) (2 ^ 64) (omega (arith, below)))
          record {
            single = refl;
            frame_aligned = omega arith;
            frame_below = below;
            was_free = λ h. cc (h idx refl, (B.alloc_some m.allocator.inner idx t e).0);
            now_taken = λ i h. ground (arith, marks i);
            others = λ p h i q. ground (arith, marks i, h i q);
            same_base = refl;
            same_owner =
                λ i ne. let apart : (idx == i) ≡ false = other i ne in marks i ∙ rw apart refl;
            zeroed = λ i. ground arith;
            kept = λ p i a ne. ground arith;
            ready = record {
              aligned = r.aligned;
              below = λ i h. r.below i (ground (arith, marks i));
            };
          }
      where
        marks :
            (j : ℕ) → B.is_free t j ≡ (if idx == j then false else B.is_free m.allocator.inner j)
        marks = (B.alloc_some m.allocator.inner idx t e).1

        other :
            (i : ℕ)
            → (i * 0x1000 + m.allocator.base ≢ idx * 0x1000 + m.allocator.base)
            → (idx == i) ≡ false
        other i ne = elim (Bool-cases (idx == i)) [
          | inl same ↦
              let q : i ≡ idx = ground arith in
              absurd (ne (ap (λ (x : ℕ). x * 0x1000 + m.allocator.base) q))
          | inr apart ↦ apart
        ]

        below : idx * 0x1000 + m.allocator.base < 2 ^ 48
        below = r.below idx ((B.alloc_some m.allocator.inner idx t e).0)

  -- On a pool with an aligned base and its free frames below 2^48, `new_zero` neither panics nor hangs.
  -- It gives a frame that was free and is not any more, aligned, below 2^48, with zeros in all of its
  -- words, and keeps the words of all other frames; every other frame of the pool is free if and only
  -- if it was. Or no frame is free, and it fails with ENOMEM and changes nothing.
  pub new_zero-Allocates : (m : PhysMemory State) → IsReady m → Allocates m (new_zero B m)
  unfolding new_zero new alloc taken frame_or_enomem
  new_zero-Allocates m r = elim (Option-cases (B.alloc m.allocator.inner)) [
    | inl e ↦ rw e (refl, refl, λ i. B.alloc_none m.allocator.inner i e)
    | inr (got, e) ↦ new_zero-IsFresh m r got.0 got.1 e
  ]
