-- ===== src/Tests/BitSet.antt =====
-- A bitmap of frames by a function and a bound: an instance of the allocator crate's interface.
use sys_hyper.Base.{
  ℕ, zero, suc, ◌+◌, ◌-◌, ◌%◌, ◌^◌, ◌≤◌, ◌<◌, ◌≡◌, sym, Bool, true, false, ◌&&◌, leb, ltb, ◌==◌,
  if◌then◌else◌, Option, none, some, Bool-cases, inl, inr, arith, max,
}
use sys_hyper.Memory.Frame.Bitmap.{BitAlloc}

pub record BitSet : Type 0 where
  pub bits : ℕ → Bool
  pub bound : ℕ

abbrev pub is_free : BitSet → ℕ → Bool
is_free s i = ltb i s.bound && s.bits i

abbrev pub find : (ℕ → Bool) → ℕ → Option ℕ
find f zero = none
find f (suc n) = if f n then some n else find f n

abbrev mark : Bool → ℕ → BitSet → BitSet
mark b i s = record { bits = λ j. if i == j then b else is_free s j; bound = max s.bound (suc i) }

abbrev mark_range : Bool → ℕ → ℕ → BitSet → BitSet
mark_range b i n s = record {
  bits = λ j. if leb i j && ltb j (i + n) then b else is_free s j;
  bound = max s.bound (i + n);
}

-- The `n` bits from `i` are free.
abbrev run : BitSet → ℕ → ℕ → Bool
run s i zero = true
run s i (suc n) = is_free s i && run s (suc i) n

abbrev Found : (ℕ → Bool) → ℕ → Option ℕ → Type 0
Found f n none = (i : ℕ) → i < n → f i ≡ false
Found f n (some i) = (i < n) × (f i ≡ true)

pub find-Found : (f : ℕ → Bool) (n : ℕ) → Found f n (find f n)
find-Found f zero = λ i h. elim h [ ]
find-Found f (suc n) = elim (Bool-cases (f n)) [
  | inl free ↦ rw free (omega arith, free)
  | inr used ↦ rw used (widen (find f n) (find-Found f n) used)
]
  where
    at_end : (i : ℕ) → i < suc n → f n ≡ false → ((j : ℕ) → j < n → f j ≡ false) → f i ≡ false
    at_end i lt last h = elim (Bool-cases (i == n)) [
      | inl e ↦ let d : i ≡ n = ground arith in rw d last
      | inr e ↦ h i (ground arith)
    ]

    widen : (r : Option ℕ) → Found f n r → (f n ≡ false) → Found f (suc n) r
    widen none h last = λ i lt. at_end i lt last h
    widen (some i) (lt, h) last = (omega arith, h)

abbrev take_found : BitSet → Option ℕ → Option (ℕ × BitSet)
take_found s none = none
take_found s (some i) = some (i, mark false i s)

abbrev pub alloc : BitSet → Option (ℕ × BitSet)
alloc s = take_found s (find s.bits s.bound)

abbrev take_run : BitSet → ℕ → Option ℕ → Option (ℕ × BitSet)
take_run s n none = none
take_run s n (some i) = some (i, mark_range false i n s)

abbrev pub alloc_contiguous : ℕ → ℕ → BitSet → Option (ℕ × BitSet)
alloc_contiguous n k s = take_run s n (find (λ i. (i % 2 ^ k == 0) && run s i n) s.bound)

module _ (s : BitSet) where
  pub alloc_some :
      (r : Option ℕ) (i : ℕ) (t : BitSet)
      → Found s.bits s.bound r
      → take_found s r ≡ some (i, t)
      → (is_free s i ≡ true) × ((j : ℕ) → is_free t j ≡ (if i == j then false else is_free s j))
  alloc_some none i t f h = cc h
  alloc_some (some k) i t f h =
      let p : k ≡ i = cc h in
      let q : mark false k s ≡ t = cc h in rw (sym q, sym p) (ground arith, λ j. ground arith)

  pub alloc_none :
      (r : Option ℕ)
      → Found s.bits s.bound r
      → take_found s r ≡ none
      → (i : ℕ) → is_free s i ≡ false
  alloc_none none f h i = ground (arith, f i)
  alloc_none (some k) f h i = cc h

  run-free : (n i : ℕ) → run s i n ≡ true → (j : ℕ) → i ≤ j → j < i + n → is_free s j ≡ true
  run-free zero i h j le lt = absurd (omega arith)
  run-free (suc n) i h j le lt = elim (Bool-cases (i == j)) [
    | inl e ↦ let d : i ≡ j = ground arith in rw (sym d) (ground arith)
    | inr e ↦ run-free n (suc i) (ground arith) j (ground arith) (omega arith)
  ]

  pub alloc_contiguous_some :
      (n k : ℕ) (r : Option ℕ) (i : ℕ) (t : BitSet)
      → Found (λ i. (i % 2 ^ k == 0) && run s i n) s.bound r
      → take_run s n r ≡ some (i, t)
      → ((j : ℕ) → i ≤ j → j < i + n → is_free s j ≡ true)
        × ((j : ℕ) → is_free t j ≡ (if leb i j && ltb j (i + n) then false else is_free s j))
  alloc_contiguous_some n k none i t f h = cc h
  alloc_contiguous_some n k (some i') i t f h =
      let p : i' ≡ i = cc h in
      let q : mark_range false i' n s ≡ t = cc h in
      rw (sym q, sym p) (λ j le lt. run-free n i' (ground arith) j le lt, λ j. ground arith)

unfoldable pub bit_set : BitAlloc BitSet
bit_set = record {
  is_free = is_free;
  default = record { bits = λ i. false; bound = 0 };
  insert = λ start end s. mark_range true start (end - start) s;
  alloc = alloc;
  alloc_contiguous = alloc_contiguous;
  dealloc = mark true;
  default_empty = λ i. ground arith;
  insert_range = λ start end s i. ground arith;
  alloc_some = λ s i t h. alloc_some s (find s.bits s.bound) i t (find-Found s.bits s.bound) h;
  alloc_none = λ s i h. alloc_none s (find s.bits s.bound) (find-Found s.bits s.bound) h i;
  alloc_contiguous_some = λ n k s i t h.
      alloc_contiguous_some s n k (find (λ i. (i % 2 ^ k == 0) && run s i n) s.bound) i t
        (find-Found (λ i. (i % 2 ^ k == 0) && run s i n) s.bound) h;
  dealloc_used = λ i s h j. ground arith;
}
