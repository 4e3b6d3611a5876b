-- ===== src/Irqchip/Vgic/Bitmap.antt =====
-- The bitmap of a zone's interrupts (`irq_bitmap` of src/zone.rs), and the mask that
-- `restrict_bitmask_access` of src/device/irqchip/gicv3/vgic.rs makes of it.
use sys_hyper.Base.{
  ℕ, zero, suc, ◌+◌, ◌-◌, ◌*◌, ◌/◌, ◌%◌, ◌^◌, ◌<◌, ◌≡◌, refl, sym, ◌∙◌, ap, Bool, true, false, not,
  ◌||◌, ◌==◌, ltb, if◌then◌else◌, Bool-cases, inl, inr, Option, none, some, List, [], ◌∷◌,
  get_elem?, set, get_elem?-lt, get_elem?-set_self, get_elem?-set_ne, length, length-set, bit_and,
  bit_or, arith, lt→ltb,
}
use sys_hyper.Base.Bits.{test_bit, test_bit-bit_or, test_bit-pow, bit_and-pow}
use sys_hyper.Base.Panics.{◌>>=◌, ◌>>◌, assert}

-- `irq_in_zone` of src/zone.rs; `none` is the panic of an index out of range.
unfoldable pub irq_in_zone : List ℕ → ℕ → Option Bool
irq_in_zone irq_bitmap irq_id = do
  word ← get_elem? irq_bitmap (irq_id / 32)
  some (not (bit_and word (2 ^ (irq_id % 32)) == 0))

unfoldable pub insert_irq_to_bitmap : ℕ → List ℕ → Option (List ℕ)
insert_irq_to_bitmap irq irq_bitmap = do
  assert (ltb irq 1024)
  word ← get_elem? irq_bitmap (irq / 32)
  some (set irq_bitmap (irq / 32) (bit_or word (2 ^ (irq % 32))))

-- Its first loop: the second only logs.
unfoldable pub irq_bitmap_init : List ℕ → List ℕ → Option (List ℕ)
unfolding insert_irq_to_bitmap
irq_bitmap_init [] irq_bitmap = some irq_bitmap
irq_bitmap_init (irq ∷ irqs) irq_bitmap = do
  b ← insert_irq_to_bitmap irq irq_bitmap
  irq_bitmap_init irqs b

-- The loop over the interrupts of a register, at interrupt `irq` with `n` to go.
unfoldable pub mask_loop : List ℕ → ℕ → ℕ → ℕ → ℕ → ℕ → Option ℕ
unfolding irq_in_zone
mask_loop irq_bitmap bits first_irq irq zero mask = some mask
mask_loop irq_bitmap bits first_irq irq (suc n) mask = do
  b ← irq_in_zone irq_bitmap ((first_irq + irq) % 2 ^ 32)
  mask_loop irq_bitmap bits first_irq (irq + 1) n
      (if b then bit_or mask ((2 ^ bits - 1) * 2 ^ (irq * bits)) else mask)

-- The mask of the register `reg_index`, with `bits` bits for each interrupt.
unfoldable pub access_mask : List ℕ → ℕ → ℕ → Option ℕ
unfolding mask_loop
access_mask irq_bitmap reg_index bits =
    mask_loop irq_bitmap bits (reg_index * (32 / bits)) 0 (32 / bits) 0

abbrev pub word_owns : Option ℕ → ℕ → Bool
word_owns none irq = false
word_owns (some word) irq = test_bit word (irq % 32)

-- Interrupt `irq` is one of the zone's.
abbrev pub owns : List ℕ → ℕ → Bool
owns irq_bitmap irq = word_owns (get_elem? irq_bitmap (irq / 32)) irq

pub irq_in_zone-owns :
    (b : List ℕ) (irq : ℕ) → length b ≡ 32 → irq < 1024 → irq_in_zone b irq ≡ some (owns b irq)
unfolding irq_in_zone
irq_in_zone-owns b irq l lt =
    let (word, e) = get_elem?-lt b (irq / 32) (omega arith) in
    rw (e, bit_and-pow word (irq % 32)) (ground arith)

-- What an insertion does to the bitmap.
abbrev pub Inserts : List ℕ → ℕ → Option (List ℕ) → Type 0
Inserts b irq none = ⊥
Inserts b irq (some b') =
    (length b' ≡ 32) × ((j : ℕ) → j < 1024 → owns b' j ≡ (if j == irq then true else owns b j))

pub insert_irq_to_bitmap-Inserts :
    (b : List ℕ) (irq : ℕ) → length b ≡ 32 → irq < 1024 → Inserts b irq (insert_irq_to_bitmap irq b)
unfolding insert_irq_to_bitmap
insert_irq_to_bitmap-Inserts b irq l lt =
    let (word, e) = get_elem?-lt b (irq / 32) (omega arith) in
    rw (lt→ltb irq 1024 lt, e)
      (
        length-set b (irq / 32) _ ∙ l,
        λ j small. elim (Bool-cases (irq / 32 == j / 32)) [
          | inl same ↦
              let d : irq / 32 ≡ j / 32 = ground arith in
              let word' = bit_or word (2 ^ (irq % 32)) in
              let at : get_elem? (set b (irq / 32) word') (j / 32) ≡ some word' =
                ap (get_elem? (set b (irq / 32) word')) (sym d)
                ∙ get_elem?-set_self b (irq / 32) word' (omega arith) in
              let before : get_elem? b (j / 32) ≡ some word = ap (get_elem? b) (sym d) ∙ e in
              rw
                (
                  at,
                  before,
                  test_bit-bit_or word (2 ^ (irq % 32)) (j % 32),
                  test_bit-pow (irq % 32) (j % 32),
                )
                (ground arith)
          | inr other ↦
              rw
                (get_elem?-set_ne b (irq / 32) (j / 32) (bit_or word (2 ^ (irq % 32)))
                  (ground arith))
                (ground arith)
        ],
      )

-- The bitmap of a zone owns the interrupts that it is made of, and no others.
abbrev pub has : List ℕ → ℕ → Bool
has [] j = false
has (x ∷ xs) j = x == j || has xs j

abbrev pub AllBelow : List ℕ → Type 0
AllBelow [] = Unit
AllBelow (x ∷ xs) = (x < 1024) × AllBelow xs

abbrev pub Initialises : List ℕ → List ℕ → Option (List ℕ) → Type 0
Initialises irqs b none = ⊥
Initialises irqs b (some b') =
    (length b' ≡ 32) × ((j : ℕ) → j < 1024 → owns b' j ≡ (has irqs j || owns b j))

combine :
    (irq : ℕ) (irqs b b' : List ℕ)
    → Inserts b irq (some b')
    → (r : Option (List ℕ)) → Initialises irqs b' r
    → Initialises (irq ∷ irqs) b r
combine irq irqs b b' i none h = h
combine irq irqs b b' (l, owned) (some b2) (l2, owned2) =
    (l2, λ j small. owned2 j small ∙ rw (owned j small) (ground arith))

initialise_rest :
    (irq : ℕ) (irqs b : List ℕ) (r : Option (List ℕ))
    → Inserts b irq r
    → ((b' : List ℕ) → length b' ≡ 32 → Initialises irqs b' (irq_bitmap_init irqs b'))
    → Initialises (irq ∷ irqs) b (r >>= irq_bitmap_init irqs)
initialise_rest irq irqs b none i ih = i
initialise_rest irq irqs b (some b') i ih =
    combine irq irqs b b' i (irq_bitmap_init irqs b') (ih b' i.0)

-- `irq_bitmap_init` of interrupts below 1024, on a bitmap of 32 words, does not panic; a zone then
-- owns these interrupts and those that it owned before.
pub irq_bitmap_init-Initialises :
    (irqs b : List ℕ) → AllBelow irqs → length b ≡ 32 → Initialises irqs b (irq_bitmap_init irqs b)
unfolding irq_bitmap_init
irq_bitmap_init-Initialises [] b a l = (l, λ j small. refl)
irq_bitmap_init-Initialises (irq ∷ irqs) b (lt, a) l =
    initialise_rest irq irqs b (insert_irq_to_bitmap irq b)
      (insert_irq_to_bitmap-Inserts b irq l lt) (λ b' l'. irq_bitmap_init-Initialises irqs b' a l')
