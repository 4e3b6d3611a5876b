-- ===== src/Virtio/Irqs.antt =====
-- The interrupts that wait for a CPU (`VIRTIO_IRQS` of src/device/virtio_trampoline.rs): one entry of
-- the map, an array of five words with the number of interrupts first. `hv_virtio_inject_irq` of
-- src/hypercall/mod.rs adds to it, and `handle_virtio_irq` (Machine.Interrupts)
-- injects them and empties it.
use sys_hyper.Base.{
  ℕ, zero, suc, ◌+◌, ◌<◌, ◌≤◌, ◌≡◌, refl, ap, Bool, true, false, ◌==◌, ◌||◌, leb, ltb,
  if◌then◌else◌, Bool-cases, inl, inr, Option, none, some, List, [], ◌∷◌, ◌++◌, length, take,
  replicate, set, length-set, arith, le→leb, ltb→le,
}
use sys_hyper.Base.Panics.{◌>>=◌, ◌>>◌, assert}

abbrev pub max_devs : ℕ
max_devs = 4

abbrev pub no_irqs : List ℕ
no_irqs = replicate (max_devs + 1) 0

abbrev pub contains : List ℕ → ℕ → Bool
contains [] x = false
contains (y ∷ ys) x = y == x || contains ys x

-- `irq_list[1..=irq_list[0]]`; `none` is the panic of a range that ends past the array.
unfoldable pub waiting : List ℕ → Option (List ℕ)
waiting [] = none
waiting (len ∷ irqs) = if leb len (length irqs) then some (take len irqs) else none

-- The array with one interrupt more, for one that is not in it.
unfoldable pub append_irq : ℕ → List ℕ → Option (List ℕ)
append_irq irq_id [] = none
append_irq irq_id (len ∷ irqs) = do
  assert (ltb (len + 1) max_devs)
  some ((len + 1) ∷ set irqs len irq_id)

-- The body of the `while`, for the array of the target CPU: the array, and whether an event is sent.
unfoldable pub add_irq : ℕ → List ℕ → Option (List ℕ × Bool)
unfolding waiting append_irq
add_irq irq_id irq_list = do
  irqs ← waiting irq_list
  if contains irqs irq_id
      then some (irq_list, false)
      else do l ← append_irq irq_id irq_list; some (l, true)

-- The array as `handle_virtio_irq` reads it, and as it leaves it: the interrupts that it injects in
-- between, in order, and the array with none. The whole handler is Machine.Interrupts.handle_virtio_irq.
unfoldable pub take_waiting : List ℕ → Option (List ℕ × List ℕ)
unfolding waiting
take_waiting irq_list = do irqs ← waiting irq_list; some (irqs, set irq_list 0 0)

-- An array with the interrupts `irqs` waiting.
pub record Waits (irq_list irqs : List ℕ) : Type 0 where
  pub size : length irq_list ≡ 5
  pub content : waiting irq_list ≡ some irqs

take-set : (xs : List ℕ) (n x : ℕ) → n < length xs → take (n + 1) (set xs n x) ≡ take n xs ++ x ∷ []
take-set [] n x h = elim h [ ]
take-set (y ∷ ys) zero x h = let o : 0 + 1 ≡ suc 0 = refl in refl
take-set (y ∷ ys) (suc n) x h =
    let o : suc n + 1 ≡ suc (n + 1) = omega arith in rw (o, take-set ys n x (omega arith)) refl

length-take : (xs : List ℕ) (n : ℕ) → n ≤ length xs → length (take n xs) ≡ n
length-take xs zero h = refl
length-take [] (suc n) h = elim h [ ]
length-take (x ∷ xs) (suc n) h = ap suc (length-take xs n (omega arith))

-- What adding an interrupt gives. A panic needs three other interrupts waiting.
abbrev pub Adds : ℕ → List ℕ → Option (List ℕ × Bool) → Type 0
Adds irq_id irqs none = (contains irqs irq_id ≡ false) × (3 ≤ length irqs)
Adds irq_id irqs (some (l, sent)) =
    if contains irqs irq_id
    then Waits l irqs × (sent ≡ false)
    else Waits l (irqs ++ irq_id ∷ []) × (sent ≡ true)

module _ (irq_id len : ℕ) (xs : List ℕ) (l : length xs ≡ 4) where
  appended : len < 3 → Waits ((len + 1) ∷ set xs len irq_id) (take len xs ++ irq_id ∷ [])
  unfolding waiting
  appended lt = record {
    size = omega (arith, length-set xs len irq_id);
    content =
        rw
          (
            le→leb (len + 1) (length (set xs len irq_id)) (omega (arith, length-set xs len irq_id)),
            take-set xs len irq_id (omega arith),
          )
          refl;
  }

  -- On an array of five words with at most four interrupts: an interrupt that waits already changes
  -- nothing, and no event is sent; another is put behind those that wait, in order, and an event is
  -- sent; and it panics only if three others wait.
  pub add_irq-Adds : len ≤ 4 → Adds irq_id (take len xs) (add_irq irq_id (len ∷ xs))
  unfolding add_irq waiting append_irq
  add_irq-Adds le =
      let fits = le→leb len (length xs) (omega arith) in
      elim (Bool-cases (contains (take len xs) irq_id)) [
        | inl there ↦
            rw (fits, there)
              (rw there (record { size = omega arith; content = rw fits refl }, refl))
        | inr new ↦ elim (Bool-cases (ltb (len + 1) 4)) [
          | inl room ↦ rw (fits, new, room) (rw new (appended (ground arith), refl))
          | inr none_left ↦
              rw (fits, new, none_left)
                (new, omega (arith, length-take xs len (omega arith), ltb→le (len + 1) 4 none_left))
        ]
      ]
