-- ===== src/Base/Bits/Step.antt =====
-- One binary digit of `|` and `&`: the library defines them by a recursion that is given fuel.
use Prim.Native.Nat.{
  ℕ, zero, suc, ◌+◌, ◌-◌, ◌*◌, ◌/◌, ◌%◌, ◌≤◌, min, max, bit_and, bit_or, digits, bitwise,
  bit_and-bitwise, bit_or-bitwise,
}
use mathlib.Core.Path.{◌≡◌, refl, ◌∙◌, ap}
use native.Mathlib.Omega.{arith}

-- Fuel beyond the first word is not used.
spare :
    (low : ℕ → ℕ) (op : ℕ → ℕ → ℕ) (fuel x y : ℕ)
    → x ≤ fuel
    → digits low op (suc fuel) x y ≡ digits low op fuel x y
spare low op zero zero y h = refl
spare low op (suc fuel) zero y h = refl
spare low op zero (suc x) y h = elim h [ ]
spare low op (suc fuel) (suc x) y h =
    let half = spare low op fuel (suc x / 2) (y / 2) (omega arith) in rw half refl

exact :
    (low : ℕ → ℕ) (op : ℕ → ℕ → ℕ) (extra fuel x y : ℕ)
    → x + extra ≡ fuel
    → digits low op fuel x y ≡ digits low op x x y
exact low op zero fuel x y h = let same : fuel ≡ x = omega arith in rw same refl
exact low op (suc extra) zero x y h = absurd (omega arith)
exact low op (suc extra) (suc fuel) x y h =
    spare low op fuel x y (omega arith) ∙ exact low op extra fuel x y (omega arith)

lowest_digit :
    (low : ℕ → ℕ) (op : ℕ → ℕ → ℕ) (x y : ℕ)
    → bitwise low op (suc x) y ≡ bitwise low op (suc x / 2) (y / 2) * 2 + op (suc x % 2) (y % 2)
lowest_digit low op x y =
    let rest = exact low op (x - suc x / 2) x (suc x / 2) (y / 2) (omega arith) in
    ap (λ (t : ℕ). t * 2 + op (suc x % 2) (y % 2)) rest

pub bit_and_step : (x y : ℕ) → bit_and x y ≡ bit_and (x / 2) (y / 2) * 2 + min (x % 2) (y % 2)
bit_and_step zero = λ y. simp bit_and-bitwise (omega arith)
bit_and_step (suc x) = λ y. simp bit_and-bitwise (lowest_digit (λ t. 0) min x y)

pub bit_or_step : (x y : ℕ) → bit_or x y ≡ bit_or (x / 2) (y / 2) * 2 + max (x % 2) (y % 2)
bit_or_step zero = λ y. simp bit_or-bitwise (omega arith)
bit_or_step (suc x) = λ y. simp bit_or-bitwise (lowest_digit (λ t. t) max x y)
