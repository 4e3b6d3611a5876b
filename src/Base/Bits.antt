-- ===== src/Base/Bits.antt =====
-- Bits of machine words: `test_bit x i` is bit i of x, and each bitwise operation is read through it.
mod Step
pub mod Mask
pub mod Shift
use Step.{bit_or_step, bit_and_step}
use Prim.Native.Nat.{
  ℕ, zero, suc, ◌+◌, ◌-◌, ◌*◌, ◌/◌, ◌%◌, ◌^◌, ◌≤◌, ◌<◌, min, max, bit_and, bit_or, bit_and-bitwise,
}
use mathlib.Core.Path.{◌≡◌, refl, ap, ◌∙◌}
use mathlib.Core.Bool.{Bool, true, false, not, ◌&&◌, ◌||◌}
use native.Mathlib.Omega.{arith}
use native.Mathlib.Nat.{pow-suc, one-le-pow}
use sys_hyper.Base.Tests.{◌==◌, ltb}
pub use Step.{bit_or_step, bit_and_step}

unfoldable pub test_bit : ℕ → ℕ → Bool
test_bit x zero = x % 2 == 1
test_bit x (suc i) = test_bit (x / 2) i

-- `!x` on `w` bits.
unfoldable pub bit_not : ℕ → ℕ → ℕ
bit_not w x = 2 ^ w - 1 - x

pub two_pow-lt : (i w : ℕ) → i < w → 2 ^ i < 2 ^ w
two_pow-lt i zero h = elim h [ ]
two_pow-lt zero (suc w) h = omega (arith, pow-suc 2 w, one-le-pow w 2 (omega arith))
two_pow-lt (suc i) (suc w) h = omega (arith, pow-suc 2 i, pow-suc 2 w, two_pow-lt i w (omega arith))

parity_and : (a b : ℕ) → (min (a % 2) (b % 2) == 1) ≡ ((a % 2 == 1) && (b % 2 == 1))
parity_and a b = ground arith

parity_or : (a b : ℕ) → (max (a % 2) (b % 2) == 1) ≡ ((a % 2 == 1) || (b % 2 == 1))
parity_or a b = ground arith

pub test_bit-bit_and : (x y i : ℕ) → test_bit (bit_and x y) i ≡ (test_bit x i && test_bit y i)
unfolding test_bit
test_bit-bit_and x y zero =
    let e : bit_and x y % 2 ≡ min (x % 2) (y % 2) = omega (arith, bit_and_step x y) in
    rw e (parity_and x y)
test_bit-bit_and x y (suc i) =
    let e : bit_and x y / 2 ≡ bit_and (x / 2) (y / 2) = omega (arith, bit_and_step x y) in
    rw e (test_bit-bit_and (x / 2) (y / 2) i)

pub test_bit-bit_or : (x y i : ℕ) → test_bit (bit_or x y) i ≡ (test_bit x i || test_bit y i)
unfolding test_bit
test_bit-bit_or x y zero =
    let e : bit_or x y % 2 ≡ max (x % 2) (y % 2) = omega (arith, bit_or_step x y) in
    rw e (parity_or x y)
test_bit-bit_or x y (suc i) =
    let e : bit_or x y / 2 ≡ bit_or (x / 2) (y / 2) = omega (arith, bit_or_step x y) in
    rw e (test_bit-bit_or (x / 2) (y / 2) i)

pub test_bit-zero : (i : ℕ) → test_bit 0 i ≡ false
unfolding test_bit
test_bit-zero zero = refl
test_bit-zero (suc i) = test_bit-zero i

pub test_bit-pow : (k i : ℕ) → test_bit (2 ^ k) i ≡ (k == i)
unfolding test_bit
test_bit-pow zero zero = refl
test_bit-pow zero (suc i) = test_bit-zero i ∙ ground arith
test_bit-pow (suc k) zero =
    let e : 2 ^ suc k % 2 ≡ 0 = omega (arith, pow-suc 2 k) in rw e (ground arith)
test_bit-pow (suc k) (suc i) =
    let e : 2 ^ suc k / 2 ≡ 2 ^ k = omega (arith, pow-suc 2 k) in
    rw e (test_bit-pow k i ∙ ground arith)

pub test_bit-bit_not :
    (w x i : ℕ) → x < 2 ^ w → i < w → test_bit (bit_not w x) i ≡ not (test_bit x i)
unfolding test_bit bit_not
test_bit-bit_not zero x i h lt = elim lt [ ]
test_bit-bit_not (suc w) x zero h lt =
    let p = one-le-pow w 2 (omega arith) in
    let e : (2 ^ suc w - 1 - x) % 2 ≡ 1 - x % 2 = omega (arith, pow-suc 2 w) in rw e (ground arith)
test_bit-bit_not (suc w) x (suc i) h lt =
    let e : (2 ^ suc w - 1 - x) / 2 ≡ 2 ^ w - 1 - x / 2 = omega (arith, pow-suc 2 w) in
    rw e (test_bit-bit_not w (x / 2) i (omega (arith, pow-suc 2 w)) (omega arith))

double_zero : (a : ℕ) → (a * 2 == 0) ≡ (a == 0)
double_zero a = ground arith

-- `(x & (1 << k)) != 0` reads bit k.
pub bit_and-pow : (x k : ℕ) → (bit_and x (2 ^ k) == 0) ≡ not (test_bit x k)
unfolding test_bit
bit_and-pow x zero = ground (arith, bit_and_step x 1, Mask.bit_and-zero (x / 2))
bit_and-pow x (suc k) =
    let d : 2 ^ suc k ≡ 2 ^ k * 2 = pow-suc 2 k in
    let e : bit_and x (2 ^ suc k) ≡ bit_and (x / 2) (2 ^ k) * 2 =
      bit_and_step x (2 ^ suc k) ∙ rw (d, Mask.half_double (2 ^ k)) (omega arith) in
    rw e (double_zero (bit_and (x / 2) (2 ^ k)) ∙ bit_and-pow (x / 2) k)

-- A word above every bit that is set in it.
pub test_bit_above : (x w i : ℕ) → x < 2 ^ w → w ≤ i → test_bit x i ≡ false
unfolding test_bit
test_bit_above x zero i h le = let e : x ≡ 0 = omega arith in rw e (test_bit-zero i)
test_bit_above x (suc w) zero h le = elim le [ ]
test_bit_above x (suc w) (suc i) h le =
    test_bit_above (x / 2) w i (omega (arith, pow-suc 2 w)) (omega arith)

-- Words with the same bits are equal.
pub eq_of_test_bit :
    (w x y : ℕ) → x < 2 ^ w → y < 2 ^ w → ((i : ℕ) → test_bit x i ≡ test_bit y i) → x ≡ y
unfolding test_bit
eq_of_test_bit zero x y hx hy h = omega arith
eq_of_test_bit (suc w) x y hx hy h =
    let half : x / 2 ≡ y / 2 =
      eq_of_test_bit w (x / 2) (y / 2) (omega (arith, pow-suc 2 w)) (omega (arith, pow-suc 2 w))
        (λ i. h (suc i)) in
    let low : x % 2 ≡ y % 2 = ground (arith, h 0) in omega arith

zero-bit_and : (y : ℕ) → bit_and 0 y ≡ 0
zero-bit_and y = bit_and-bitwise 0 y

pub bit_and-lt : (w x y : ℕ) → x < 2 ^ w → bit_and x y < 2 ^ w
bit_and-lt zero x y h = let e : x ≡ 0 = omega arith in rw (e, zero-bit_and y) (omega arith)
bit_and-lt (suc w) x y h = omega (
  arith,
  bit_and_step x y,
  pow-suc 2 w,
  bit_and-lt w (x / 2) (y / 2) (omega (arith, pow-suc 2 w)),
)

pub bit_or-lt : (w x y : ℕ) → x < 2 ^ w → y < 2 ^ w → bit_or x y < 2 ^ w
bit_or-lt zero x y h g =
    let e : x ≡ 0 = omega arith in let f : y ≡ 0 = omega arith in rw (e, f) (omega arith)
bit_or-lt (suc w) x y h g = omega (
  arith,
  bit_or_step x y,
  pow-suc 2 w,
  bit_or-lt w (x / 2) (y / 2) (omega (arith, pow-suc 2 w)) (omega (arith, pow-suc 2 w)),
)
