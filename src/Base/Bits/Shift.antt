-- ===== src/Base/Bits/Shift.antt =====
-- The bits of shifted words and of runs of ones.
use Prim.Native.Nat.{ℕ, zero, suc, ◌-◌, ◌*◌, ◌/◌, ◌%◌, ◌^◌, ◌≤◌, ◌<◌}
use mathlib.Core.WellFounded
use sys_hyper.Base.Order.{lt_wf}
use mathlib.Core.Path.{◌≡◌, refl, ap, ◌∙◌}
use mathlib.Core.Bool.{false, ◌&&◌}
use native.Mathlib.Omega.{arith}
use native.Mathlib.Nat.{pow-suc, one-le-pow}
use sys_hyper.Base.Tests.{◌==◌, ltb, leb}
use sys_hyper.Base.Bits.{test_bit, test_bit-zero}

-- `m << k`
pub test_bit-shift : (k m i : ℕ) → test_bit (m * 2 ^ k) i ≡ (leb k i && test_bit m (i - k))
unfolding test_bit
test_bit-shift zero m i =
    let e : m * 2 ^ 0 ≡ m = omega arith in
    let d : i - 0 ≡ i = omega arith in rw (e, d) (ground arith)
test_bit-shift (suc k) m zero =
    let e : m * 2 ^ suc k % 2 ≡ 0 = omega (arith, ap (λ (t : ℕ). m * t) (pow-suc 2 k)) in
    rw e (ground arith)
test_bit-shift (suc k) m (suc i) =
    let e : m * 2 ^ suc k / 2 ≡ m * 2 ^ k = omega (arith, ap (λ (t : ℕ). m * t) (pow-suc 2 k)) in
    let d : suc i - suc k ≡ i - k = omega arith in rw (e, d, test_bit-shift k m i) (ground arith)

-- `(1 << n) - 1`
pub test_bit-ones : (n i : ℕ) → test_bit (2 ^ n - 1) i ≡ ltb i n
unfolding test_bit
test_bit-ones zero i = test_bit-zero i ∙ ground arith
test_bit-ones (suc n) zero =
    let p = one-le-pow n 2 (omega arith) in
    let e : (2 ^ suc n - 1) % 2 ≡ 1 = omega (arith, pow-suc 2 n) in rw e (ground arith)
test_bit-ones (suc n) (suc i) =
    let p = one-le-pow n 2 (omega arith) in
    let e : (2 ^ suc n - 1) / 2 ≡ 2 ^ n - 1 = omega (arith, pow-suc 2 n) in
    rw (e, test_bit-ones n i) (ground arith)

no_bits : (x : ℕ) → ((i : ℕ) → test_bit x i ≡ false) → x ≡ 0
unfolding test_bit
no_bits x h =
    WellFounded.induction lt_wf {C = λ x. ((i : ℕ) → test_bit x i ≡ false) → x ≡ 0} x step h
  where
    step :
        (n : ℕ)
        → ((m : ℕ) → m < n → ((i : ℕ) → test_bit m i ≡ false) → m ≡ 0)
        → ((i : ℕ) → test_bit n i ≡ false)
        → n ≡ 0
    step zero ih h = refl
    step (suc n) ih h =
        let low : (suc n % 2 == 1) ≡ false = h 0 in
        let half = ih (suc n / 2) (omega arith) (λ i. h (suc i)) in ground arith

-- A word with no bit from w on is below 2^w.
pub lt_of_test_bit : (w x : ℕ) → ((i : ℕ) → w ≤ i → test_bit x i ≡ false) → x < 2 ^ w
unfolding test_bit
lt_of_test_bit zero x h = let z = no_bits x (λ i. h i (omega arith)) in omega arith
lt_of_test_bit (suc w) x h =
    let half = lt_of_test_bit w (x / 2) (λ i le. h (suc i) (omega arith)) in
    omega (arith, pow-suc 2 w)
