-- ===== src/Base/Bits/Mask.antt =====
-- Masks: `x & (2^k - 1)`, `x & (m << k)` and `(q << k) | r` as arithmetic.
use Prim.Native.Nat.{ℕ, zero, suc, ◌+◌, ◌-◌, ◌*◌, ◌/◌, ◌%◌, ◌^◌, ◌<◌, bit_and, bit_or}
use mathlib.Core.Path.{◌≡◌, refl, sym, ap, ◌∙◌}
use mathlib.Core.WellFounded
use native.Mathlib.Nat.{
  pow-suc, one-le-pow, mod-lt, div-add-mod, mul-add-mod_self_left, mod-eq_of_lt, div-div-eq-div-mul,
}
use native.Mathlib.Omega.{arith}
use sys_hyper.Base.Order.{lt_wf}
use sys_hyper.Base.Bits.Step.{bit_or_step, bit_and_step}

pub half_double : (a : ℕ) → a * 2 / 2 ≡ a
half_double a = omega arith

-- Induction from half of a number.
halving : (Q : ℕ → Type 0) → Q 0 → ((n : ℕ) → Q (suc n / 2) → Q (suc n)) → (x : ℕ) → Q x
halving Q base more x = WellFounded.induction lt_wf {C = Q} x (λ k below. by_cases k below)
  where
    by_cases : (k : ℕ) → ((m : ℕ) → m < k → Q m) → Q k
    by_cases zero below = base
    by_cases (suc n) below = more n (below (suc n / 2) (omega arith))

pub bit_and-zero : (x : ℕ) → bit_and x 0 ≡ 0
bit_and-zero =
    halving (λ k. bit_and k 0 ≡ 0) refl (λ n half. omega (arith, half, bit_and_step (suc n) 0))

pub bit_or-zero : (x : ℕ) → bit_or x 0 ≡ x
bit_or-zero =
    halving (λ k. bit_or k 0 ≡ k) refl (λ n half. omega (arith, half, bit_or_step (suc n) 0))

-- The remainder by twice m, from the lowest digit.
mod_double : (a m : ℕ) → 0 < m → a % (m * 2) ≡ a / 2 % m * 2 + a % 2
mod_double a m h =
    let q : ℕ = a / 2 / m in
    let r : ℕ = a / 2 % m * 2 + a % 2 in
    let lt : r < m * 2 = omega (arith, mod-lt (a / 2) h) in
    let e : a ≡ m * 2 * q + r =
      omega (arith, div-add-mod (a / 2) m, ap (λ (t : ℕ). t * 2) (div-add-mod (a / 2) m)) in
    ap (λ (t : ℕ). t % (m * 2)) e ∙ mul-add-mod_self_left (m * 2) q r ∙ mod-eq_of_lt lt

-- A mask of `k` low bits is the remainder by `2 ^ k`.
pub bit_and-low_mask : (k a : ℕ) → bit_and a (2 ^ k - 1) ≡ a % 2 ^ k
bit_and-low_mask zero a = bit_and-zero a ∙ omega arith
bit_and-low_mask (suc k) a =
    let p = one-le-pow k 2 (omega arith) in
    let d = pow-suc 2 k in
    let h : (2 ^ suc k - 1) / 2 ≡ 2 ^ k - 1 = omega arith in
    let o : (2 ^ suc k - 1) % 2 ≡ 1 = omega arith in
    bit_and_step a (2 ^ suc k - 1)
    ∙ rw (h, o, d, bit_and-low_mask k (a / 2)) (omega (arith, mod_double a (2 ^ k) p))

-- `x & (m << k)`
pub bit_and-shift : (k x m : ℕ) → bit_and x (m * 2 ^ k) ≡ bit_and (x / 2 ^ k) m * 2 ^ k
bit_and-shift zero x m =
    let e : m * 2 ^ 0 ≡ m = omega arith in
    let f : x / 2 ^ 0 ≡ x = omega arith in rw (e, f) (omega arith)
bit_and-shift (suc k) x m =
    let e : m * 2 ^ suc k ≡ m * 2 ^ k * 2 = omega (arith, ap (λ (t : ℕ). m * t) (pow-suc 2 k)) in
    let f : x / 2 / 2 ^ k ≡ x / 2 ^ suc k =
      div-div-eq-div-mul x 2 (2 ^ k) ∙ ap (λ (t : ℕ). x / t) (omega (arith, pow-suc 2 k)) in
    ap (bit_and x) e
    ∙ bit_and_step x (m * 2 ^ k * 2)
    ∙ rw (half_double (m * 2 ^ k), bit_and-shift k (x / 2) m, f)
        (omega (arith, ap (λ (t : ℕ). bit_and (x / 2 ^ suc k) m * t) (pow-suc 2 k)))

-- `(q << k) | r` is a sum when `r` fits `k` bits.
pub bit_or_fields : (k q r : ℕ) → r < 2 ^ k → bit_or (q * 2 ^ k) r ≡ q * 2 ^ k + r
bit_or_fields zero q r h =
    let e : q * 2 ^ 0 ≡ q = omega arith in
    let z : r ≡ 0 = omega arith in rw (e, z) (bit_or-zero q ∙ omega arith)
bit_or_fields (suc k) q r h =
    let e : q * 2 ^ suc k ≡ q * 2 ^ k * 2 = omega (arith, ap (λ (t : ℕ). q * t) (pow-suc 2 k)) in
    ap (λ (t : ℕ). bit_or t r) e
    ∙ bit_or_step (q * 2 ^ k * 2) r
    ∙ rw (e, half_double (q * 2 ^ k), bit_or_fields k q (r / 2) (omega (arith, pow-suc 2 k)))
        (omega arith)

-- `| b` leaves the low bits alone when b has none.
pub bit_or-low : (k a b : ℕ) → b % 2 ^ k ≡ 0 → bit_or a b % 2 ^ k ≡ a % 2 ^ k
bit_or-low zero a b h = omega arith
bit_or-low (suc k) a b h =
    let p = one-le-pow k 2 (omega arith) in
    let d = pow-suc 2 k in
    let h' : b % (2 ^ k * 2) ≡ 0 = ap (λ (t : ℕ). b % t) (sym d) ∙ h in
    let m = mod_double b (2 ^ k) p in
    let low = bit_or-low k (a / 2) (b / 2) (omega arith) in
    let half : bit_or a b / 2 ≡ bit_or (a / 2) (b / 2) = omega (arith, bit_or_step a b) in
    let last : bit_or a b % 2 ≡ a % 2 = omega (arith, bit_or_step a b) in
    ap (λ (t : ℕ). bit_or a b % t) d
    ∙ mod_double (bit_or a b) (2 ^ k) p
    ∙ rw (half, last, low) (sym (mod_double a (2 ^ k) p))
    ∙ ap (λ (t : ℕ). a % t) (sym d)
