-- ===== src/Base/Run.antt =====
-- Results of the program's operations, and the monad of operations on a state. A Rust `Err` keeps
-- what was written before it; a panic (`panic!`, `assert!`, `unwrap`, `todo!`, an index or a
-- checked sum out of range) and an endless `loop {}` leave no state that anyone reads.
use Prim.Native.Nat.{ℕ, ◌+◌, ◌-◌, ◌^◌}
use sys_hyper.Base.Tests.{ltb, leb}
use sys_hyper.Base.Result.{Result}
use mathlib.Core.Path.{◌≡◌, refl}
use mathlib.Core.Bool.{Bool, true, false}
use mathlib.Core.Option.{Option, none, some}

pub data Run (E S A : Type 0) : Type 0 where
  ok : A → S → Run E S A
  err : E → S → Run E S A
  panic : Run E S A
  hang : Run E S A

abbrev pub M : Type 0 → Type 0 → Type 0 → Type 0
M E S A = S → Run E S A

module _ {E S : Type 0} where
  abbrev pub and_then : {A B : Type 0} → Run E S A → (A → M E S B) → Run E S B
  and_then (ok a s) k = k a s
  and_then (err e s) k = err e s
  and_then panic k = panic
  and_then hang k = hang

  infixl 5 ◌>>=◌ ◌>>◌
  abbrev pub ◌>>=◌ : {A B : Type 0} → M E S A → (A → M E S B) → M E S B
  m >>= k = λ s. and_then (m s) k

  abbrev pub ◌>>◌ : {A B : Type 0} → M E S A → M E S B → M E S B
  m >> n = m >>= λ _. n

  abbrev pub pure : {A : Type 0} → A → M E S A
  pure a = ok a

  abbrev pub fail : {A : Type 0} → E → M E S A
  fail e = err e

  abbrev pub panics : {A : Type 0} → M E S A
  panics s = panic

  abbrev pub get : M E S S
  get s = ok s s

  abbrev pub put : S → M E S (Unit {0})
  put s _ = ok tt s

  -- `assert!(b)`
  abbrev pub assert : Bool → M E S (Unit {0})
  assert true s = ok tt s
  assert false s = panic

  -- `o.unwrap()`
  abbrev pub unwrap : {A : Type 0} → Option A → M E S A
  unwrap (some a) s = ok a s
  unwrap none s = panic

  -- A read of the state.
  abbrev pub lift : {A : Type 0} → Result E A → M E S A
  lift (Result.ok a) s = ok a s
  lift (Result.err e) s = err e s
  lift Result.panic s = panic

  -- `a + b` and `a - b` on `usize` in the debug build (the Makefile's default), which checks them.
  abbrev pub checked_add : ℕ → ℕ → M E S ℕ
  checked_add a b = assert (ltb (a + b) (2 ^ 64)) >> pure (a + b)

  abbrev pub checked_sub : ℕ → ℕ → M E S ℕ
  checked_sub a b = assert (leb b a) >> pure (a - b)

-- `map_err`, and the `From` that `?` applies.
abbrev pub map_err : {E F S A : Type 0} → (E → F) → Run E S A → Run F S A
map_err f (ok a s) = ok a s
map_err f (err e s) = err (f e) s
map_err f panic = panic
map_err f hang = hang

pub and_then_assoc :
    {E S A B C : Type 0} (r : Run E S A) (f : A → M E S B) (g : B → M E S C)
    → and_then (and_then r f) g ≡ and_then r (λ a s. and_then (f a s) g)
and_then_assoc (ok a s) f g = refl
and_then_assoc (err e s) f g = refl
and_then_assoc panic f g = refl
and_then_assoc hang f g = refl
