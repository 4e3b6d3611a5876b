-- ===== src/Base/Result.antt =====
-- Results of operations that read the state and do not change it, with their own `do` notation.
use mathlib.Core.Option.{Option, none, some}

pub data Result (E A : Type 0) : Type 0 where
  ok : A → Result E A
  err : E → Result E A
  panic : Result E A

module _ {E : Type 0} where
  infixl 5 ◌>>=◌
  abbrev pub ◌>>=◌ : {A B : Type 0} → Result E A → (A → Result E B) → Result E B
  ok a >>= k = k a
  err e >>= k = err e
  panic >>= k = panic

  -- `o.unwrap()`, or a value that the code computes or panics.
  abbrev pub unwrap : {A : Type 0} → Option A → Result E A
  unwrap (some a) = ok a
  unwrap none = panic
