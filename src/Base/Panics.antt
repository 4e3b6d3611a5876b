-- ===== src/Base/Panics.antt =====
-- Operations that either give a value or panic (`none`), with their own `do` notation.
use sys_hyper.Base.Tests.{ltb, if◌then◌else◌}
use Prim.Native.Nat.{ℕ, ◌+◌, ◌^◌}
use mathlib.Core.Bool.{Bool}
use mathlib.Core.Option.{Option, none, some}

infixl 5 ◌>>=◌
abbrev pub ◌>>=◌ : {A B : Type 0} → Option A → (A → Option B) → Option B
none >>= f = none
some a >>= f = f a

infixl 5 ◌>>◌
abbrev pub ◌>>◌ : {A B : Type 0} → Option A → Option B → Option B
m >> n = m >>= λ _. n

-- `assert!(b)`
abbrev pub assert : Bool → Option (Unit {0})
assert b = if b then some tt else none

-- `1 << k` on 64 bits, which the debug build checks.
abbrev pub shift_one : ℕ → Option ℕ
shift_one k = if ltb k 64 then some (2 ^ k) else none

-- `a + b` on 64 bits, which the debug build checks.
abbrev pub checked_add : ℕ → ℕ → Option ℕ
checked_add a b = if ltb (a + b) (2 ^ 64) then some (a + b) else none
