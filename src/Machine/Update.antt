-- ===== src/Machine/Update.antt =====
-- Tables that hold something for each CPU, with one entry changed.
use sys_hyper.Base.{ℕ, ◌≡◌, refl, ap, fun_ext, true, ◌==◌, Bool-cases, inl, inr, arith}
use sys_hyper.Machine.{update}

module _ {A : Type 0} (me : ℕ) (f : ℕ → A) where
  pub update_same : update me (f me) f ≡ f
  update_same = fun_ext (λ j. elim (Bool-cases (j == me)) [
    | inl here ↦ let e : me ≡ j = ground arith in rw here (ap f e)
    | inr there ↦ rw there refl
  ])

  pub update_here : (a : A) → update me a f me ≡ a
  update_here a = let here : (me == me) ≡ true = ground arith in rw here refl

  pub update_twice : (a b : A) → update me b (update me a f) ≡ update me b f
  update_twice a b =
      fun_ext
        (λ j. elim (Bool-cases (j == me)) [ inl here ↦ rw here refl | inr there ↦ rw there refl ])
