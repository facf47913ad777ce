-- ===== src/Common/Run.antt =====
-- The outcome of a fallible or looping routine.
use mathlib.Core.Path.{◌≡◌, refl, ap}
use mathlib.Core.Logic.{◌≢◌}

-- `ok` and `err` are Rust's `Ok`/`Some` and `Err`/`None`; `stuck` is no value of the program: a loop
-- of the model ran out of its fuel.
pub data Run {ℓ} (E A : Type ℓ) : Type ℓ where
  ok : A → Run E A
  err : E → Run E A
  stuck : Run E A

infixl 5 ◌>>=◌
abbrev pub ◌>>=◌ {ℓ} : {E A B : Type ℓ} → Run E A → (A → Run E B) → Run E B
ok a >>= f = f a
err e >>= f = err e
stuck >>= f = stuck

-- `Option` in place of an error.
pub data Rejected : Type 0 where
  rejected : Rejected

value_or {ℓ} : {E A : Type ℓ} → A → Run E A → A
value_or d (ok a) = a
value_or d (err e) = d
value_or d stuck = d

pub ok-injective {ℓ} : {E A : Type ℓ} {a b : A} → ◌≡◌ {A = Run E A} (ok a) (ok b) → a ≡ b
unfolding value_or
ok-injective {a} e = ap (value_or a) e

-- A bind that never runs out of fuel, and the inversion of one that succeeds.
module _ {ℓ} {E A B : Type ℓ} where
  pub >>=-ne-stuck :
      (m : Run E A) (f : A → Run E B)
      → m ≢ stuck
      → ((a : A) → m ≡ ok a → f a ≢ stuck)
      → (m >>= f) ≢ stuck
  >>=-ne-stuck (ok a) f p q = q a refl
  >>=-ne-stuck (err e) f p q = λ h. cc
  >>=-ne-stuck stuck f p q = absurd (p refl)

  pub >>=-eq-ok :
      (m : Run E A) (f : A → Run E B) {b : B}
      → (m >>= f) ≡ ok b
      → (a : A) × (m ≡ ok a) × (f a ≡ ok b)
  >>=-eq-ok stuck f h = cc
  >>=-eq-ok (err e) f h = cc
  >>=-eq-ok (ok a) f h = (a, refl, h)
