-- ===== src/Prelude/Run.antt =====
-- The outcome of a call: a result, a Go `error`, a panic, or a model's loop that ran out of fuel.
use mathlib.Core.Path.{◌≡◌, refl}
use mathlib.Core.Logic.{◌≢◌, ◌⊎◌, inl, inr}
use mathlib.Core.Option.{Option, none, some}

pub data Run {ℓ} (E : Type 0) (A : Type ℓ) : Type ℓ where
  panic out_of_fuel : Run E A
  err : E → Run E A
  ok : A → Run E A

module _ {ℓ κ} {E : Type 0} {A : Type ℓ} {B : Type κ} where
  infixl 5 ◌>>=◌
  abbrev pub ◌>>=◌ : Run E A → (A → Run E B) → Run E B
  panic >>= next = panic
  out_of_fuel >>= next = out_of_fuel
  err e >>= next = err e
  ok a >>= next = next a

  -- If a chain returns, so does its first call, and the rest at its result.
  pub >>=-eq-ok :
      (first : Run E A) (next : A → Run E B) {b : B}
      → (first >>= next) ≡ ok b
      → (a : A) × (first ≡ ok a) × (next a ≡ ok b)
  >>=-eq-ok panic next e = cc
  >>=-eq-ok out_of_fuel next e = cc
  >>=-eq-ok (err x) next e = cc
  >>=-eq-ok (ok a) next e = (a, refl, e)

module _ {ℓ} {E : Type 0} {B : Type ℓ} where
  infixl 5 ◌>>◌
  abbrev pub ◌>>◌ : Run E (Unit {0}) → Run E B → Run E B
  first >> rest = first >>= λ done. rest

-- A value that the code reads through a pointer, or a `switch` that panics by default.
abbrev pub or_panic {ℓ} : {E : Type 0} {A : Type ℓ} → Option A → Run E A
or_panic none = panic
or_panic (some a) = ok a

-- The call returns, with a result of which `P` holds.
abbrev pub Returns {ℓ} : {E : Type 0} {A : Type ℓ} → (A → Type 0) → Run E A → Type 0
Returns P (ok a) = P a
Returns P (err e) = ⊥
Returns P panic = ⊥
Returns P out_of_fuel = ⊥

-- A call returns, or it does not.
pub Run-cases {ℓ} :
    {E : Type 0} {A : Type ℓ} (m : Run E A) → ((a : A) × (m ≡ ok a)) ⊎ ((a : A) → m ≢ ok a)
Run-cases (ok a) = inl (a, refl)
Run-cases (err e) = inr (λ a h. cc)
Run-cases panic = inr (λ a h. cc)
Run-cases out_of_fuel = inr (λ a h. cc)

-- A call returns one result.
pub ok_unique {ℓ} : {E : Type 0} {A : Type ℓ} {r : Run E A} {a b : A} → r ≡ ok a → r ≡ ok b → a ≡ b
ok_unique p q = cc

-- A call that does not return has no result.
pub panic_ne_ok {ℓ} : {E : Type 0} {A : Type ℓ} {r : Run E A} {a : A} → r ≡ panic → r ≡ ok a → ⊥
panic_ne_ok p q = cc

pub err_ne_ok {ℓ} :
    {E : Type 0} {A : Type ℓ} {r : Run E A} {e : E} {a : A} → r ≡ err e → r ≡ ok a → ⊥
err_ne_ok p q = cc
