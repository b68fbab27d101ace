-- ===== src/Prelude/Outcome.antt =====
-- A value or an error: Go's `(T, error)`.
use mathlib.Core.Path.{◌≡◌, refl}
use mathlib.Core.Logic.{◌⊎◌, inl, inr}

pub data Result (E A : Type 0) : Type 0 where
  ok : A → Result E A
  err : E → Result E A

-- To split on a computed result and keep the equation.
pub Result-cases :
    {E A : Type 0} (r : Result E A) → ((e : E) × (r ≡ err e)) ⊎ ((a : A) × (r ≡ ok a))
Result-cases (err e) = inl (e, refl)
Result-cases (ok a) = inr (a, refl)

module _ {E A B : Type 0} where
  -- `if err != nil { return err }` between two calls.
  abbrev pub bind : Result E A → (A → Result E B) → Result E B
  bind (ok a) f = f a
  bind (err e) f = err e

  -- Inversion of a successful bind, for proofs where the parts stay shut.
  pub bind-eq-ok :
      (m : Result E A) (f : A → Result E B) {b : B}
      → bind m f ≡ ok b
      → (a : A) × (m ≡ ok a) × (f a ≡ ok b)
  bind-eq-ok (ok a) f h = (a, refl, h)
  bind-eq-ok (err e) f h = cc

module _ {E A : Type 0} where
  pub bind-ok : (m : Result E A) → bind m ok ≡ m
  bind-ok (ok a) = refl
  bind-ok (err e) = refl

module _ {E A B C : Type 0} where
  pub bind_assoc :
      (m : Result E A) (f : A → Result E B) (g : B → Result E C)
      → bind (bind m f) g ≡ bind m (λ a. bind (f a) g)
  bind_assoc (ok a) f g = refl
  bind_assoc (err e) f g = refl
