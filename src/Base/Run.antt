-- ===== src/Base/Run.antt =====
-- Runs of code that may fault (undefined behaviour: a division by 0, an access outside a block or
-- through NULL), or exceed the fuel of a loop.
use mathlib.Core.Path.{◌≡◌, refl}
use mathlib.Core.Logic.{◌⊎◌, inl, inr}

pub data Run {κ} (Result : Type κ) : Type κ where
  out_of_fuel fault : Run Result
  ok : Result → Run Result

module _ {κ ℓ} {R : Type κ} {S : Type ℓ} where
  infixl 5 ◌>>=◌
  abbrev pub ◌>>=◌ : Run R → (R → Run S) → Run S
  out_of_fuel >>= next = out_of_fuel
  fault >>= next = fault
  ok result >>= next = next result

-- The run ends, does not fault, and its result has the property.
abbrev pub Returns {κ ℓ} : {R : Type κ} → Run R → (R → Type ℓ) → Type (κ ⊔ ℓ)
Returns {R} run Post = (result : R) × (run ≡ ok result) × Post result

pub Run-cases {κ} :
    {R : Type κ} (r : Run R) → (r ≡ out_of_fuel) ⊎ (r ≡ fault) ⊎ (a : R) × (r ≡ ok a)
Run-cases out_of_fuel = inl refl
Run-cases fault = inr (inl refl)
Run-cases (ok a) = inr (inr (a, refl))

pub bind_assoc {κ} :
    {A B C : Type κ} (r : Run A) (f : A → Run B) (g : B → Run C)
    → (r >>= λ a. f a >>= g) ≡ (r >>= f >>= g)
bind_assoc out_of_fuel f g = refl
bind_assoc fault f g = refl
bind_assoc (ok a) f g = refl

-- Runs that go on alike go on alike after the same run.
pub bind_cong {κ} :
    {A B : Type κ} (r : Run A) (f g : A → Run B) → ((a : A) → f a ≡ g a) → (r >>= f) ≡ (r >>= g)
bind_cong out_of_fuel f g h = refl
bind_cong fault f g h = refl
bind_cong (ok a) f g h = h a
