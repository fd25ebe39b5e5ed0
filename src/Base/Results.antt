-- ===== src/Base/Results.antt =====
-- `Result<A, E>` and its `?`.
use mathlib.Core.Path.{◌≡◌, refl}
use mathlib.Core.Logic.{◌⊎◌, inl, inr}

pub data Result {ε ℓ} (E : Type ε) (A : Type ℓ) : Type (ε ⊔ ℓ) where
  err : (error : E) → Result E A
  ok : (value : A) → Result E A

module _ {ε ℓ κ} {E : Type ε} {A : Type ℓ} {B : Type κ} where
  infixl 5 ◌>>=◌
  abbrev pub ◌>>=◌ : Result E A → (A → Result E B) → Result E B
  err error >>= _ = err error
  ok value >>= next = next value

  -- Inversion of a successful `?`.
  pub >>=-eq-ok :
      (first : Result E A) (next : A → Result E B) {result : B}
      → (first >>= next) ≡ ok result
      → (value : A) × (first ≡ ok value) × (next value ≡ ok result)
  >>=-eq-ok (err error) next h = cc
  >>=-eq-ok (ok value) next h = (value, refl, h)

  -- Inversion of a `?` that fails.
  pub >>=-eq-err :
      (first : Result E A) (next : A → Result E B) {error : E}
      → (first >>= next) ≡ err error
      → (first ≡ err error) ⊎ ((value : A) × (first ≡ ok value) × (next value ≡ err error))
  >>=-eq-err (err error) next h = inl (cc)
  >>=-eq-err (ok value) next h = inr (value, refl, h)

pub Result-cases {ε ℓ} :
    {E : Type ε} {A : Type ℓ} (r : Result E A) → ((e : E) × (r ≡ err e)) ⊎ ((a : A) × (r ≡ ok a))
Result-cases (err e) = inl (e, refl)
Result-cases (ok a) = inr (a, refl)
