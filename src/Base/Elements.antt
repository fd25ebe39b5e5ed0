-- ===== src/Base/Elements.antt =====
-- The elements of a list at an index, below it and from it on.
use Prim.Native.Nat.{ℕ, zero, suc, ◌+◌, ◌≤◌, ◌<◌}
use mathlib.Core.Path.{◌≡◌, refl, ap, subst}
use mathlib.Core.List.{List, [], ◌∷◌, ◌++◌}
use mathlib.Core.Option.{some}
use mathlib.Core.Logic.{◌≢◌}
use native.Mathlib.Omega.{arith}
use kobzar.Base.Lists.{length, get_elem?, set, take, drop, All}

module _ {ℓ} {A : Type ℓ} where
  -- the element at an index of the first part of a list
  pub get_elem?-All {κ} :
      (P : A → Type κ) (xs ys : List A) (i : ℕ)
      → All P xs
      → i < length xs
      → (x : A) × (get_elem? (xs ++ ys) i ≡ some x) × P x
  get_elem?-All P [] ys i ps h = absurd (omega arith)
  get_elem?-All P (x ∷ xs) ys zero (p, ps) h = (x, refl, p)
  get_elem?-All P (x ∷ xs) ys (suc i) (p, ps) h = get_elem?-All P xs ys i ps (omega arith)

  pub get_elem?-append_right :
      (xs ys : List A) (i j : ℕ) → i ≡ length xs + j → get_elem? (xs ++ ys) i ≡ get_elem? ys j
  get_elem?-append_right [] ys i j e = ap (get_elem? ys) (omega arith)
  get_elem?-append_right (x ∷ xs) ys zero j e = absurd (omega arith)
  get_elem?-append_right (x ∷ xs) ys (suc i) j e = get_elem?-append_right xs ys i j (omega arith)

  -- an element of the part of a list below or from an index on
  pub All-take {κ} :
      (P : A → Type κ) (xs : List A) (n i : ℕ) {x : A}
      → All P (take n xs)
      → i < n
      → get_elem? xs i ≡ some x
      → P x
  All-take P [] n i ps h at = cc
  All-take P (y ∷ ys) zero i ps h at = absurd (omega arith)
  All-take P (y ∷ ys) (suc n) zero (p, ps) h at = subst P (cc at) p
  All-take P (y ∷ ys) (suc n) (suc i) (p, ps) h at = All-take P ys n i ps (omega arith) at

  All-get {κ} :
      (P : A → Type κ) (xs : List A) (i : ℕ) {x : A} → All P xs → get_elem? xs i ≡ some x → P x
  All-get P [] i ps at = cc
  All-get P (y ∷ ys) zero (p, ps) at = subst P (cc at) p
  All-get P (y ∷ ys) (suc i) (p, ps) at = All-get P ys i ps at

  pub All-drop {κ} :
      (P : A → Type κ) (xs : List A) (n i : ℕ) {x : A}
      → All P (drop n xs)
      → n ≤ i
      → get_elem? xs i ≡ some x
      → P x
  All-drop P xs zero i ps h at = All-get P xs i ps at
  All-drop P [] (suc n) i ps h at = cc
  All-drop P (y ∷ ys) (suc n) zero ps h at = absurd (omega arith)
  All-drop P (y ∷ ys) (suc n) (suc i) ps h at = All-drop P ys n i ps (omega arith) at

  pub get_elem?-lt : (xs : List A) (i : ℕ) {x : A} → get_elem? xs i ≡ some x → i < length xs
  get_elem?-lt [] i at = cc
  get_elem?-lt (y ∷ ys) zero at = omega arith
  get_elem?-lt (y ∷ ys) (suc i) at = omega (arith, get_elem?-lt ys i at)

  pub get_elem?-append_left :
      (xs ys : List A) (i : ℕ) → i < length xs → get_elem? (xs ++ ys) i ≡ get_elem? xs i
  get_elem?-append_left [] ys i h = absurd (omega arith)
  get_elem?-append_left (x ∷ xs) ys zero h = refl
  get_elem?-append_left (x ∷ xs) ys (suc i) h = get_elem?-append_left xs ys i (omega arith)

  pub get_elem?-set_self :
      (xs : List A) (i : ℕ) (v : A) → i < length xs → get_elem? (set xs i v) i ≡ some v
  get_elem?-set_self [] i v h = absurd (omega arith)
  get_elem?-set_self (x ∷ xs) zero v h = refl
  get_elem?-set_self (x ∷ xs) (suc i) v h = get_elem?-set_self xs i v (omega arith)

  pub get_elem?-set_ne :
      (xs : List A) (i j : ℕ) (v : A) → i ≢ j → get_elem? (set xs i v) j ≡ get_elem? xs j
  get_elem?-set_ne [] i j v h = refl
  get_elem?-set_ne (x ∷ xs) zero zero v h = absurd (h refl)
  get_elem?-set_ne (x ∷ xs) zero (suc j) v h = refl
  get_elem?-set_ne (x ∷ xs) (suc i) zero v h = refl
  get_elem?-set_ne (x ∷ xs) (suc i) (suc j) v h = get_elem?-set_ne xs i j v (λ e. h (ap suc e))
