-- ===== src/Base/Search.antt =====
-- `binary_search` of slices in the standard library, as it is documented: on a sorted slice it finds an
-- index of the key, or the index where the key can be inserted. Which of several equal elements is
-- found is not specified, so the function is a parameter.
use kobzar.Base.Lists.{All, length, get_elem?, take, drop}
use Prim.Native.Nat.{ℕ, ◌≤◌, ◌<◌, Ordering}
use mathlib.Core.Path.{◌≡◌}
use mathlib.Core.List.{List, [], ◌∷◌, ◌++◌}
use mathlib.Core.Option.{some}

abbrev pub IsSorted : List ℕ → Type 0
IsSorted [] = Unit
IsSorted (x ∷ xs) = All (λ y. x ≤ y) xs × IsSorted xs

pub data Found : Type 0 where
  found : ℕ → Found
  absent : ℕ → Found

pub record BinarySearch : Type 0 where
  pub search : List ℕ → ℕ → Found
  pub search_found :
      (xs : List ℕ) (key i : ℕ) → IsSorted xs → search xs key ≡ found i → get_elem? xs i ≡ some key
  pub search_absent :
      (xs : List ℕ) (key i : ℕ)
      → IsSorted xs
      → search xs key ≡ absent i
      → (i ≤ length xs) × All (λ x. x < key) (take i xs) × All (λ x. key < x) (drop i xs)

-- What `binary_search_by` asks of a slice: first what compares as less, then the equal, then the greater.
pub record IsPartitioned {ℓ} {A : Type ℓ} (order : A → Ordering) (xs : List A) : Type ℓ where
  pub before : List A
  pub matches : List A
  pub behind : List A
  pub split : xs ≡ before ++ (matches ++ behind)
  pub before_less : All (λ x. order x ≡ Ordering.lt) before
  pub matches_equal : All (λ x. order x ≡ Ordering.eq) matches
  pub behind_greater : All (λ x. order x ≡ Ordering.gt) behind

-- `binary_search_by` of slices
pub record BinarySearchBy (A : Type 0) : Type 0 where
  pub search_by : List A → (A → Ordering) → Found
  pub search_by_found :
      (xs : List A) (order : A → Ordering) (i : ℕ)
      → IsPartitioned order xs
      → search_by xs order ≡ found i
      → (x : A) × (get_elem? xs i ≡ some x) × (order x ≡ Ordering.eq)
  pub search_by_absent :
      (xs : List A) (order : A → Ordering) (i : ℕ)
      → IsPartitioned order xs
      → search_by xs order ≡ absent i
      → (i ≤ length xs)
        × All (λ x. order x ≡ Ordering.lt) (take i xs)
        × All (λ x. order x ≡ Ordering.gt) (drop i xs)
