-- ===== src/Base/Maps.antt =====
-- Hash maps as association lists: a key stands at most once, and the order is the map's own.
pub mod Remove
use mathlib.Core.Path.{◌≡◌, refl, sym, subst}
use mathlib.Core.Logic.{◌≢◌, ite, if_pos, if_neg}
use mathlib.Core.List.{List, [], ◌∷◌, ◌++◌, map}
use mathlib.Core.Option.{Option, none, some}
use native.Mathlib.Omega.{arith}
use kobzar.Base.Lists.{All}

module _ {ℓ} {A : Type ℓ} where
  abbrev pub Distinct : List A → Type ℓ
  Distinct [] = Unit
  Distinct (x ∷ xs) = All (λ y. y ≢ x) xs × Distinct xs

  pub All-append {κ} : (P : A → Type κ) (xs ys : List A) → All P xs → All P ys → All P (xs ++ ys)
  All-append P [] ys _ h = h
  All-append P (x ∷ xs) ys (p, ps) h = (p, All-append P xs ys ps h)

  pub All-map_fun {κ μ} :
      {P : A → Type κ} {Q : A → Type μ} (f : (a : A) → P a → Q a) (xs : List A)
      → All P xs
      → All Q xs
  All-map_fun f [] _ = tt
  All-map_fun f (x ∷ xs) (p, ps) = (f x p, All-map_fun f xs ps)

  pub Distinct-append_one :
      (xs : List A) (x : A) → Distinct xs → All (λ y. y ≢ x) xs → Distinct (xs ++ (x ∷ []))
  Distinct-append_one [] x _ _ = (tt, tt)
  Distinct-append_one (y ∷ ys) x (d, ds) (n, ns) =
      (All-append _ ys (x ∷ []) d ((λ e. n (sym e)), tt), Distinct-append_one ys x ds ns)

module _ {ℓ} {K V : Type ℓ} where
  abbrev pub keys : List (K × V) → List K
  keys m = map (λ e. e.0) m

module _ {ℓ} {K V : Type ℓ} (same : Discrete K) where
  unfoldable pub get : K → List (K × V) → Option V
  get k [] = none
  get k ((j, v) ∷ m) = ite (same j k) (some v) (get k m)

  unfoldable pub modify : K → (V → V) → List (K × V) → List (K × V)
  modify k f [] = []
  modify k f ((j, v) ∷ m) = ite (same j k) ((j, f v) ∷ m) ((j, v) ∷ modify k f m)

  unfoldable pub insert : K → V → List (K × V) → List (K × V)
  insert k v [] = (k, v) ∷ []
  insert k v ((j, w) ∷ m) = ite (same j k) ((j, v) ∷ m) ((j, w) ∷ insert k v m)

  unfoldable pub remove : K → List (K × V) → List (K × V)
  remove k [] = []
  remove k ((j, v) ∷ m) = ite (same j k) m ((j, v) ∷ remove k m)

  module _ (k : K) where
    pub get-modify_self :
        (f : V → V) (m : List (K × V)) (v : V)
        → get k m ≡ some v
        → get k (modify k f m) ≡ some (f v)
    unfolding get modify
    get-modify_self f [] v e = cc
    get-modify_self f ((j, w) ∷ m) v e = ground (arith, get-modify_self f m v)

    pub get-modify_ne :
        (f : V → V) (m : List (K × V)) (i : K) → i ≢ k → get i (modify k f m) ≡ get i m
    unfolding get modify
    get-modify_ne f [] i h = refl
    get-modify_ne f ((j, w) ∷ m) i h = ground (arith, get-modify_ne f m i h)

    pub get-modify-none : (f : V → V) (m : List (K × V)) → get k m ≡ none → modify k f m ≡ m
    unfolding get modify
    get-modify-none f [] e = refl
    get-modify-none f ((j, w) ∷ m) e = ground (arith, get-modify-none f m)

    pub keys-modify : (f : V → V) (m : List (K × V)) → keys (modify k f m) ≡ keys m
    unfolding modify
    keys-modify f [] = refl
    keys-modify f ((j, w) ∷ m) = ground (arith, keys-modify f m)

    pub All-modify {μ} :
        (P : K × V → Type μ) (f : V → V) (m : List (K × V))
        → ((j : K) (v : V) → P (j, v) → P (j, f v))
        → All P m
        → All P (modify k f m)
    unfolding modify
    All-modify P f [] h _ = tt
    All-modify P f ((j, w) ∷ m) h (p, ps) = elim (same j k) [
      | yes e ↦ rw (if_pos (same j k) e) (h j w p, ps)
      | no e ↦ rw (if_neg (same j k) e) (p, All-modify P f m h ps)
    ]

    pub insert_new : (v : V) (m : List (K × V)) → get k m ≡ none → insert k v m ≡ m ++ ((k, v) ∷ [])
    unfolding get insert
    insert_new v [] e = refl
    insert_new v ((j, w) ∷ m) e = ground (arith, insert_new v m)

    pub get-insert_self : (v : V) (m : List (K × V)) → get k (insert k v m) ≡ some v
    unfolding get insert
    get-insert_self v [] = if_pos (same k k) refl (some v) none
    get-insert_self v ((j, w) ∷ m) = ground (arith, get-insert_self v m)

    pub get-insert_ne : (v : V) (m : List (K × V)) (i : K) → i ≢ k → get i (insert k v m) ≡ get i m
    unfolding get insert
    get-insert_ne v [] i h = if_neg (same k i) (λ e. h (sym e)) (some v) none
    get-insert_ne v ((j, w) ∷ m) i h = ground (arith, get-insert_ne v m i h)

    pub not_key_of_none : (m : List (K × V)) → get k m ≡ none → All (λ j. j ≢ k) (keys m)
    unfolding get
    not_key_of_none [] e = tt
    not_key_of_none ((j, w) ∷ m) e = elim (same j k) [
      | yes p ↦ absurd (ground arith)
      | no p ↦ (p, not_key_of_none m (rw (if_neg (same j k) p) at e))
    ]

    pub All-get {μ} :
        (P : K × V → Type μ) (m : List (K × V)) (v : V) → All P m → get k m ≡ some v → P (k, v)
    unfolding get
    All-get P [] v _ e = absurd (ground arith)
    All-get P ((j, w) ∷ m) v (p, ps) e = elim (same j k) [
      | yes q ↦
          let found : some w ≡ some v = rw (if_pos (same j k) q) at e in
          let same_entry : ◌≡◌ {A = K × V} (j, w) (k, v) = cc (q, found) in subst P same_entry p
      | no q ↦ All-get P m v ps (rw (if_neg (same j k) q) at e)
    ]

    -- A value that is written back after another restores the map.
    pub modify-modify :
        (v w : V) (m : List (K × V))
        → get k m ≡ some v
        → modify k (λ _. v) (modify k (λ _. w) m) ≡ m
    unfolding get modify
    modify-modify v w [] e = refl
    modify-modify v w ((j, u) ∷ m) e = ground (arith, modify-modify v w m)
