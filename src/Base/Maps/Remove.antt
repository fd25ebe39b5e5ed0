-- ===== src/Base/Maps/Remove.antt =====
-- Removal from a map.
use mathlib.Core.Path.{◌≡◌, refl, sym, ◌∙◌, ap}
use mathlib.Core.Logic.{◌≢◌, if_pos, if_neg}
use mathlib.Core.List.{List, [], ◌∷◌, map}
use mathlib.Core.Option.{none, some}
use mathlib.Core.Option
use native.Mathlib.Omega.{arith}
use kobzar.Base.Lists.{All}
use kobzar.Base.Maps.{Distinct, keys, get, remove}

module _ {ℓ} {K V : Type ℓ} (same : Discrete K) (k : K) where
  pub All-remove {μ} : (P : K × V → Type μ) (m : List (K × V)) → All P m → All P (remove same k m)
  unfolding remove
  All-remove P [] _ = tt
  All-remove P ((j, v) ∷ m) (p, ps) = elim (same j k) [
    | yes e ↦ rw (if_pos (same j k) e) ps
    | no e ↦ rw (if_neg (same j k) e) (p, All-remove P m ps)
  ]

  pub All-map-remove {κ μ} :
      {B : Type κ} (g : K × V → B) (P : B → Type μ) (m : List (K × V))
      → All P (map g m)
      → All P (map g (remove same k m))
  unfolding remove
  All-map-remove g P [] _ = tt
  All-map-remove g P ((j, v) ∷ m) (p, ps) = elim (same j k) [
    | yes e ↦ rw (if_pos (same j k) e) ps
    | no e ↦ rw (if_neg (same j k) e) (p, All-map-remove g P m ps)
  ]

  pub Distinct-map-remove {κ} :
      {B : Type κ} (g : K × V → B) (m : List (K × V))
      → Distinct (map g m)
      → Distinct (map g (remove same k m))
  unfolding remove
  Distinct-map-remove g [] _ = tt
  Distinct-map-remove g ((j, v) ∷ m) (d, ds) = elim (same j k) [
    | yes e ↦ rw (if_pos (same j k) e) ds
    | no e ↦
        rw (if_neg (same j k) e)
          (All-map-remove g (λ y. y ≢ g (j, v)) m d, Distinct-map-remove g m ds)
  ]

  pub get-remove_ne :
      (m : List (K × V)) (i : K) → k ≢ i → get same i (remove same k m) ≡ get same i m
  unfolding get remove
  get-remove_ne [] i h = refl
  get-remove_ne ((j, v) ∷ m) i h = ground (arith, get-remove_ne m i h)

  pub get-absent : (m : List (K × V)) → All (λ j. j ≢ k) (keys m) → get same k m ≡ none
  unfolding get
  get-absent [] _ = refl
  get-absent ((j, v) ∷ m) (n, ns) = rw (if_neg (same j k) n) (get-absent m ns)

  pub get-remove_self : (m : List (K × V)) → Distinct (keys m) → get same k (remove same k m) ≡ none
  unfolding get remove
  get-remove_self [] _ = refl
  get-remove_self ((j, v) ∷ m) (d, ds) = elim (same j k) [
    | yes e ↦ rw (if_pos (same j k) e) (get-absent m (rw e at d))
    | no e ↦ rw (if_neg (same j k) e) (if_neg (same j k) e _ _ ∙ get-remove_self m ds)
  ]

module _ {ℓ} {K V : Type ℓ} (same : Discrete K) where
  pub get-remove-none :
      (k i : K) (m : List (K × V)) → get same i m ≡ none → get same i (remove same k m) ≡ none
  unfolding get remove
  get-remove-none k i [] e = refl
  get-remove-none k i ((j, v) ∷ m) e = ground (arith, get-remove-none k i m)

  pub get-map_values :
      {W : Type ℓ} (f : V → W) (i : K) (m : List (K × V))
      → get same i (map (λ e. (e.0, f e.1)) m) ≡ Option.map f (get same i m)
  unfolding get
  get-map_values f i [] = refl
  get-map_values f i ((j, w) ∷ m) = elim (same j i) [
    | yes e ↦ if_pos (same j i) e _ _ ∙ ap (Option.map f) (sym (if_pos (same j i) e _ _))
    | no e ↦
        if_neg (same j i) e _ _
        ∙ (get-map_values f i m ∙ ap (Option.map f) (sym (if_neg (same j i) e _ _)))
  ]
