-- ===== src/Cache/Evict/Scan.antt =====
-- The first loop of `PageStore::evict`, kobzar/src/q_engine/storage/idx_common.rs.
use kobzar.Base.{
  ℕ, zero, suc, ◌+◌, ◌-◌, ◌≤◌, ◌<◌, ◌≡◌, refl, ap, ◌∙◌, sym, arith, min, List, [], ◌∷◌, ◌++◌, some,
  length, take, All, leb, length-append, length-take, append-nil, subst, Bool-cases, leb→le, false,
  inl, inr,
}
use kobzar.Base.Perms.{All-Permᴰ, length-Permᴰ, All-left, All-right}
use kobzar.Base.Search.{BinarySearch}
use kobzar.Cache.Store.{KeyExt}
use kobzar.Cache.Evict.{position, Scored, pop, insert_at, retain}
use kobzar.Cache.Evict.Select.{
  Below, IsRanked, ranks, IsPlace, position-IsPlace, inserted, inserted-Permᴰ, inserted-IsRanked,
}
use mathlib.Core.List.{Permᴰ}
use mathlib.Core.List.Permᴰ

module _ {ℓ} {A : Type ℓ} where
  last_split : (n : ℕ) (xs : List A) → length xs ≡ suc n → (d : A) × (xs ≡ take n xs ++ (d ∷ []))
  last_split n [] e = absurd (omega arith)
  last_split zero (x ∷ []) e = (x, refl)
  last_split zero (x ∷ y ∷ xs) e = absurd (omega arith)
  last_split (suc n) (x ∷ xs) e =
      let (d, same) = last_split n xs (omega arith) in (d, ap (λ r. x ∷ r) same)

  pub swap_front : (xs ys zs : List A) → Permᴰ (xs ++ (ys ++ zs)) (ys ++ (xs ++ zs))
  swap_front [] ys zs = Permᴰ.refl (ys ++ zs)
  swap_front (x ∷ xs) ys zs =
      Permᴰ.trans (Permᴰ.cons refl (swap_front xs ys zs))
        (Permᴰ.symm (Permᴰ.middle x ys (xs ++ zs)))

module _ (k : KeyExt) where
  open k use {PageKey}

  inserted_before :
      (i : ℕ) (s : Scored k) (xs : List (Scored k)) (d : Scored k)
      → i ≤ length xs
      → inserted k i s (xs ++ (d ∷ [])) ≡ inserted k i s xs ++ (d ∷ [])
  inserted_before zero s xs d le = refl
  inserted_before (suc i) s [] d le = absurd (omega arith)
  inserted_before (suc i) s (x ∷ xs) d le = ap (λ r. x ∷ r) (inserted_before i s xs d (omega arith))

  -- A score that stands below the last page stands below all that bounds the pages.
  place-Below :
      (xs : List (Scored k)) (score i c : ℕ)
      → IsPlace k xs score i
      → i < length xs
      → Below k c xs
      → score ≤ c
  place-Below [] score i c _ lt _ = absurd (omega arith)
  place-Below (x ∷ xs) score zero c place _ (h, _) = let (g, _) = place.behind in omega arith
  place-Below (x ∷ xs) score (suc i) c place lt (_, hs) =
      let le = place.within in
      let (_, lows) = place.before in
      place-Below xs score i c
        (record { within = omega arith; before = lows; behind = place.behind }) (omega arith) hs

  insert_at-eq :
      (i : ℕ) (s : Scored k) (xs : List (Scored k)) {ys : List (Scored k)}
      → insert_at k i s xs ≡ some ys
      → (i ≤ length xs) × (inserted k i s xs ≡ ys)
  unfolding insert_at
  insert_at-eq i s xs e = ground arith

  -- in a ranked list the last page scores highest
  IsRanked-last :
      (ys : List (Scored k)) (d : Scored k)
      → IsRanked k (ys ++ (d ∷ []))
      → Below k d.score ys × IsRanked k ys
  IsRanked-last [] d _ = (tt, tt)
  IsRanked-last (y ∷ ys) d (h, hs) =
      let (low, ranked) = IsRanked-last ys d hs in
      let (last, _) = All-right (λ s. y.score ≤ s.score) ys (d ∷ []) h in
      ((last, low), (All-left (λ s. y.score ≤ s.score) ys (d ∷ []) h, ranked))

  module _ (b : BinarySearch) (count : ℕ) where
    -- What a round makes of the collected pages: they stay ranked and at most `count`, and what is dropped
    -- scores at least as high as all that is kept.
    pub record IsRetained (xs : List (Scored k)) (s : Scored k) (ys : List (Scored k))
        : Type 0 where
      pub ranked : IsRanked k ys
      pub sized : length ys ≡ min count (suc (length xs))
      pub dropped : List (Scored k)
      pub order : Permᴰ (s ∷ xs) (ys ++ dropped)
      pub top : All (λ d. Below k d.score ys) dropped
      pub low : (c : ℕ) → length xs ≡ count → Below k c xs → Below k c ys

    module _ (xs : List (Scored k)) (s : Scored k) where
      abbrev place : ℕ
      place = position (b.search (ranks k xs) s.score)

      placed : IsRanked k xs → IsRanked k (inserted k place s xs)
      placed ranked = inserted-IsRanked k place s xs ranked (position-IsPlace k b xs s.score ranked)

      longer : length (inserted k place s xs) ≡ suc (length xs)
      longer = sym (length-Permᴰ (inserted-Permᴰ k place s xs))

      roomy :
          {ys : List (Scored k)}
          → IsRanked k xs
          → length xs < count
          → insert_at k place s xs ≡ some ys
          → IsRetained xs s ys
      roomy {ys} ranked room e =
          let (_, same) = insert_at-eq place s xs e in
          record {
            ranked = subst (IsRanked k) same (placed ranked);
            sized = sym (ap (λ r. length r) same) ∙ (longer ∙ fits);
            dropped = [];
            order =
                rw append-nil (subst (λ r. Permᴰ (s ∷ xs) r) same (inserted-Permᴰ k place s xs));
            top = tt;
            low = λ c full _. absurd (omega arith);
          }
        where
          fits : suc (length xs) ≡ min count (suc (length xs))
          fits = omega arith

      full_split :
          {ys : List (Scored k)}
          → 0 < length xs
          → insert_at k place s (pop k xs) ≡ some ys
          → (d : Scored k) × (inserted k place s xs ≡ ys ++ (d ∷ [])) × (place < length xs)
      full_split some_there e =
          let (d, split) = last_split (length xs - 1) xs (omega arith) in
          let (le, same) = insert_at-eq place s (pop k xs) e in
          (
            d,
            ap (inserted k place s) split
                ∙ (inserted_before place s (pop k xs) d le ∙ ap (λ r. r ++ (d ∷ [])) same),
            omega (arith, length-take (length xs - 1) xs),
          )

      full :
          {ys : List (Scored k)}
          → IsRanked k xs
          → 0 < count
          → length xs ≡ count
          → insert_at k place s (pop k xs) ≡ some ys
          → IsRetained xs s ys
      full {ys} ranked pos filled e =
          let (d, split, inside) = full_split (omega arith) e in
          let (below, ranked') = IsRanked-last ys d (subst (IsRanked k) split (placed ranked)) in
          let same_size : length ys + 1 ≡ suc (length xs) =
            sym (length-append ys (d ∷ [])) ∙ (sym (ap (λ r. length r) split) ∙ longer) in
          let order = subst (λ r. Permᴰ (s ∷ xs) r) split (inserted-Permᴰ k place s xs) in
          record {
            ranked = ranked';
            sized = omega arith;
            dropped = d ∷ [];
            order = order;
            top = (below, tt);
            low = λ c _ h.
                All-left (λ e. e.score ≤ c) ys (d ∷ [])
                  (All-Permᴰ (λ e. e.score ≤ c) order
                    (
                      place-Below xs s.score place c (position-IsPlace k b xs s.score ranked) inside
                          h,
                      h,
                    ));
          }

      pub retain-IsRetained :
          {ys : List (Scored k)}
          → IsRanked k xs
          → 0 < count
          → length xs ≤ count
          → retain k b count xs s ≡ some ys
          → IsRetained xs s ys
      unfolding retain
      retain-IsRetained ranked pos within e = elim (Bool-cases (leb count (length xs))) [
        | inl filled ↦
            full ranked pos (let le = leb→le count (length xs) filled in omega arith)
              (rw filled at e)
        | inr room ↦ roomy ranked (leb-false room) (rw room at e)
      ]
        where
          leb-false : leb count (length xs) ≡ false → length xs < count
          leb-false e = ground arith
