-- ===== src/Cache/Evict/Select.antt =====
-- Which pages `PageStore::evict` collects, kobzar/src/q_engine/storage/idx_common.rs.
use kobzar.Base.{
  ℕ, zero, suc, ◌≤◌, ◌<◌, ◌≡◌, refl, arith, List, [], ◌∷◌, ◌++◌, map, some, length, take, drop,
  get_elem?, All,
}
use kobzar.Base.Perms.{All-Permᴰ}
use kobzar.Base.Search.{BinarySearch, Found, found, absent, IsSorted}
use kobzar.Cache.Store.{KeyExt}
use kobzar.Cache.Evict.{position, Scored}
use mathlib.Core.List.{Permᴰ}
use mathlib.Core.List.Permᴰ

module _ (k : KeyExt) where
  abbrev pub Below : ℕ → List (Scored k) → Type 0
  Below b xs = All (λ s. s.score ≤ b) xs

  abbrev pub Above : ℕ → List (Scored k) → Type 0
  Above b xs = All (λ s. b ≤ s.score) xs

  -- in ascending order of score
  abbrev pub IsRanked : List (Scored k) → Type 0
  IsRanked [] = Unit
  IsRanked (s ∷ xs) = Above s.score xs × IsRanked xs

  abbrev pub ranks : List (Scored k) → List ℕ
  ranks xs = map (λ e. e.score) xs

  pub IsRanked-IsSorted : (xs : List (Scored k)) → IsRanked xs → IsSorted (ranks xs)
  IsRanked-IsSorted [] _ = tt
  IsRanked-IsSorted (x ∷ xs) (h, hs) = (above xs h, IsRanked-IsSorted xs hs)
    where
      above : (ys : List (Scored k)) → Above x.score ys → All (λ y. x.score ≤ y) (ranks ys)
      above [] _ = tt
      above (y ∷ ys) (g, gs) = (g, above ys gs)

  Above-mono : {a b : ℕ} (xs : List (Scored k)) → a ≤ b → Above b xs → Above a xs
  Above-mono [] _ _ = tt
  Above-mono {a = a} {b = b} (x ∷ xs) le (h, hs) =
      (omega arith, Above-mono {a = a} {b = b} xs le hs)

  Below-mono : {a b : ℕ} (xs : List (Scored k)) → a ≤ b → Below a xs → Below b xs
  Below-mono [] _ _ = tt
  Below-mono {a = a} {b = b} (x ∷ xs) le (h, hs) =
      (omega arith, Below-mono {a = a} {b = b} xs le hs)

  -- An index at which a page of the score can be inserted in order.
  pub record IsPlace (xs : List (Scored k)) (score i : ℕ) : Type 0 where
    pub within : i ≤ length xs
    pub before : Below score (take i xs)
    pub behind : Above score (drop i xs)

  found-IsPlace :
      (xs : List (Scored k)) (score i : ℕ)
      → IsRanked xs
      → get_elem? (ranks xs) i ≡ some score
      → IsPlace xs score i
  found-IsPlace [] score i _ e = absurd (ground arith)
  found-IsPlace (x ∷ xs) score zero (h, _) e =
      let same : x.score ≡ score = cc (e) in
      record {
        within = omega arith;
        before = tt;
        behind = (omega arith, Above-mono {a = score} {b = x.score} xs (omega arith) h);
      }
  found-IsPlace (x ∷ xs) score (suc i) (h, hs) e =
      let rest = found-IsPlace xs score i hs e in
      record {
        within = let le = rest.within in omega arith;
        before = (found_above xs i h e, rest.before);
        behind = rest.behind;
      }
    where
      found_above :
          (ys : List (Scored k)) (j : ℕ)
          → Above x.score ys
          → get_elem? (ranks ys) j ≡ some score
          → x.score ≤ score
      found_above [] j _ e = absurd (ground arith)
      found_above (y ∷ ys) zero (g, _) e = let same : y.score ≡ score = cc (e) in omega arith
      found_above (y ∷ ys) (suc j) (_, gs) e = found_above ys j gs e

  absent-IsPlace :
      (xs : List (Scored k)) (score i : ℕ)
      → (i ≤ length (ranks xs))
        × All (λ x. x < score) (take i (ranks xs))
        × All (λ x. score < x) (drop i (ranks xs))
      → IsPlace xs score i
  absent-IsPlace [] score zero h = record { within = omega arith; before = tt; behind = tt }
  absent-IsPlace [] score (suc i) (le, _, _) = absurd (omega arith)
  absent-IsPlace (x ∷ xs) score zero (le, _, (h, hs)) = record {
    within = omega arith;
    before = tt;
    behind = (omega arith, above xs hs);
  }
    where
      above : (ys : List (Scored k)) → All (λ y. score < y) (ranks ys) → Above score ys
      above [] _ = tt
      above (y ∷ ys) (g, gs) = (omega arith, above ys gs)
  absent-IsPlace (x ∷ xs) score (suc i) (le, (h, hs), gs) =
      let rest = absent-IsPlace xs score i (omega arith, hs, gs) in
      record {
        within = let le' = rest.within in omega arith;
        before = (omega arith, rest.before);
        behind = rest.behind;
      }

  module _ (b : BinarySearch) where
    pub position-IsPlace :
        (xs : List (Scored k)) (score : ℕ)
        → IsRanked xs
        → IsPlace xs score (position (b.search (ranks xs) score))
    unfolding position
    position-IsPlace xs score ranked = at (b.search (ranks xs) score) refl
      where
        at : (r : Found) → b.search (ranks xs) score ≡ r → IsPlace xs score (position r)
        at (found i) e =
            found-IsPlace xs score i ranked
              (b.search_found (ranks xs) score i (IsRanked-IsSorted xs ranked) e)
        at (absent i) e =
            absent-IsPlace xs score i
              (b.search_absent (ranks xs) score i (IsRanked-IsSorted xs ranked) e)

  -- the list with the page inserted
  abbrev pub inserted : ℕ → Scored k → List (Scored k) → List (Scored k)
  inserted i s xs = take i xs ++ (s ∷ drop i xs)

  pub inserted-Permᴰ :
      (i : ℕ) (s : Scored k) (xs : List (Scored k)) → Permᴰ (s ∷ xs) (inserted i s xs)
  inserted-Permᴰ zero s xs = Permᴰ.refl (s ∷ xs)
  inserted-Permᴰ (suc i) s [] = Permᴰ.refl (s ∷ [])
  inserted-Permᴰ (suc i) s (x ∷ xs) =
      Permᴰ.trans (Permᴰ.swap refl refl) (Permᴰ.cons refl (inserted-Permᴰ i s xs))

  pub inserted-IsRanked :
      (i : ℕ) (s : Scored k) (xs : List (Scored k))
      → IsRanked xs
      → IsPlace xs s.score i
      → IsRanked (inserted i s xs)
  inserted-IsRanked zero s xs ranked place = (place.behind, ranked)
  inserted-IsRanked (suc i) s [] _ _ = (tt, tt)
  inserted-IsRanked (suc i) s (x ∷ xs) (h, ranked) place =
      let le = place.within in
      let (low, lows) = place.before in
      (
        All-Permᴰ (λ e. x.score ≤ e.score) (inserted-Permᴰ i s xs) (low, h),
        inserted-IsRanked i s xs ranked
            (record { within = omega arith; before = lows; behind = place.behind }),
      )
