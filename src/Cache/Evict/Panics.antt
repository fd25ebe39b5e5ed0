-- ===== src/Cache/Evict/Panics.antt =====
-- The panics of `PageStore::evict`, kobzar/src/q_engine/storage/idx_common.rs.
use kobzar.Base.{
  ℕ, zero, suc, ◌+◌, ◌-◌, ◌≤◌, ◌<◌, ◌≡◌, refl, ap, arith, List, [], ◌∷◌, ◌++◌, map, none, some,
  length, drop, get_elem?, All, le→leb, lt→leb, length-take, length-append, take_all, drop_all,
  append_assoc,
}
use kobzar.Base.Search.{BinarySearch, Found, found, absent, IsSorted}
use kobzar.Cache.Ring.{CacheMeta, eviction_score}
use kobzar.Cache.Store.{KeyExt, PageStore}
use kobzar.Cache.Evict.{position, Scored, pop, insert_at, retain, scan, evict}

-- Where every element is smaller, a binary search ends behind the last one.
All-below_get :
    (xs : List ℕ) (key i v : ℕ) → All (λ x. x < key) xs → get_elem? xs i ≡ some v → v < key
All-below_get [] key i v _ e = absurd (ground arith)
All-below_get (x ∷ xs) key zero v (h, hs) e = ground arith
All-below_get (x ∷ xs) key (suc i) v (h, hs) e = All-below_get xs key i v hs e

All-below_drop :
    (xs : List ℕ) (key i : ℕ)
    → All (λ x. x < key) xs
    → All (λ x. key < x) (drop i xs)
    → i ≤ length xs
    → i ≡ length xs
All-below_drop [] key i _ _ le = omega arith
All-below_drop (x ∷ xs) key zero (h, hs) (g, gs) le = absurd (omega arith)
All-below_drop (x ∷ xs) key (suc i) (h, hs) gs le =
    ap suc (All-below_drop xs key i hs gs (omega arith))

position-above :
    (b : BinarySearch) (xs : List ℕ) (key : ℕ)
    → IsSorted xs
    → All (λ x. x < key) xs
    → position (b.search xs key) ≡ length xs
unfolding position
position-above b xs key sorted below = at (b.search xs key) refl
  where
    at : (r : Found) → b.search xs key ≡ r → position r ≡ length xs
    at (found i) e =
        absurd (omega (arith, All-below_get xs key i key below (b.search_found xs key i sorted e)))
    at (absent i) e =
        let (le, _, above) = b.search_absent xs key i sorted e in
        All-below_drop xs key i below above le

abbrev pub IsAscending : List ℕ → Type 0
IsAscending [] = Unit
IsAscending (x ∷ xs) = All (λ y. x < y) xs × IsAscending xs

All-left : (P : ℕ → Type 0) (xs ys : List ℕ) → All P (xs ++ ys) → All P xs
All-left P [] ys _ = tt
All-left P (x ∷ xs) ys (h, hs) = (h, All-left P xs ys hs)

All-here : (P : ℕ → Type 0) (xs : List ℕ) (y : ℕ) (ys : List ℕ) → All P (xs ++ (y ∷ ys)) → P y
All-here P [] y ys (h, _) = h
All-here P (x ∷ xs) y ys (_, hs) = All-here P xs y ys hs

weaken : (x : ℕ) (xs : List ℕ) → All (λ y. x < y) xs → All (λ y. x ≤ y) xs
weaken x [] _ = tt
weaken x (y ∷ ys) (h, hs) = (omega arith, weaken x ys hs)

-- the elements before `y` of an ascending list are sorted and all smaller
ascending_split :
    (xs : List ℕ) (y : ℕ) (ys : List ℕ)
    → IsAscending (xs ++ (y ∷ ys))
    → All (λ x. x < y) xs × IsSorted xs
ascending_split [] y ys h = (tt, tt)
ascending_split (x ∷ xs) y ys (above, h) =
    let (below, sorted) = ascending_split xs y ys h in
    (
      (All-here (λ z. x < z) xs y ys above, below),
      (weaken x xs (All-left (λ z. x < z) xs (y ∷ ys) above), sorted),
    )

module _ (k : KeyExt) (b : BinarySearch) (count : ℕ) where
  open k use {PageKey}

  abbrev pub scores : List (Scored k) → List ℕ
  scores xs = map (λ e. e.score) xs

  length-scores : (xs : List (Scored k)) → length (scores xs) ≡ length xs
  length-scores [] = refl
  length-scores (x ∷ xs) = ap suc (length-scores xs)

  length-pop : (xs : List (Scored k)) → length (pop k xs) ≡ length xs - 1
  length-pop xs = omega (arith, length-take (length xs - 1) xs)

  -- A page that scores above all of a full list makes the round panic: the index that was found before
  -- the list was shortened lies behind its end.
  pub retain_panics :
      (to_evict : List (Scored k)) (s : Scored k)
      → 0 < count
      → count ≤ length to_evict
      → IsSorted (scores to_evict)
      → All (λ x. x < s.score) (scores to_evict)
      → retain k b count to_evict s ≡ none
  unfolding retain insert_at
  retain_panics to_evict s pos full sorted below =
      rw
        (
          position-above b (scores to_evict) s.score sorted below,
          le→leb count (length to_evict) full,
          lt→leb (length (scores to_evict)) (length (pop k to_evict))
              (omega (arith, length-scores to_evict, length-pop to_evict)),
        )
        refl

  retain_appends :
      (to_evict : List (Scored k)) (s : Scored k)
      → length to_evict < count
      → IsSorted (scores to_evict)
      → All (λ x. x < s.score) (scores to_evict)
      → retain k b count to_evict s ≡ some (to_evict ++ (s ∷ []))
  unfolding retain insert_at
  retain_appends to_evict s room sorted below =
      rw
        (
          position-above b (scores to_evict) s.score sorted below,
          lt→leb count (length to_evict) room,
          le→leb (length (scores to_evict)) (length to_evict)
              (omega (arith, length-scores to_evict)),
          length-scores to_evict,
          take_all to_evict (length to_evict) (omega arith),
          drop_all to_evict (length to_evict) (omega arith),
        )
        refl

  abbrev pub scores_at : ℕ → List (PageKey × CacheMeta) → List ℕ
  scores_at now entries = map (λ e. (eviction_score e.1 now).0) entries

  scores-append :
      (xs : List (Scored k)) (s : Scored k) → scores (xs ++ (s ∷ [])) ≡ scores xs ++ (s.score ∷ [])
  scores-append [] s = refl
  scores-append (x ∷ xs) s = ap (λ r. x.score ∷ r) (scores-append xs s)

  scan_panics :
      (now : ℕ) (es : List (PageKey × CacheMeta)) (key : PageKey) (meta : CacheMeta)
      (rest : List (PageKey × CacheMeta)) (to_evict : List (Scored k))
      → 0 < count
      → length to_evict + length es ≡ count
      → IsAscending (scores to_evict ++ (scores_at now es ++ ((eviction_score meta now).0 ∷ [])))
      → scan k b count now (es ++ ((key, meta) ∷ rest)) to_evict ≡ none
  unfolding scan
  scan_panics now [] key meta rest to_evict pos full asc =
      let s : Scored k = record {
        idx = meta.idx;
        score = (eviction_score meta now).0;
        key = key;
      } in
      let (below, sorted) = ascending_split (scores to_evict) s.score [] asc in
      rw (retain_panics to_evict s pos (omega arith) sorted below) refl
  scan_panics now ((key', meta') ∷ es) key meta rest to_evict pos full asc =
      let s : Scored k = record {
        idx = meta'.idx;
        score = (eviction_score meta' now).0;
        key = key';
      } in
      let tail = scores_at now es ++ ((eviction_score meta now).0 ∷ []) in
      let (below, sorted) = ascending_split (scores to_evict) s.score tail asc in
      rw
        (
          retain_appends to_evict s (omega arith) sorted below,
          scan_panics now es key meta rest (to_evict ++ (s ∷ [])) pos
              (rw length-append (omega arith)) (rw (scores-append to_evict s, append_assoc) asc),
        )
        refl

  -- evict panics where the pages that it meets first are as many as it collects, in ascending
  -- order of score, at least one, and the next page scores above all of them.
  evict_panics :
      (P : Type 0) (st : PageStore k P) (es : List (PageKey × CacheMeta)) (key : PageKey)
      (meta : CacheMeta) (rest : List (PageKey × CacheMeta))
      → st.page_map ≡ es ++ ((key, meta) ∷ rest)
      → 0 < count
      → length es ≡ count
      → IsAscending (scores_at st.last_gen es ++ ((eviction_score meta st.last_gen).0 ∷ []))
      → evict k b count P st ≡ none
  unfolding evict
  evict_panics P st es key meta rest e pos full asc =
      rw (e, scan_panics st.last_gen es key meta rest [] pos (omega (arith, full)) asc) refl
