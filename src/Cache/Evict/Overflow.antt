-- ===== src/Cache/Evict/Overflow.antt =====
-- When `PageStore::evict` panics, kobzar/src/q_engine/storage/idx_common.rs.
use kobzar.Base.{
  ℕ, suc, ◌-◌, ◌≤◌, ◌<◌, ◌≡◌, ◌↔◌, refl, ap, ◌∙◌, arith, List, [], ◌∷◌, ◌++◌, none, some, length,
  All, leb, le→leb, leb→le, Bool-cases, Option-cases, ◌⊎◌, inl, inr, false, length-take, take_all,
}
use kobzar.Base.Elements.{get_elem?-lt}
use kobzar.Base.Search.{BinarySearch, Found, found, absent}
use kobzar.Cache.Ring.{CacheMeta}
use kobzar.Cache.Store.{KeyExt, PageStore}
use kobzar.Cache.Evict.{position, Scored, pop, insert_at, retain, scan, evict}
use kobzar.Cache.Evict.Select.{
  IsRanked, IsRanked-IsSorted, IsPlace, ranks, position-IsPlace, inserted,
}
use kobzar.Cache.Evict.Scan.{retain-IsRetained}
use kobzar.Cache.Evict.Least.{score_of, rotated, scan-step}
use kobzar.Cache.Evict.Panics.{retain_panics}

module _ (k : KeyExt) (b : BinarySearch) (count : ℕ) where
  open k use {PageKey}

  length-ranks : (xs : List (Scored k)) → length (ranks k xs) ≡ length xs
  length-ranks [] = refl
  length-ranks (x ∷ xs) = ap suc (length-ranks xs)

  -- A page whose place is behind all others scores above all of them.
  position-last :
      (xs : List (Scored k)) (score : ℕ)
      → IsRanked k xs
      → length xs ≤ position (b.search (ranks k xs) score)
      → All (λ r. r < score) (ranks k xs)
  unfolding position
  position-last xs score ranked last = at (b.search (ranks k xs) score) refl last
    where
      at :
          (r : Found)
          → b.search (ranks k xs) score ≡ r
          → length xs ≤ position r
          → All (λ r. r < score) (ranks k xs)
      at (found i) e le =
          let there = b.search_found (ranks k xs) score i (IsRanked-IsSorted k xs ranked) e in
          absurd (omega (arith, get_elem?-lt (ranks k xs) i there, length-ranks xs))
      at (absent i) e le =
          let (_, below, _) =
            b.search_absent (ranks k xs) score i (IsRanked-IsSorted k xs ranked) e in
          rw (take_all (ranks k xs) i (omega (arith, length-ranks xs))) at below

  abbrev pub Tops : ℕ → List (Scored k) → Type 0
  Tops score xs = All (λ r. r < score) (ranks k xs)

  retain_cases :
      (xs : List (Scored k)) (s : Scored k)
      → IsRanked k xs
      → 0 < count
      → length xs ≤ count
      → ((ys : List (Scored k)) × (retain k b count xs s ≡ some ys))
        ⊎ ((length xs ≡ count) × Tops s.score xs)
  unfolding retain insert_at
  retain_cases xs s ranked pos within =
      elim (Bool-cases (leb (position (b.search (ranks k xs) s.score)) (length (pop k xs)))) [
        | inl fits ↦ elim (Bool-cases (leb count (length xs))) [
          | inl full ↦ inl (inserted k place s (pop k xs), rw (full, fits) refl)
          | inr room ↦
              inl (inserted k place s xs, rw (room, le→leb place (length xs) at_place.within) refl)
        ]
        | inr behind ↦ elim (Bool-cases (leb count (length xs))) [
          | inl full ↦ inr (
            let le = leb→le count (length xs) full in omega arith,
            position-last xs s.score ranked (last behind),
          )
          | inr room ↦
              inl (inserted k place s xs, rw (room, le→leb place (length xs) at_place.within) refl)
        ]
      ]
    where
      place : ℕ
      place = position (b.search (ranks k xs) s.score)

      at_place : IsPlace k xs s.score place
      at_place = position-IsPlace k b xs s.score ranked

      last : leb place (length (pop k xs)) ≡ false → length xs ≤ place
      last e = ground (arith, length-take (length xs - 1) xs)

  module _ (now : ℕ) where
    -- On the way through the entries, a page scores above all of the `count` pages that are collected from
    -- those before it.
    pub record Overflow (xs : List (Scored k)) (es : List (PageKey × CacheMeta)) : Type 0 where
      pub before : List (PageKey × CacheMeta)
      pub entry : PageKey × CacheMeta
      pub after : List (PageKey × CacheMeta)
      pub split : es ≡ before ++ (entry ∷ after)
      pub collected : List (PageKey × CacheMeta) × List (Scored k)
      pub scanned : scan k b count now before xs ≡ some collected
      pub full : length collected.1 ≡ count
      pub highest : Tops (score_of k now entry).score collected.1

    scan-none :
        (es : List (PageKey × CacheMeta)) (xs : List (Scored k))
        → IsRanked k xs
        → 0 < count
        → length xs ≤ count
        → scan k b count now es xs ≡ none
        → Overflow xs es
    unfolding scan
    scan-none [] xs _ _ _ e = absurd (cc (e))
    scan-none ((key, meta) ∷ es) xs ranked pos within e =
        elim (retain_cases xs (score_of k now (key, meta)) ranked pos within) [
          | inr (full, above) ↦ record {
            before = [];
            entry = (key, meta);
            after = es;
            split = refl;
            collected = ([], xs);
            scanned = refl;
            full = full;
            highest = above;
          }
          | inl (ys, kept) ↦
              let r =
                retain-IsRetained k b count xs (score_of k now (key, meta)) ranked pos within
                  kept in
              let more =
                scan-none es ys r.ranked pos (let n = r.sized in omega arith) (rest ys kept) in
              record {
                before = (key, meta) ∷ more.before;
                entry = more.entry;
                after = more.after;
                split = ap (λ l. (key, meta) ∷ l) more.split;
                collected = ((key, rotated k now meta) ∷ more.collected.0, more.collected.1);
                scanned = rw (kept, more.scanned) refl;
                full = more.full;
                highest = more.highest;
              }
        ]
      where
        rest :
            (ys : List (Scored k))
            → retain k b count xs (score_of k now (key, meta)) ≡ some ys
            → scan k b count now es ys ≡ none
        rest ys kept = elim (Option-cases (scan k b count now es ys)) [
          | inl failed ↦ failed
          | inr (r, done) ↦ absurd (let h = rw (kept, done) at e in cc (h))
        ]

    scan-Overflow :
        (before : List (PageKey × CacheMeta)) (entry : PageKey × CacheMeta)
        (after : List (PageKey × CacheMeta)) (xs : List (Scored k))
        {r : List (PageKey × CacheMeta) × List (Scored k)}
        → IsRanked k xs
        → 0 < count
        → length xs ≤ count
        → scan k b count now before xs ≡ some r
        → length r.1 ≡ count
        → Tops (score_of k now entry).score r.1
        → scan k b count now (before ++ (entry ∷ after)) xs ≡ none
    unfolding scan
    scan-Overflow [] (key, meta) after xs {r} ranked pos within done full above =
        let whole : ([], xs) ≡ r = cc (done) in
        let same : xs ≡ r.1 =
          ap (λ (p : List (PageKey × CacheMeta) × List (Scored k)). p.1) whole in
        let tops : Tops (score_of k now (key, meta)).score xs = rw same above in
        let long : length xs ≡ count = ap (λ (l : List (Scored k)). length l) same ∙ full in
        let panics =
          retain_panics k b count xs (score_of k now (key, meta)) pos (omega arith)
            (IsRanked-IsSorted k xs ranked) tops in
        rw panics refl
    scan-Overflow ((key, meta) ∷ before) entry after xs ranked pos within done full above =
        let (ys, es', kept, rest, _) = scan-step k b count now key meta before xs done in
        let r =
          retain-IsRetained k b count xs (score_of k now (key, meta)) ranked pos within kept in
        rw
          (
            kept,
            scan-Overflow before entry after ys r.ranked pos (let n = r.sized in omega arith) rest
                full above,
          )
          refl

  -- With a count above 0, evict panics exactly where, on the way through the pages, one scores
  -- above all of the pages that its first loop has collected from those before it, and these are
  -- as many as the count.
  pub evict-none_iff :
      (P : Type 0) (st : PageStore k P)
      → 0 < count
      → (evict k b count P st ≡ none) ↔ Overflow st.last_gen [] st.page_map
  unfolding evict
  evict-none_iff P st pos = (
    λ e. scan-none st.last_gen st.page_map [] tt pos (omega arith) (failed e),
    λ o.
        let stops =
          scan-Overflow st.last_gen o.before o.entry o.after [] tt pos (omega arith) o.scanned
            o.full o.highest in
        let all : scan k b count st.last_gen st.page_map [] ≡ none = rw o.split stops in
        rw all refl,
  )
    where
      failed : evict k b count P st ≡ none → scan k b count st.last_gen st.page_map [] ≡ none
      failed e = elim (Option-cases (scan k b count st.last_gen st.page_map [])) [
        | inl stopped ↦ stopped
        | inr (r, done) ↦ absurd (let h = rw done at e in cc (h))
      ]
