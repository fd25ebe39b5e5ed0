-- ===== src/Cache/Evict/Least.antt =====
-- What the first loop of `PageStore::evict` collects, kobzar/src/q_engine/storage/idx_common.rs.
use kobzar.Base.{
  ℕ, ◌+◌, ◌≤◌, ◌<◌, ◌≡◌, ap, ◌∙◌, sym, subst, arith, min, List, [], ◌∷◌, ◌++◌, map, some, length,
  All, append_assoc, Option-cases, inl, inr, length-append,
}
use kobzar.Base.Maps.{All-append}
use kobzar.Base.Perms.{length-Permᴰ}
use kobzar.Base.Search.{BinarySearch}
use kobzar.Cache.Ring.{CacheMeta, eviction_score}
use kobzar.Cache.Store.{KeyExt}
use kobzar.Cache.Evict.{Scored, retain, scan}
use kobzar.Cache.Evict.Select.{Below, IsRanked}
use kobzar.Cache.Evict.Scan.{IsRetained, retain-IsRetained, swap_front}
use mathlib.Core.List.{Permᴰ}
use mathlib.Core.List.Permᴰ

module _ (k : KeyExt) where
  open k use {PageKey}

  abbrev pub score_of : ℕ → PageKey × CacheMeta → Scored k
  score_of now e = record { idx = e.1.idx; score = (eviction_score e.1 now).0; key = e.0 }

  abbrev pub scored : ℕ → List (PageKey × CacheMeta) → List (Scored k)
  scored now es = map (score_of now) es

  abbrev pub rotated : ℕ → CacheMeta → CacheMeta
  rotated now meta = (eviction_score meta now).1

  module _ (b : BinarySearch) (count now : ℕ) where
    pub scan-step :
        (key : PageKey) (meta : CacheMeta) (es : List (PageKey × CacheMeta)) (xs : List (Scored k))
        {r : List (PageKey × CacheMeta) × List (Scored k)}
        → scan k b count now ((key, meta) ∷ es) xs ≡ some r
        → (ys : List (Scored k)) × (es' : List (PageKey × CacheMeta)) × (retain k b count xs
              (score_of now (key, meta))
            ≡ some ys)
          × (scan k b count now es ys ≡ some (es', r.1))
          × ((key, rotated now meta) ∷ es' ≡ r.0)
    unfolding scan
    scan-step key meta es xs {r} e =
        elim (Option-cases (retain k b count xs (score_of now (key, meta)))) [
          | inl failed ↦ absurd (let h = rw failed at e in cc (h))
          | inr (ys, kept) ↦ elim (Option-cases (scan k b count now es ys)) [
            | inl failed ↦ absurd (let h = rw (kept, failed) at e in cc (h))
            | inr ((es', out), done) ↦
                let same = rw (kept, done) at e in
                let pair : ◌≡◌ {A = List (PageKey × CacheMeta) × List (Scored k)}
                    ((key, rotated now meta) ∷ es', out) r =
                  cc (same) in
                (
                  ys,
                  es',
                  kept,
                  done
                      ∙ ap (λ (p : List (PageKey × CacheMeta) × List (Scored k)). some (es', p.1))
                          pair,
                  ap (λ (p : List (PageKey × CacheMeta) × List (Scored k)). p.0) pair,
                )
          ]
        ]

    -- the first loop rotates the ring of every entry
    pub scan-rotated :
        (es : List (PageKey × CacheMeta)) (xs : List (Scored k))
        {r : List (PageKey × CacheMeta) × List (Scored k)}
        → scan k b count now es xs ≡ some r
        → r.0 ≡ map (λ e. (e.0, rotated now e.1)) es
    unfolding scan
    scan-rotated [] xs e = cc (e)
    scan-rotated ((key, meta) ∷ es) xs e =
        let (ys, es', _, done, same) = scan-step key meta es xs e in
        sym same ∙ ap (λ r. (key, rotated now meta) ∷ r) (scan-rotated es ys done)

    -- The pages collected from `xs` on are as many as there are, up to `count`, and none of the others
    -- scores less than one of them.
    pub record IsLeast (xs : List (Scored k)) (es : List (PageKey × CacheMeta))
        (out : List (Scored k)) : Type 0 where
      pub sized : length out ≡ min count (length xs + length es)
      pub rest : List (Scored k)
      pub order : Permᴰ (xs ++ scored now es) (out ++ rest)
      pub least : All (λ d. Below k d.score out) rest
      pub low : (c : ℕ) → length xs ≡ count → Below k c xs → Below k c out

    IsLeast-step :
        (key : PageKey) (meta : CacheMeta) (es : List (PageKey × CacheMeta)) (xs : List (Scored k))
        {ys out : List (Scored k)}
        → length xs ≤ count
        → IsRetained k b count xs (score_of now (key, meta)) ys
        → IsLeast ys es out
        → IsLeast xs ((key, meta) ∷ es) out
    IsLeast-step key meta es xs {ys} {out} within r l = record {
      sized = let n = r.sized in let m = l.sized in omega arith;
      rest = r.dropped ++ l.rest;
      order = Permᴰ.trans (Permᴰ.middle s xs S) (Permᴰ.trans (Permᴰ.append_right S r.order) moved);
      least = All-append _ r.dropped l.rest dropped_least l.least;
      low = λ c full h. l.low c (let n = r.sized in omega arith) (r.low c full h);
    }
      where
        s : Scored k
        s = score_of now (key, meta)

        S : List (Scored k)
        S = scored now es

        moved : Permᴰ ((ys ++ r.dropped) ++ S) (out ++ (r.dropped ++ l.rest))
        moved = rw (append_assoc) (
            Permᴰ.trans (swap_front ys r.dropped S)
              (Permᴰ.trans (Permᴰ.append_left r.dropped l.order) (swap_front r.dropped out l.rest)))

        bounded :
            (ds : List (Scored k))
            → (0 < length ds → length ys ≡ count)
            → All (λ d. Below k d.score ys) ds
            → All (λ d. Below k d.score out) ds
        bounded [] _ _ = tt
        bounded (d ∷ ds) filled (h, hs) =
            (l.low d.score (filled (omega arith)) h, bounded ds (λ _. filled (omega arith)) hs)

        dropped_least : All (λ d. Below k d.score out) r.dropped
        dropped_least =
            let long = length-Permᴰ r.order in
            let parts = length-append ys r.dropped in
            let n = r.sized in bounded r.dropped (λ p. omega arith) r.top

    pub scan-IsLeast :
        (es : List (PageKey × CacheMeta)) (xs : List (Scored k))
        {r : List (PageKey × CacheMeta) × List (Scored k)}
        → 0 < count
        → length xs ≤ count
        → IsRanked k xs
        → scan k b count now es xs ≡ some r
        → IsLeast xs es r.1
    unfolding scan
    scan-IsLeast [] xs {r} pos within ranked e =
        let same : xs ≡ r.1 = cc (e) in
        subst (IsLeast xs []) same (record {
          sized = omega arith;
          rest = [];
          order = Permᴰ.refl (xs ++ []);
          least = tt;
          low = λ c _ h. h;
        })
    scan-IsLeast ((key, meta) ∷ es) xs pos within ranked e =
        let (ys, es', kept, done, _) = scan-step key meta es xs e in
        let r = retain-IsRetained k b count xs (score_of now (key, meta)) ranked pos within kept in
        IsLeast-step key meta es xs within r
          (scan-IsLeast es ys pos (let n = r.sized in omega arith) r.ranked done)
