-- ===== src/Cache/Evict/Emptied.antt =====
-- `PageStore::evict` of at least as many pages as are cached, and a fetch behind it,
-- kobzar/src/q_engine/storage/idx_common.rs.
use kobzar.Base.{
  ℕ, suc, ◌+◌, ◌≤◌, ◌<◌, ◌≡◌, ◌≢◌, refl, ap, ◌∙◌, sym, subst, arith, List, [], ◌∷◌, ◌++◌, none,
  some, length, All, Option-cases, inl, inr, lt→leb, le→leb, ◌⊎◌, length-append, append-nil,
}
use kobzar.Base.Maps
use kobzar.Base.Perms.{All-Permᴰ, length-Permᴰ}
use kobzar.Base.Search.{BinarySearch}
use kobzar.Cache.Ring.{CacheMeta}
use kobzar.Cache.Store.{KeyExt, PageStore}
use kobzar.Cache.Store.Laws.{IsValid}
use kobzar.Cache.Evict.{Scored, position, insert_at, retain, scan, evict}
use kobzar.Cache.Evict.Select.{IsRanked, ranks, position-IsPlace, inserted}
use kobzar.Cache.Evict.Scan.{retain-IsRetained}
use kobzar.Cache.Evict.Least.{scored, score_of, rotated}
use kobzar.Cache.Evict.Drop.{dropped_all}
use kobzar.Cache.Evict.Freed.{IsEvicted, evict-IsEvicted}
use mathlib.Core.List.{Permᴰ}
use mathlib.Core.List.Permᴰ
use mathlib.Core.Option

module _ (k : KeyExt) (b : BinarySearch) (count : ℕ) where
  open k use {PageKey, same}

  retain_roomy :
      (xs : List (Scored k)) (s : Scored k)
      → IsRanked k xs
      → length xs < count
      → (ys : List (Scored k)) × (retain k b count xs s ≡ some ys)
  unfolding retain insert_at
  retain_roomy xs s ranked room =
      let place = position-IsPlace k b xs s.score ranked in
      (
        inserted k (position (b.search (ranks k xs) s.score)) s xs,
        rw (lt→leb count (length xs) room, le→leb _ (length xs) place.within) refl,
      )

  scan_roomy :
      (now : ℕ) (es : List (PageKey × CacheMeta)) (xs : List (Scored k))
      → IsRanked k xs
      → length xs + length es ≤ count
      → (r : List (PageKey × CacheMeta) × List (Scored k)) × (scan k b count now es xs ≡ some r)
  unfolding scan
  scan_roomy now [] xs ranked room = (_, refl)
  scan_roomy now ((key, meta) ∷ es) xs ranked room =
      let (ys, kept) = retain_roomy xs (score_of k now (key, meta)) ranked (omega arith) in
      let r =
        retain-IsRetained k b count xs (score_of k now (key, meta)) ranked (omega arith)
          (omega arith) kept in
      let (rest, done) = scan_roomy now es ys r.ranked (let n = r.sized in omega arith) in
      (((key, rotated k now meta) ∷ rest.0, rest.1), rw (kept, done) refl)

  -- the page of a key that is mapped is among the scored ones
  scored_key :
      (now : ℕ) (Q : PageKey → Type 0) (i : PageKey) (es : List (PageKey × CacheMeta))
      {meta : CacheMeta}
      → Maps.get same i es ≡ some meta
      → All (λ s. Q s.key) (scored k now es)
      → Q i
  unfolding Maps.get
  scored_key now Q i [] e _ = absurd (cc (e))
  scored_key now Q i ((j, v) ∷ es) {meta} e (q, qs) =
      elim (same j i) as (λ d. (d ≡ same j i) → Q i) [
        | yes p ↦ λ _. subst Q p q
        | no n ↦ λ d. scored_key now Q i es (rw (sym d) at e) qs
      ]
        refl

  not_among :
      (out : List (Scored k)) (i : PageKey)
      → All (λ s. s.key ≢ i) out ⊎ ((Q : PageKey → Type 0) → All (λ s. Q s.key) out → Q i)
  not_among [] i = inl tt
  not_among (s ∷ out) i = elim (same s.key i) [
    | yes p ↦ inr (λ Q q. subst Q p q.0)
    | no n ↦ elim (not_among out i) [
      | inl none_there ↦ inl (n, none_there)
      | inr there ↦ inr (λ Q q. there Q q.1)
    ]
  ]

  length-scored : (now : ℕ) (es : List (PageKey × CacheMeta)) → length (scored k now es) ≡ length es
  length-scored now [] = refl
  length-scored now (e ∷ es) = ap suc (length-scored now es)

  nothing_left : (rest : List (Scored k)) → length rest ≡ 0 → rest ≡ []
  nothing_left [] _ = refl
  nothing_left (s ∷ rest) e = absurd (omega arith)

  module _ (P : Type 0) (st : PageStore k P) where
    -- where nothing stays, all pages are among those that are gone
    All-gone :
        {st' : PageStore k P} (r : IsEvicted k P b count st st') (Q : PageKey → Type 0)
        → length st.page_map ≤ count
        → All (λ s. Q s.key) r.out
        → All (λ s. Q s.key) (scored k st.last_gen st.page_map)
    All-gone r Q few all =
        let long = length-Permᴰ r.order in
        let parts = length-append r.out r.rest in
        let entries = length-scored st.last_gen st.page_map in
        let n = r.sized in
        let empty = nothing_left r.rest (omega arith) in
        All-Permᴰ (λ s. Q s.key)
          (Permᴰ.symm
            (subst (λ l. Permᴰ (scored k st.last_gen st.page_map) (r.out ++ l)) empty r.order))
          (rw append-nil all)

    unmapped :
        {st' : PageStore k P}
        → length st.page_map ≤ count
        → IsEvicted k P b count st st'
        → (i : PageKey) → Maps.get same i st'.page_map ≡ none
    unmapped {st'} few r i = elim (not_among r.out i) [
      | inr there ↦ there (λ j. Maps.get same j st'.page_map ≡ none) r.gone
      | inl absent ↦ elim (Option-cases (Maps.get same i st.page_map)) [
        | inl missing ↦ r.others i absent ∙ ap (Option.map (rotated k st.last_gen)) missing
        | inr (meta, present) ↦ absurd (
            scored_key st.last_gen (λ j. j ≢ i) i st.page_map present
              (All-gone r (λ j. j ≢ i) few absent) refl)
      ]
    ]

    -- x
    pub evict_all :
        0 < count
        → IsValid k P st
        → length st.page_map ≤ count
        → (st' : PageStore k P) × (evict k b count P st ≡ some st')
          × ((i : PageKey) → Maps.get same i st'.page_map ≡ none)
          × (st'.pages ≡ st.pages)
          × (st'.last_gen ≡ st.last_gen)
          × IsValid k P st'
    unfolding evict
    evict_all pos v few =
        let (r, done) = scan_roomy st.last_gen st.page_map [] tt (omega arith) in
        let st' : PageStore k P = dropped_all k b count P (record st { page_map = r.0 }) r.1 in
        let e : evict k b count P st ≡ some st' = rw done refl in
        let r = evict-IsEvicted k P b count st pos v e in
        (st', e, unmapped few r, r.kept_pages, r.kept_gen, r.valid)
