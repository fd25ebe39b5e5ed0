-- ===== src/Cache/Contents.antt =====
-- The cache as a map from keys to pages, kobzar/src/q_engine/storage/idx_common.rs.
use kobzar.Base.{
  ℕ, ◌<◌, ◌≡◌, ◌≢◌, refl, sym, ◌∙◌, ap, subst, List, [], ◌∷◌, Bool, Option, some, ◌>>=◌, length,
  get_elem?, set, All, Option-cases, inl, inr, ◌⊎◌,
}
use kobzar.Base.Maps
use mathlib.Core.Logic.{if_pos, if_neg}
use kobzar.Base.Maps.{Distinct}
use kobzar.Base.Elements.{get_elem?-append_left, get_elem?-set_self, get_elem?-set_ne}
use kobzar.Base.Results.{Result, ok, err}
use kobzar.Cache.Ring.{CacheMeta}
use kobzar.Cache.Ring
use kobzar.Cache.Store.{
  KeyExt, Files, FetchError, io, PageStore, touch_or_load, fetch, item_page_mut,
}
use kobzar.Cache.Store.Laws.{Fits, IsValid, HasNext, slots, touch-hit}
use kobzar.Cache.Store.Fetch.{IsFetched, cached_reached}
use kobzar.Cache.Store.Lend.{item_page_mut_cases}

module _ (k : KeyExt) (P : Type 0) where
  open k use {Key, PageKey, page_bound, same}

  -- the page in memory that the store maps a key to
  abbrev pub page_at : PageStore k P → PageKey → Option P
  page_at st key = Maps.get same key st.page_map >>= λ meta. get_elem? st.pages meta.idx

  -- the entry of a map that a key is found at
  get-cons :
      (i h : PageKey) (meta : CacheMeta) (m : List (PageKey × CacheMeta)) {a : CacheMeta}
      → Maps.get same i ((h, meta) ∷ m) ≡ some a
      → ((h ≡ i) × (meta ≡ a)) ⊎ ((h ≢ i) × (Maps.get same i m ≡ some a))
  unfolding Maps.get
  get-cons i h meta m {a} e = elim (same h i) [
    | yes p ↦
        let found : some meta ≡ some a =
          sym (if_pos (same h i) p (some meta) (Maps.get same i m)) ∙ e in
        inl (p, cc (found))
    | no q ↦ inr (q, sym (if_neg (same h i) q (some meta) (Maps.get same i m)) ∙ e)
  ]

  other_slot :
      (i : PageKey) (slot : ℕ) (m : List (PageKey × CacheMeta)) {a : CacheMeta}
      → All (λ s. s ≢ slot) (slots k P m)
      → Maps.get same i m ≡ some a
      → a.idx ≢ slot
  unfolding Maps.get
  other_slot i slot [] _ e = cc
  other_slot i slot ((h, meta) ∷ m) (n, ns) e = elim (get-cons i h meta m e) [
    | inl (_, one) ↦ subst (λ (c : CacheMeta). c.idx ≢ slot) one n
    | inr (_, rest) ↦ other_slot i slot m ns rest
  ]

  -- two keys have two slots
  slots_apart :
      (i j : PageKey) (m : List (PageKey × CacheMeta)) {a b : CacheMeta}
      → Distinct (slots k P m)
      → i ≢ j
      → Maps.get same i m ≡ some a
      → Maps.get same j m ≡ some b
      → b.idx ≢ a.idx
  unfolding Maps.get
  slots_apart i j [] _ ne e f = cc
  slots_apart i j ((h, meta) ∷ m) {a} {b} (n, ns) ne e f = elim (get-cons i h meta m e) [
    | inl (p, one) ↦ elim (get-cons j h meta m f) [
      | inl (q, _) ↦ absurd (ne (sym p ∙ q))
      | inr (_, rest) ↦
          subst (λ (c : CacheMeta). b.idx ≢ c.idx) one (other_slot j meta.idx m n rest)
    ]
    | inr (_, left) ↦ elim (get-cons j h meta m f) [
      | inl (_, one) ↦ λ same_idx.
          subst (λ (c : CacheMeta). a.idx ≢ c.idx) one (other_slot i meta.idx m n left)
            (sym same_idx)
      | inr (_, rest) ↦ slots_apart i j m ns ne left rest
    ]
  ]

  module _ (f : Files) (page_size : ℕ) (from_bytes : List ℕ → P) where
    open f use {Dir, IoError}

    -- a page that is cached is lent out from where it is
    fetch_cached :
        (st : PageStore k P) (s : Dir) (item_key : Key) (create : Bool) (meta : CacheMeta)
        → Maps.get same (page_bound item_key) st.page_map ≡ some meta
        → ((fetch k P f page_size from_bytes st s item_key create).2
            ≡ ok (Ring.touch meta st.last_gen))
          × ((fetch k P f page_size from_bytes st s item_key create).0.pages ≡ st.pages)
    unfolding fetch
    fetch_cached st s item_key create meta e =
        let key = page_bound item_key in
        let both =
          cached_reached k P f page_size from_bytes st s item_key create meta e
          ∙ ap (λ r. (r.0, s, ok tt)) (touch-hit k P st item_key meta e) in
        let reached = touch_or_load k P f page_size from_bytes st s item_key create in
        let okay : reached.2 ≡ ok tt = rw both refl in
        let there : Maps.get same key reached.0.page_map ≡ some (Ring.touch meta st.last_gen) =
          rw both
            (Maps.get-modify_self same key (λ m. Ring.touch m st.last_gen) st.page_map meta e) in
        let kept : reached.0.pages ≡ st.pages = rw both refl in
        (rw (okay, fetch, there) refl, rw (okay, fetch, there) kept)

    module _ (st : PageStore k P) (s : Dir) (item_key : Key) (create : Bool) where
      abbrev lent : PageStore k P × Dir × Result (FetchError IoError) ℕ
      lent = item_page_mut k P f page_size from_bytes st s item_key create

      -- the store with a page written at an index
      abbrev pub with_page : PageStore k P → ℕ → P → PageStore k P
      with_page st' idx page = record st' { pages = set st'.pages idx page }

      others_kept :
          {st' : PageStore k P} {meta : CacheMeta} (page : P) (j : PageKey)
          → IsValid k P st
          → IsFetched k P (page_bound item_key) meta st st'
          → j ≢ page_bound item_key
          → page_at (with_page st' meta.idx page) j ≡ page_at st j
      others_kept {st'} {meta} page j v r ne = elim (Option-cases (Maps.get same j st.page_map)) [
        | inl missing ↦ rw (r.others j ne, missing) refl
        | inr (m, there) ↦
            let there' : Maps.get same j st'.page_map ≡ some m = r.others j ne ∙ there in
            let apart : meta.idx ≢ m.idx = λ e.
              slots_apart (page_bound item_key) j st'.page_map r.valid.distinct_slots
                (λ q. ne (sym q)) r.present there' (sym e) in
            let fit =
              Maps.All-get same j (λ e. Fits (length st.pages) st.last_gen e.1) st.page_map m
                v.fitting there in
            rw (there', there)
              (get_elem?-set_ne st'.pages meta.idx m.idx page apart
                ∙ (ap (λ ps. get_elem? ps m.idx) r.kept
                    ∙ get_elem?-append_left st.pages r.more m.idx fit.slot_in))
      ]

      -- What a page written to the index is to the store behind `lent`: the page of the item, also to later
      -- fetches, and nothing to other keys.
      pub record IsWritten (idx : ℕ) (page : P) : Type 0 where
        pub here : page_at (with_page lent.0 idx page) (page_bound item_key) ≡ some page
        pub elsewhere :
            (j : PageKey)
            → j ≢ page_bound item_key
            → page_at (with_page lent.0 idx page) j ≡ page_at st j
        pub later :
            (s' : Dir) (create' : Bool)
            → (meta : CacheMeta) × ((fetch k P f page_size from_bytes
                  (with_page lent.0 idx page)
                  s'
                  item_key
                  create').2
                ≡ ok meta)
              × (get_elem?
                    (fetch k P f page_size from_bytes
                      (with_page lent.0 idx page)
                      s'
                      item_key
                      create').0.pages
                    meta.idx
                  ≡ some page)

      IsWritten-at :
          (meta : CacheMeta) (page : P)
          → IsValid k P st
          → meta.idx < length lent.0.pages
          → IsFetched k P (page_bound item_key) meta st lent.0
          → IsWritten meta.idx page
      unfolding Ring.touch
      IsWritten-at meta page v inside r = record {
        here = rw r.present now;
        elsewhere = λ j ne. others_kept page j v r ne;
        later = λ s' create'.
            let (got, kept) =
              fetch_cached (with_page lent.0 meta.idx page) s' item_key create' meta r.present in
            (Ring.touch meta lent.0.last_gen, got, ap (λ ps. get_elem? ps meta.idx) kept ∙ now);
      }
        where
          now : get_elem? (set lent.0.pages meta.idx page) meta.idx ≡ some page
          now = get_elem?-set_self lent.0.pages meta.idx page inside

      -- From a valid store whose generation counter does not wrap, where item_page_mut succeeds
      -- and a page is written to the slot that it lends out, the cache as a map from keys to
      -- pages has that page at the key of the item and is as before at every other key, and a
      -- later fetch of the item lends out the written page, whatever the files are then.
      pub item_page_mut-IsWritten :
          (idx : ℕ) (page : P)
          → IsValid k P st
          → HasNext k P st
          → lent.2 ≡ ok idx
          → IsWritten idx page
      item_page_mut-IsWritten idx page v bound e =
          elim (item_page_mut_cases k P f page_size from_bytes st s item_key create v bound) [
            | inr (x, failed, _) ↦ absurd (let h : ok idx ≡ err (io x) = sym e ∙ failed in cc (h))
            | inl (meta, done, _, inside, r) ↦
                let both : ok meta.idx ≡ ok idx = sym done ∙ e in
                let same_idx : meta.idx ≡ idx = cc (both) in
                subst (λ i. IsWritten i page) same_idx (IsWritten-at meta page v inside r)
          ]
