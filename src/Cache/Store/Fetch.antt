-- ===== src/Cache/Store/Fetch.antt =====
-- `PageStore::fetch` of kobzar/src/q_engine/storage/idx_common.rs.
use kobzar.Base.{
  ℕ, ◌≡◌, ◌≢◌, refl, sym, List, [], ◌∷◌, ◌++◌, append-nil, Bool, true, false, none, some, length,
  Option-cases, ◌⊎◌, inl, inr,
}
use kobzar.Base.Results.{Result, ok, err}
use kobzar.Base.Maps
use kobzar.Cache.Ring.{CacheMeta, new}
use kobzar.Cache.Ring
use kobzar.Cache.Store.{
  KeyExt, Files, FetchError, io, PageStore, touch, add_page, load_from_disk, load_page,
  touch_or_load, fetch,
}
use kobzar.Cache.Store.Laws.{
  IsValid, HasNext, touch-miss, touch-hit, touch-IsValid, add_page-IsValid,
}

pub Result-cases {ℓ κ} :
    {E : Type κ} {A : Type ℓ} (r : Result E A) → ((a : A) × (r ≡ ok a)) ⊎ ((e : E) × (r ≡ err e))
Result-cases (ok a) = inl (a, refl)
Result-cases (err e) = inr (e, refl)

module _ (k : KeyExt) (P : Type 0) where
  open k use {Key, PageKey, page_bound, same}

  -- What a fetch of the page `key` makes of the store: the page is there, the other pages' metadata is
  -- as before, and the pages in memory are as before, perhaps with one more.
  pub record IsFetched (key : PageKey) (meta : CacheMeta) (st st' : PageStore k P) : Type 0 where
    pub valid : IsValid k P st'
    pub present : Maps.get same key st'.page_map ≡ some meta
    pub others :
        (i : PageKey) → i ≢ key → Maps.get same i st'.page_map ≡ Maps.get same i st.page_map
    pub more : List P
    pub kept : st'.pages ≡ st.pages ++ more

  module _ (f : Files) (page_size : ℕ) (from_bytes : List ℕ → P) where
    open f use {Dir, IoError}

    module _ (st : PageStore k P) (s : Dir) (key : PageKey) (create : Bool) where
      pub load_page_ok :
          (page : P)
          → (load_from_disk k P f page_size from_bytes s key create).1 ≡ ok page
          → load_page k P f page_size from_bytes st s key create ≡ (
            add_page k P st key page,
            (load_from_disk k P f page_size from_bytes s key create).0,
            ok tt,
          )
      unfolding load_page
      load_page_ok page e = rw (e, load_page)

      pub load_page_err :
          (x : IoError)
          → (load_from_disk k P f page_size from_bytes s key create).1 ≡ err x
          → load_page k P f page_size from_bytes st s key create
            ≡ (st, (load_from_disk k P f page_size from_bytes s key create).0, err (io x))
      unfolding load_page
      load_page_err x e = rw (e, load_page)

    module _ (st : PageStore k P) (s : Dir) (item_key : Key) (create : Bool) where
      abbrev reached : PageStore k P × Dir × Result (FetchError IoError) (Unit {0})
      reached = touch_or_load k P f page_size from_bytes st s item_key create

      pub cached_reached :
          (meta : CacheMeta)
          → Maps.get same (page_bound item_key) st.page_map ≡ some meta
          → reached ≡ ((touch k P st item_key).0, s, ok tt)
      unfolding touch_or_load
      cached_reached meta e =
          let hit : (touch k P st item_key).1 ≡ true = rw (touch-hit k P st item_key meta e) refl in
          rw (hit, touch_or_load)

      pub missing_reached :
          Maps.get same (page_bound item_key) st.page_map ≡ none
          → reached ≡ load_page k P f page_size from_bytes st s (page_bound item_key) create
      unfolding touch_or_load
      missing_reached e =
          let miss : (touch k P st item_key).1 ≡ false = rw (touch-miss k P st item_key e) refl in
          let same_store : (touch k P st item_key).0 ≡ st =
            rw (touch-miss k P st item_key e) refl in
          rw (miss, touch_or_load) (rw same_store refl)

      touch-IsFetched :
          (meta : CacheMeta)
          → IsValid k P st
          → HasNext k P st
          → Maps.get same (page_bound item_key) st.page_map ≡ some meta
          → IsFetched
              (page_bound item_key)
              (Ring.touch meta st.last_gen)
              st
              (touch k P st item_key).0
      touch-IsFetched meta v bound e =
          let hit = touch-hit k P st item_key meta e in
          let accessed : CacheMeta → CacheMeta = λ m. Ring.touch m st.last_gen in
          let key = page_bound item_key in
          record {
            valid = touch-IsValid k P st item_key v bound;
            present = rw hit (Maps.get-modify_self same key accessed st.page_map meta e);
            others = λ i ne. rw hit (Maps.get-modify_ne same key accessed st.page_map i ne);
            more = [];
            kept = rw hit (sym (append-nil st.pages));
          }

      add_IsFetched :
          (page : P)
          → IsValid k P st
          → HasNext k P st
          → Maps.get same (page_bound item_key) st.page_map ≡ none
          → IsFetched
              (page_bound item_key)
              (record { idx = length st.pages; dirty = false; last_accessed = new st.last_gen })
              st
              (add_page k P st (page_bound item_key) page)
      unfolding add_page
      add_IsFetched page v bound e = record {
        valid = add_page-IsValid k P st (page_bound item_key) page v bound e;
        present = Maps.get-insert_self same (page_bound item_key) _ st.page_map;
        others = λ i ne. Maps.get-insert_ne same (page_bound item_key) _ st.page_map i ne;
        more = page ∷ [];
        kept = refl;
      }

      reached_cases :
          IsValid k P st
          → HasNext k P st
          → ((meta : CacheMeta) × (reached.2 ≡ ok tt)
              × IsFetched (page_bound item_key) meta st reached.0)
            ⊎ ((x : IoError) × (reached.2 ≡ err (io x)) × (reached.0 ≡ st))
      reached_cases v bound =
          elim (Option-cases (Maps.get same (page_bound item_key) st.page_map)) [
            | inr (meta, e) ↦
                rw (cached_reached meta e) (inl (_, refl, touch-IsFetched meta v bound e))
            | inl e ↦
                elim (Result-cases
                  (load_from_disk k P f page_size from_bytes s (page_bound item_key) create).1) [
                    | inl (page, loaded) ↦
                        rw
                          (
                            missing_reached e,
                            load_page_ok st s (page_bound item_key) create page loaded,
                          )
                          (inl (_, refl, add_IsFetched page v bound e))
                    | inr (x, failed) ↦
                        rw
                          (
                            missing_reached e,
                            load_page_err st s (page_bound item_key) create x failed,
                          )
                          (inr (x, refl, refl))
                  ]
          ]

      abbrev fetched : PageStore k P × Dir × Result (FetchError IoError) CacheMeta
      fetched = fetch k P f page_size from_bytes st s item_key create

      -- From a valid store whose generation counter does not wrap, fetch either lends out the
      -- metadata of the page, which the valid store then maps, with other pages as before, or
      -- fails with an I/O error and leaves the store as it was; its expect never panics.
      pub fetch_cases :
          IsValid k P st
          → HasNext k P st
          → ((meta : CacheMeta) × (fetched.2 ≡ ok meta)
              × IsFetched (page_bound item_key) meta st fetched.0)
            ⊎ ((x : IoError) × (fetched.2 ≡ err (io x)) × (fetched.0 ≡ st))
      unfolding fetch
      fetch_cases v bound = elim (reached_cases v bound) [
        | inl (meta, done, r) ↦
            inl (meta, rw (done, fetch, r.present) refl, rw (done, fetch, r.present) r)
        | inr (x, failed, same_store) ↦
            inr (x, rw (failed, fetch) refl, rw (failed, fetch) same_store)
      ]
