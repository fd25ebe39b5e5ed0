-- ===== src/Cache/Evict/Reload.antt =====
-- A fetch behind an eviction, kobzar/src/q_engine/storage/idx_common.rs.
use kobzar.Base.{
  ℕ, ◌≤◌, ◌<◌, ◌≡◌, refl, ◌∙◌, arith, List, [], ◌∷◌, ◌++◌, none, some, length, Bool, false,
  get_elem?,
}
use kobzar.Base.Maps
use kobzar.Base.Elements.{get_elem?-append_right}
use kobzar.Base.Search.{BinarySearch}
use kobzar.Base.Results.{Result, ok}
use kobzar.Cache.Ring.{CacheMeta, new}
use kobzar.Cache.Store.{
  KeyExt, Files, FetchError, PageStore, load_from_disk, add_page, fetch, touch_or_load,
}
use kobzar.Cache.Store.Laws.{IsValid}
use kobzar.Cache.Store.Fetch.{load_page_ok, missing_reached}
use kobzar.Cache.Evict.{evict}
use kobzar.Cache.Evict.Emptied.{evict_all}

module _ (k : KeyExt) (P : Type 0) (f : Files) (page_size : ℕ) (from_bytes : List ℕ → P) where
  open k use {Key, PageKey, page_bound, same}
  open f use {Dir, IoError}

  abbrev run_fetch :
      PageStore k P → Dir → Key → Bool → PageStore k P × Dir × Result (FetchError IoError) CacheMeta
  run_fetch st s item_key create = fetch k P f page_size from_bytes st s item_key create

  -- a page that is not cached is read from its file and lent out clean
  fetch_missing :
      (st : PageStore k P) (s : Dir) (item_key : Key) (create : Bool) (page : P)
      → Maps.get same (page_bound item_key) st.page_map ≡ none
      → (load_from_disk k P f page_size from_bytes s (page_bound item_key) create).1 ≡ ok page
      → (meta : CacheMeta) × ((run_fetch st s item_key create).2 ≡ ok meta)
        × (meta.dirty ≡ false)
        × (get_elem? (run_fetch st s item_key create).0.pages meta.idx ≡ some page)
  unfolding fetch add_page
  fetch_missing st s item_key create page missing loaded =
      let key = page_bound item_key in
      let meta : CacheMeta = record {
        idx = length st.pages;
        dirty = false;
        last_accessed = new st.last_gen;
      } in
      let reached = missing_reached k P f page_size from_bytes st s item_key create missing in
      let done = load_page_ok k P f page_size from_bytes st s key create page loaded in
      let both = reached ∙ done in
      let reached_st = touch_or_load k P f page_size from_bytes st s item_key create in
      let okay : reached_st.2 ≡ ok tt = rw both refl in
      let there : Maps.get same key reached_st.0.page_map ≡ some meta =
        rw both (Maps.get-insert_self same key meta st.page_map) in
      let grown : reached_st.0.pages ≡ st.pages ++ (page ∷ []) = rw both refl in
      (
        meta,
        rw (okay, fetch, there) refl,
        refl,
        rw (okay, fetch, there, grown)
            (get_elem?-append_right st.pages (page ∷ []) (length st.pages) 0 (omega arith)),
      )

  module _ (b : BinarySearch) (count : ℕ) where
    -- From a valid store, an eviction of at least as many pages as are mapped, and at least one,
    -- completes, and behind it a fetch of any item whose page can be loaded lends out the page
    -- that its file holds, clean, whatever the page in memory held before.
    pub fetch_evicted :
        (st : PageStore k P)
        → 0 < count
        → IsValid k P st
        → length st.page_map ≤ count
        → (st' : PageStore k P) × (evict k b count P st ≡ some st')
          × ((s : Dir) (item_key : Key) (create : Bool) (page : P)
              → (load_from_disk k P f page_size from_bytes s (page_bound item_key) create).1
                ≡ ok page
              → (meta : CacheMeta) × ((run_fetch st' s item_key create).2 ≡ ok meta)
                × (meta.dirty ≡ false)
                × (get_elem? (run_fetch st' s item_key create).0.pages meta.idx ≡ some page))
    fetch_evicted st pos v few =
        let (st', e, unmapped, _, _, _) = evict_all k b count P st pos v few in
        (
          st',
          e,
          λ s item_key create page loaded.
              fetch_missing st' s item_key create page (unmapped (page_bound item_key)) loaded,
        )
