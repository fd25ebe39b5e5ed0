-- ===== src/Cache/Reach.antt =====
-- The histories of a `PageStore`, kobzar/src/q_engine/storage/idx_common.rs.
use kobzar.Base.{
  ℕ, suc, ◌+◌, ◌^◌, ◌≤◌, ◌<◌, ◌≡◌, refl, arith, List, Bool, some, set, length-set, Option-cases,
  inl, inr,
}
use kobzar.Base.Maps
use kobzar.Base.Search.{BinarySearch}
use kobzar.Base.Results.{Result}
use kobzar.Cache.Store.{
  KeyExt, Files, FetchError, PageStore, open_store, load_from_disk, add_page, touch_or_load, fetch,
  item_page_mut,
}
use kobzar.Cache.Store.Laws.{IsValid, HasNext, touch-hit, open_store-IsValid}
use kobzar.Cache.Store.Fetch.{
  Result-cases, cached_reached, missing_reached, load_page_ok, load_page_err, fetch_cases,
}
use kobzar.Cache.Store.Lend.{item_page_mut_cases}
use kobzar.Cache.Evict.{evict}
use kobzar.Cache.Evict.Freed.{evict-IsEvicted}

module _ (k : KeyExt) (P : Type 0) (f : Files) (page_size : ℕ) (from_bytes : List ℕ → P) where
  open k use {Key, PageKey, page_bound, same}
  open f use {Dir, IoError}

  -- The stores that `open` and `n` accesses can lead to, with the directory: pages are fetched, lent out and
  -- written, and evicted, by any calls that do not panic, and the files change in any way.
  pub data Reach : ℕ → PageStore k P → Dir → Type 0 where
    opened : (recs : ℕ) (s : Dir) → Reach 0 (open_store k P recs) s
    fetched :
        {n : ℕ} {st : PageStore k P} {s : Dir}
        → Reach n st s
        → (item_key : Key) (create : Bool)
        → Reach
            (suc n)
            (fetch k P f page_size from_bytes st s item_key create).0
            (fetch k P f page_size from_bytes st s item_key create).1
    lent :
        {n : ℕ} {st : PageStore k P} {s : Dir}
        → Reach n st s
        → (item_key : Key) (create : Bool)
        → Reach
            (suc n)
            (item_page_mut k P f page_size from_bytes st s item_key create).0
            (item_page_mut k P f page_size from_bytes st s item_key create).1
    written :
        {n : ℕ} {st : PageStore k P} {s : Dir}
        → Reach n st s
        → (idx : ℕ) (page : P) → Reach n (record st { pages = set st.pages idx page }) s
    evicted :
        {n : ℕ} {st st' : PageStore k P} {s : Dir}
        → Reach n st s
        → (b : BinarySearch) (count : ℕ) → 0 < count
        → evict k b count P st ≡ some st'
        → Reach n st' s
    changed : {n : ℕ} {st : PageStore k P} {s : Dir} → Reach n st s → (s' : Dir) → Reach n st s'

  module _ (st : PageStore k P) (s : Dir) (item_key : Key) (create : Bool) where
    abbrev reached : PageStore k P × Dir × Result (FetchError IoError) (Unit {0})
    reached = touch_or_load k P f page_size from_bytes st s item_key create

    fetch-store : (fetch k P f page_size from_bytes st s item_key create).0 ≡ reached.0
    unfolding fetch
    fetch-store = elim (Result-cases reached.2) [
      | inr (x, e) ↦ rw (e, fetch) refl
      | inl (u, e) ↦ elim (Option-cases (Maps.get same (page_bound item_key) reached.0.page_map)) [
        | inl missing ↦ rw (e, fetch, missing) refl
        | inr (meta, there) ↦ rw (e, fetch, there) refl
      ]
    ]

    reached-last_gen : reached.0.last_gen ≤ st.last_gen + 1
    unfolding add_page
    reached-last_gen = elim (Option-cases (Maps.get same (page_bound item_key) st.page_map)) [
      | inr (meta, e) ↦
          rw
            (
              cached_reached k P f page_size from_bytes st s item_key create meta e,
              touch-hit k P st item_key meta e,
            )
            (omega arith)
      | inl e ↦
          elim (Result-cases
            (load_from_disk k P f page_size from_bytes s (page_bound item_key) create).1) [
              | inl (page, loaded) ↦
                  rw
                    (
                      missing_reached k P f page_size from_bytes st s item_key create e,
                      load_page_ok k P f page_size from_bytes st s (page_bound item_key) create page
                          loaded,
                      add_page,
                    )
                    (omega arith)
              | inr (x, failed) ↦
                  rw
                    (
                      missing_reached k P f page_size from_bytes st s item_key create e,
                      load_page_err k P f page_size from_bytes st s (page_bound item_key) create x
                          failed,
                    )
                    (omega arith)
            ]
    ]

    fetch-last_gen :
        (fetch k P f page_size from_bytes st s item_key create).0.last_gen ≤ st.last_gen + 1
    fetch-last_gen = rw fetch-store reached-last_gen

    item_page_mut-last_gen :
        (item_page_mut k P f page_size from_bytes st s item_key create).0.last_gen
        ≡ (fetch k P f page_size from_bytes st s item_key create).0.last_gen
    unfolding item_page_mut
    item_page_mut-last_gen =
        elim (Result-cases (fetch k P f page_size from_bytes st s item_key create).2) [
          | inr (x, e) ↦ rw (e, item_page_mut) refl
          | inl (meta, e) ↦ rw (e, item_page_mut) refl
        ]

    fetch-IsValid :
        IsValid k P st
        → HasNext k P st
        → IsValid k P (fetch k P f page_size from_bytes st s item_key create).0
    fetch-IsValid v bound =
        elim (fetch_cases k P f page_size from_bytes st s item_key create v bound) [
          | inl (_, _, r) ↦ r.valid
          | inr (_, _, same_store) ↦ rw same_store v
        ]

    item_page_mut-IsValid :
        IsValid k P st
        → HasNext k P st
        → IsValid k P (item_page_mut k P f page_size from_bytes st s item_key create).0
    item_page_mut-IsValid v bound =
        elim (item_page_mut_cases k P f page_size from_bytes st s item_key create v bound) [
          | inl (_, _, _, _, r) ↦ r.valid
          | inr (_, _, same_store) ↦ rw same_store v
        ]

  -- After fewer than 2 ^ 64 calls of fetch and item_page_mut, and any number of evictions of at
  -- least one page that do not panic, of writes to pages in memory and of changes of the files,
  -- in any order, the store that open made is valid, with distinct keys, distinct slots, each in
  -- memory, and accesses in the past, and its generation is at most the number of those calls.
  pub Reach-IsValid :
      {n : ℕ} {st : PageStore k P} {s : Dir}
      → Reach n st s
      → n < 2 ^ 64
      → IsValid k P st × (st.last_gen ≤ n)
  unfolding open_store
  Reach-IsValid (opened recs s) bound = (open_store-IsValid k P recs, omega arith)
  Reach-IsValid (fetched {n} {st} {s} r item_key create) bound =
      let (v, le) = Reach-IsValid r (omega arith) in
      let le' = fetch-last_gen st s item_key create in
      (fetch-IsValid st s item_key create v (omega arith), omega arith)
  Reach-IsValid (lent {n} {st} {s} r item_key create) bound =
      let (v, le) = Reach-IsValid r (omega arith) in
      let le' = fetch-last_gen st s item_key create in
      let same_gen = item_page_mut-last_gen st s item_key create in
      (item_page_mut-IsValid st s item_key create v (omega arith), omega arith)
  Reach-IsValid (written {n} {st} {s} r idx page) bound =
      let (v, le) = Reach-IsValid r bound in
      (
        record {
          distinct_keys = v.distinct_keys;
          distinct_slots = v.distinct_slots;
          fitting = rw (length-set st.pages idx page) v.fitting;
        },
        le,
      )
  Reach-IsValid (evicted {n} {st} {st'} {s} r b count pos e) bound =
      let (v, le) = Reach-IsValid r bound in
      let gone = evict-IsEvicted k P b count st pos v e in
      let same_gen = gone.kept_gen in (gone.valid, omega arith)
  Reach-IsValid (changed r s') bound = Reach-IsValid r bound
