-- ===== src/Cache/Store/Lend.antt =====
-- `PageStore::item_page_mut` and `load_from_disk` of kobzar/src/q_engine/storage/idx_common.rs.
use kobzar.Base.{
  ℕ, ◌<◌, ◌≡◌, refl, ◌∙◌, ap, arith, List, [], Bool, true, none, some, length, ◌⊎◌, inl, inr,
}
use kobzar.Base.Results.{Result, ok, err}
use kobzar.Base.Maps
use kobzar.Cache.Ring.{CacheMeta}
use kobzar.Cache.Store.{
  KeyExt, Files, FetchError, io, PageStore, load_from_disk, fetch, item_page_mut,
}
use kobzar.Cache.Store.Laws.{Fits, IsValid, HasNext, slots-modify}
use kobzar.Cache.Store.Fetch.{IsFetched, fetch_cases, Result-cases}

abbrev mark : CacheMeta → CacheMeta
mark m = record m { dirty = true }

module _ (k : KeyExt) (P : Type 0) where
  open k use {Key, PageKey, page_bound, same}

  abbrev mark_page : PageStore k P → PageKey → PageStore k P
  mark_page st key = record st { page_map = Maps.modify same key mark st.page_map }

  mark_page-IsValid :
      (st : PageStore k P) (key : PageKey) → IsValid k P st → IsValid k P (mark_page st key)
  mark_page-IsValid st key v = record {
    distinct_keys = rw Maps.keys-modify v.distinct_keys;
    distinct_slots = rw (slots-modify k P key mark st.page_map (λ m. refl)) v.distinct_slots;
    fitting =
        Maps.All-modify same key (λ e. Fits (length st.pages) st.last_gen e.1) mark st.page_map
          (λ j m h. record { slot_in = h.slot_in; ring = h.ring; past = h.past }) v.fitting;
  }

  mark_page-IsFetched :
      (st st' : PageStore k P) (key : PageKey) (meta : CacheMeta)
      → IsFetched k P key meta st st'
      → IsFetched k P key (mark meta) st (mark_page st' key)
  mark_page-IsFetched st st' key meta r = record {
    valid = mark_page-IsValid st' key r.valid;
    present = Maps.get-modify_self same key mark st'.page_map meta r.present;
    others = λ i ne. Maps.get-modify_ne same key mark st'.page_map i ne ∙ r.others i ne;
    more = r.more;
    kept = r.kept;
  }

  fetched_in :
      (st st' : PageStore k P) (key : PageKey) (meta : CacheMeta)
      → IsFetched k P key meta st st'
      → meta.idx < length st'.pages
  fetched_in st st' key meta r =
      let fit =
        Maps.All-get same key (λ e. Fits (length st'.pages) st'.last_gen e.1) st'.page_map meta
          r.valid.fitting r.present in
      fit.slot_in

  module _ (f : Files) (page_size : ℕ) (from_bytes : List ℕ → P) where
    open f use {Dir, IoError, contents, open_file, read_exact, open_file_ok, read_exact_ok}

    module _ (st : PageStore k P) (s : Dir) (item_key : Key) (create : Bool) where
      abbrev lent : PageStore k P × Dir × Result (FetchError IoError) ℕ
      lent = item_page_mut k P f page_size from_bytes st s item_key create

      -- From a valid store whose generation counter does not wrap, item_page_mut either lends out
      -- a page in memory that is marked dirty, leaves a valid store and changes no other page, or
      -- fails with an I/O error and leaves the store as it was; it never panics.
      pub item_page_mut_cases :
          IsValid k P st
          → HasNext k P st
          → ((meta : CacheMeta) × (lent.2 ≡ ok meta.idx)
              × (meta.dirty ≡ true)
              × (meta.idx < length lent.0.pages)
              × IsFetched k P (page_bound item_key) meta st lent.0)
            ⊎ ((x : IoError) × (lent.2 ≡ err (io x)) × (lent.0 ≡ st))
      unfolding item_page_mut
      item_page_mut_cases v bound =
          elim (fetch_cases k P f page_size from_bytes st s item_key create v bound) [
            | inl (meta, done, r) ↦
                let r' =
                  mark_page-IsFetched st (fetch k P f page_size from_bytes st s item_key create).0
                    (page_bound item_key) meta r in
                inl (
                  mark meta,
                  rw (done, item_page_mut) refl,
                  refl,
                  rw (done, item_page_mut) (fetched_in _ _ _ _ r'),
                  rw (done, item_page_mut) r',
                )
            | inr (x, failed, same_store) ↦
                inr (x, rw (failed, item_page_mut) refl, rw (failed, item_page_mut) same_store)
          ]

    -- Loading a page from a file that does not exist fails, also where create makes the file;
    -- pages are not empty.
    load_from_disk_missing :
        (s : Dir) (key : PageKey) (create : Bool)
        → 0 < page_size
        → contents s (k.filename key) ≡ none
        → (x : IoError) × ((load_from_disk k P f page_size from_bytes s key create).1 ≡ err x)
    unfolding load_from_disk
    load_from_disk_missing s key create pos missing =
        elim (Result-cases (open_file s (k.filename key) create)) [
          | inr (x, failed) ↦ (x, rw (failed, load_from_disk) refl)
          | inl (t, opened) ↦
              let empty : contents t (k.filename key) ≡ some [] =
                rw missing at (open_file_ok s (k.filename key) create opened) in
              elim (Result-cases (read_exact t (k.filename key) page_size)) [
                | inr (x, failed) ↦ (x, rw (opened, load_from_disk, failed) refl)
                | inl (bytes, got) ↦
                    let (all, there, enough, _) = read_exact_ok t (k.filename key) page_size got in
                    let nothing : all ≡ [] = cc (there, empty) in
                    let none_there : length all ≡ 0 = ap (λ (l : List ℕ). length l) nothing in
                    absurd (omega arith)
              ]
        ]
