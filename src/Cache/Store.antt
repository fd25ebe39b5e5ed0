-- ===== src/Cache/Store.antt =====
-- `PageStore` of kobzar/src/q_engine/storage/idx_common.rs. The keys are given by the trait `KeyExt`,
-- the files by tokio; both are parameters. A map is an association list in its iteration order.
pub mod Laws
pub mod Fetch
pub mod Lend
use kobzar.Base.{
  ℕ, zero, suc, ◌+◌, ◌%◌, ◌^◌, ◌≤◌, ◌≡◌, List, [], ◌∷◌, ◌++◌, Bool, true, false, Option, none, some,
  length, get_elem?, take,
}
use kobzar.Base.Results.{Result, ok, err}
use kobzar.Base.Maps
use kobzar.Cache.Ring.{RingInline, CacheMeta, new}
use kobzar.Cache.Ring
use mathlib.Core.Option

-- the trait `KeyExt` with its associated type
pub record KeyExt : Type 1 where
  pub Key : Type 0
  pub PageKey : Type 0
  pub page_bound : Key → PageKey
  pub filename : PageKey → List ℕ
  pub same : Discrete PageKey

-- `OpenOptions::new().read(true).write(true).create(…).open(…)` and `read_exact` at the start of the
-- file, which either fills its buffer or fails.
pub record Files : Type 1 where
  pub Dir : Type 0
  pub IoError : Type 0
  pub contents : Dir → List ℕ → Option (List ℕ)
  pub open_file : Dir → List ℕ → Bool → Result IoError Dir
  pub read_exact : Dir → List ℕ → ℕ → Result IoError (List ℕ)
  pub open_file_ok :
      (s : Dir) (name : List ℕ) (create : Bool) {t : Dir}
      → open_file s name create ≡ ok t
      → contents t name ≡ some (Option.get_or (contents s name) [])
  pub read_exact_ok :
      (s : Dir) (name : List ℕ) (n : ℕ) {bytes : List ℕ}
      → read_exact s name n ≡ ok bytes
      → (all : List ℕ) × (contents s name ≡ some all) × (n ≤ length all) × (bytes ≡ take n all)

-- `PageReadError`, and the panic of `expect`. The source's `UnexpectedEof` stands behind a test of the
-- length that `read_exact` returns, which is always the buffer's.
pub data FetchError (E : Type 0) : Type 0 where
  io : E → FetchError E
  expect_failed : FetchError E

module _ (k : KeyExt) (P : Type 0) where
  open k use {Key, PageKey, page_bound, filename, same}

  pub record PageStore : Type 0 where
    pub last_gen : ℕ
    pub pages : List P
    pub vacant_pages : List ℕ
    pub page_map : List (PageKey × CacheMeta)

  -- `for i in 0..recs { v.push(i as u32) }`, from `i` on
  unfoldable pub vacant_from : ℕ → ℕ → List ℕ
  vacant_from zero i = []
  vacant_from (suc n) i = i % 2 ^ 32 ∷ vacant_from n (i + 1)

  -- The new store of `open`, for a cache of `recs` records.
  unfoldable pub open_store : ℕ → PageStore
  unfolding vacant_from
  open_store recs = record {
    last_gen = 0;
    pages = [];
    vacant_pages = vacant_from recs 0;
    page_map = [];
  }

  abbrev pub next_gen : ℕ → ℕ
  next_gen g = (g + 1) % 2 ^ 64

  -- The Boolean says whether the page was in the cache.
  unfoldable pub touch : PageStore → Key → PageStore × Bool
  touch st item_key = elim (Maps.get same (page_bound item_key) st.page_map) [
    | none ↦ (st, false)
    | some meta ↦ (
      record st {
        page_map =
            Maps.modify same (page_bound item_key) (λ m. Ring.touch m st.last_gen) st.page_map;
        last_gen = next_gen st.last_gen;
      },
      true,
    )
  ]

  -- `self.pages.push(page)` and `self.page_map.insert(…)` for a page that was loaded
  unfoldable pub add_page : PageStore → PageKey → P → PageStore
  add_page st key page = record st {
    pages = st.pages ++ (page ∷ []);
    page_map =
        Maps.insert same key
          (record { idx = length st.pages; dirty = false; last_accessed = new st.last_gen })
          st.page_map;
    last_gen = next_gen st.last_gen;
  }

  module _ (f : Files) (page_size : ℕ) (from_bytes : List ℕ → P) where
    open f use {Dir, IoError, open_file, read_exact}

    -- The directory changes if the file is created.
    unfoldable pub load_from_disk : Dir → PageKey → Bool → Dir × Result IoError P
    load_from_disk s item_key create = elim (open_file s (filename item_key) create) [
      | err e ↦ (s, err e)
      | ok t ↦ elim (read_exact t (filename item_key) page_size) [
        | err e ↦ (t, err e)
        | ok buffer ↦ (t, ok (from_bytes buffer))
      ]
    ]

    -- the branch of `fetch` for a page that is not in the cache
    unfoldable pub load_page :
        PageStore → Dir → PageKey → Bool → PageStore × Dir × Result (FetchError IoError) (Unit {0})
    load_page st s key create =
        let (t, loaded) = load_from_disk s key create in
        elim loaded [ err e ↦ (st, t, err (io e)) | ok page ↦ (add_page st key page, t, ok tt) ]

    unfoldable pub touch_or_load :
        PageStore → Dir → Key → Bool → PageStore × Dir × Result (FetchError IoError) (Unit {0})
    touch_or_load st s item_key create =
        let (touched, cached) = touch st item_key in
        elim cached [
          | true ↦ (touched, s, ok tt)
          | false ↦ load_page touched s (page_bound item_key) create
        ]

    -- The metadata that `fetch` lends out is the one stored for the page's key.
    unfoldable pub fetch :
        PageStore → Dir → Key → Bool → PageStore × Dir × Result (FetchError IoError) CacheMeta
    fetch st s item_key create =
        let (st', s', loaded) = touch_or_load st s item_key create in
        elim loaded [
          | err e ↦ (st', s', err e)
          | ok _ ↦ elim (Maps.get same (page_bound item_key) st'.page_map) [
            | none ↦ (st', s', err expect_failed)
            | some meta ↦ (st', s', ok meta)
          ]
        ]

    -- The result is the index of the page that is lent out for writing.
    unfoldable pub item_page_mut :
        PageStore → Dir → Key → Bool → PageStore × Dir × Result (FetchError IoError) ℕ
    item_page_mut st s item_key create =
        let (st', s', fetched) = fetch st s item_key create in
        elim fetched [
          | err e ↦ (st', s', err e)
          | ok meta ↦ (
            record st' {
              page_map =
                  Maps.modify same (page_bound item_key) (λ m. record m { dirty = true })
                    st'.page_map;
            },
            s',
            ok meta.idx,
          )
        ]
