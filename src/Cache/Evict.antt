-- ===== src/Cache/Evict.antt =====
-- `PageStore::evict` of kobzar/src/q_engine/storage/idx_common.rs. `none` is a panic.
pub mod Select
pub mod Scan
pub mod Drop
pub mod Least
pub mod Freed
pub mod Emptied
pub mod Reload
pub mod Panics
pub mod Overflow
use kobzar.Base.{
  ℕ, zero, suc, ◌+◌, ◌-◌, ◌%◌, ◌^◌, List, [], ◌∷◌, ◌++◌, map, Option, none, some, ◌>>=◌, leb,
  if◌then◌else◌, length, take, drop,
}
use kobzar.Base.Maps
use kobzar.Base.Search.{BinarySearch, Found, found, absent}
use kobzar.Cache.Ring.{CacheMeta, eviction_score}
use kobzar.Cache.Store.{KeyExt, PageStore}
use mathlib.Core.List.{foldl}

-- `match bin { Ok(idx) => idx, Err(idx) => idx }`
unfoldable pub position : Found → ℕ
position (found i) = i
position (absent i) = i

module _ (k : KeyExt) where
  open k use {PageKey, same}

  pub record Scored : Type 0 where
    pub idx : ℕ
    pub score : ℕ
    pub key : PageKey

  -- `to_evict.pop()`
  abbrev pub pop : List Scored → List Scored
  pop xs = take (length xs - 1) xs

  -- `to_evict.insert(idx, score)`, which panics behind the end
  unfoldable pub insert_at : ℕ → Scored → List Scored → Option (List Scored)
  insert_at i s xs = if leb i (length xs) then some (take i xs ++ (s ∷ drop i xs)) else none

  module _ (b : BinarySearch) (count : ℕ) where
    -- One round of the first loop: the list is searched before its last element is dropped.
    unfoldable pub retain : List Scored → Scored → Option (List Scored)
    unfolding insert_at position
    retain to_evict s =
        let idx = position (b.search (map (λ e. e.score) to_evict) s.score) in
        let kept = if leb count (length to_evict) then pop to_evict else to_evict in
        insert_at idx s kept

    -- The first loop, which also rotates the rings of the entries that it scores.
    unfoldable pub scan :
        ℕ
        → List (PageKey × CacheMeta)
        → List Scored
        → Option (List (PageKey × CacheMeta) × List Scored)
    scan now [] to_evict = some ([], to_evict)
    scan now ((key, meta) ∷ entries) to_evict =
        let (score, meta') = eviction_score meta now in
        retain to_evict (record { idx = meta.idx; score = score; key = key }) >>= λ more.
        scan now entries more >>= λ (entries', out). some ((key, meta') ∷ entries', out)

    module _ (P : Type 0) where
      -- one round of the second loop
      unfoldable pub drop_page : PageStore k P → Scored → PageStore k P
      drop_page st s = record st {
        page_map = Maps.remove same s.key st.page_map;
        vacant_pages = st.vacant_pages ++ (s.idx % 2 ^ 32 ∷ []);
      }

      unfoldable pub evict : PageStore k P → Option (PageStore k P)
      unfolding drop_page
      evict st = scan st.last_gen st.page_map [] >>= λ (entries, to_evict).
          some (foldl drop_page (record st { page_map = entries }) to_evict)
