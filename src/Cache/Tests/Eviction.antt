-- ===== src/Cache/Tests/Eviction.antt =====
-- Evictions and histories of the concrete cache.
use kobzar.Base.{
  ℕ, ◌<◌, ◌≤◌, ◌≡◌, ◌↔◌, refl, arith, List, [], ◌∷◌, Option, some, none, Bool, false, ℕ_discrete,
  dec_lt, set, get_elem?,
}
use kobzar.Base.Maps
use kobzar.Base.Results.{ok}
use kobzar.Cache.Ring.{CacheMeta, new, push, score_from, rotate_to_normalize, eviction_score}
use kobzar.Cache.Store.{
  touch, touch_or_load, load_page, add_page, PageStore, open_store, load_from_disk, fetch,
  item_page_mut,
}
use kobzar.Cache.Store.Laws.{open_store-IsValid, Fits, IsValid}
use kobzar.Cache.Evict.{evict, scan, retain, insert_at, position, drop_page}
use kobzar.Cache.Evict.Freed.{IsEvicted, evict-IsEvicted}
use kobzar.Cache.Evict.Overflow.{Overflow, evict-none_iff}
use kobzar.Cache.Evict.Reload.{fetch_evicted}
use kobzar.Cache.Contents.{IsWritten, item_page_mut-IsWritten}
use kobzar.Cache.Reach.{Reach, Reach-IsValid, opened, lent, written, changed}
use kobzar.Cache.Tests.{
  empty_store, empty_store_counts, numbered, one_file, linear_search, two_pages, accessed_at,
  linear, choose, next_index,
}

two_pages-IsValid : IsValid numbered (List ℕ) two_pages
unfolding new
two_pages-IsValid = record {
  distinct_keys = ((λ e. absurd (omega arith), tt), (tt, tt));
  distinct_slots = ((λ e. absurd (omega arith), tt), (tt, tt));
  fitting = (fits 0 5 (omega arith) (omega arith), (fits 1 7 (omega arith) (omega arith), tt));
}
  where
    fits : (idx a : ℕ) → idx < 2 → a < 9 → Fits 2 9 (accessed_at idx a)
    fits idx a below past = record {
      slot_in = omega arith;
      ring = record { four = refl; start_in = omega arith };
      past = (past, (past, (past, (past, tt))));
    }

-- the two pages in the order in which the eviction succeeds
abbrev later_first : PageStore numbered (List ℕ)
later_first = record two_pages { page_map = (16, accessed_at 1 7) ∷ (8, accessed_at 0 5) ∷ [] }

later_first-IsValid : IsValid numbered (List ℕ) later_first
later_first-IsValid =
    let v = two_pages-IsValid in
    let (f, (g, _)) = v.fitting in
    record {
      distinct_keys = ((λ e. absurd (omega arith), tt), (tt, tt));
      distinct_slots = ((λ e. absurd (omega arith), tt), (tt, tt));
      fitting = (g, (f, tt));
    }

abbrev one_evicted : PageStore numbered (List ℕ)
one_evicted = record later_first { vacant_pages = 0 ∷ []; page_map = (16, accessed_at 1 7) ∷ [] }

one_page_goes : evict numbered linear_search 1 (List ℕ) later_first ≡ some one_evicted
unfolding evict scan retain insert_at position drop_page eviction_score rotate_to_normalize new
    Maps.remove linear choose next_index score_from push ℕ_discrete dec_lt
one_page_goes = refl

evict-IsEvicted_example : IsEvicted numbered (List ℕ) linear_search 1 later_first one_evicted
evict-IsEvicted_example =
    evict-IsEvicted numbered (List ℕ) linear_search 1 later_first (omega arith) later_first-IsValid
      one_page_goes

fetch_evicted_example :
    (st' : PageStore numbered (List ℕ)) × (evict numbered linear_search 2 (List ℕ) two_pages
      ≡ some st')
    × ((s : Option (List ℕ)) (item_key : ℕ) (create : Bool) (page : List ℕ)
        → (load_from_disk numbered
            (List ℕ)
            one_file
            2
            (λ bytes. bytes)
            s
            (numbered.page_bound item_key)
            create).1
          ≡ ok page
        → (meta : CacheMeta) × ((fetch numbered
              (List ℕ)
              one_file
              2
              (λ bytes. bytes)
              st'
              s
              item_key
              create).2
            ≡ ok meta)
          × (meta.dirty ≡ false)
          × (get_elem?
                (fetch numbered (List ℕ) one_file 2 (λ bytes. bytes) st' s item_key create).0.pages
                meta.idx
              ≡ some page))
fetch_evicted_example =
    fetch_evicted numbered (List ℕ) one_file 2 (λ bytes. bytes) linear_search 2 two_pages
      (omega arith) two_pages-IsValid (omega arith)

-- a page is lent out and written, and its file changes
abbrev lent_store : PageStore numbered (List ℕ)
lent_store =
    let (st, _, _) =
      item_page_mut numbered (List ℕ) one_file 2 (λ bytes. bytes) (open_store numbered (List ℕ) 2)
        (some (1 ∷ 2 ∷ [])) 9 false in
    record st { pages = set st.pages 0 (7 ∷ []) }

lent_and_written :
    Reach numbered (List ℕ) one_file 2 (λ bytes. bytes) 1 lent_store (some (3 ∷ 4 ∷ []))
lent_and_written =
    changed (written (lent (opened 2 (some (1 ∷ 2 ∷ []))) 9 false) 0 (7 ∷ [])) (some (3 ∷ 4 ∷ []))

Reach-IsValid_example : IsValid numbered (List ℕ) lent_store × (lent_store.last_gen ≤ 1)
Reach-IsValid_example =
    Reach-IsValid numbered (List ℕ) one_file 2 (λ bytes. bytes) lent_and_written (omega arith)

lent_at_0 :
    (item_page_mut numbered
      (List ℕ)
      one_file
      2
      (λ bytes. bytes)
      empty_store
      (some (1 ∷ 2 ∷ 3 ∷ 4 ∷ []))
      9
      false).2
    ≡ ok 0
unfolding item_page_mut fetch touch_or_load touch load_page load_from_disk add_page open_store
    Maps.get Maps.insert ℕ_discrete
lent_at_0 = refl

item_page_mut-IsWritten_example :
    IsWritten numbered
      (List ℕ)
      one_file
      2
      (λ bytes. bytes)
      empty_store
      (some (1 ∷ 2 ∷ 3 ∷ 4 ∷ []))
      9
      false
      0
      (7 ∷ [])
item_page_mut-IsWritten_example =
    item_page_mut-IsWritten numbered (List ℕ) one_file 2 (λ bytes. bytes) empty_store
      (some (1 ∷ 2 ∷ 3 ∷ 4 ∷ [])) 9 false 0 (7 ∷ []) (open_store-IsValid numbered (List ℕ) 2)
      empty_store_counts lent_at_0

-- the younger page scores above the older one, which stands before it
evict-none_iff_example :
    (evict numbered linear_search 1 (List ℕ) two_pages ≡ none)
    ↔ Overflow numbered linear_search 1 two_pages.last_gen [] two_pages.page_map
evict-none_iff_example = evict-none_iff numbered linear_search 1 (List ℕ) two_pages (omega arith)

younger_overflows : Overflow numbered linear_search 1 two_pages.last_gen [] two_pages.page_map
unfolding scan retain insert_at position eviction_score rotate_to_normalize new linear choose
    next_index score_from push ℕ_discrete dec_lt
younger_overflows = record {
  before = (8, accessed_at 0 5) ∷ [];
  entry = (16, accessed_at 1 7);
  after = [];
  split = refl;
  collected = _;
  scanned = refl;
  full = refl;
  highest = (omega arith, tt);
}
