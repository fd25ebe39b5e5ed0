-- ===== src/Cache/Evict/Drop.antt =====
-- The second loop of `PageStore::evict`, kobzar/src/q_engine/storage/idx_common.rs.
use kobzar.Base.{
  ℕ, ◌%◌, ◌^◌, ◌≡◌, ◌≢◌, refl, ◌∙◌, List, [], ◌∷◌, ◌++◌, map, none, length, All, append_assoc,
  append-nil,
}
use kobzar.Base.Maps
use kobzar.Base.Maps.{Distinct, keys}
use kobzar.Base.Maps.Remove.{
  All-remove, Distinct-map-remove, get-remove_ne, get-remove_self, get-remove-none,
}
use kobzar.Base.Search.{BinarySearch}
use kobzar.Cache.Store.{KeyExt, PageStore}
use kobzar.Cache.Store.Laws.{Fits, IsValid}
use kobzar.Cache.Evict.{Scored, drop_page}
use mathlib.Core.List.{foldl}

module _ (k : KeyExt) (b : BinarySearch) (count : ℕ) (P : Type 0) where
  open k use {PageKey, same}

  abbrev pub dropped_all : PageStore k P → List (Scored k) → PageStore k P
  dropped_all st out = foldl (drop_page k b count P) st out

  -- the loop leaves the pages in memory and the generation, and adds the slots of the pages to the vacant ones
  pub dropped_all-kept :
      (out : List (Scored k)) (st : PageStore k P)
      → ((dropped_all st out).pages ≡ st.pages)
        × ((dropped_all st out).last_gen ≡ st.last_gen)
        × ((dropped_all st out).vacant_pages
            ≡ st.vacant_pages ++ map (λ (s : Scored k). s.idx % 2 ^ 32) out)
  unfolding drop_page
  dropped_all-kept [] st = (refl, refl, sym_nil)
    where
      sym_nil : st.vacant_pages ≡ st.vacant_pages ++ []
      sym_nil = rw append-nil refl
  dropped_all-kept (s ∷ out) st =
      let (pages, gen, vacant) = dropped_all-kept out (drop_page k b count P st s) in
      (pages, gen, vacant ∙ append_assoc st.vacant_pages (s.idx % 2 ^ 32 ∷ []) _)

  pub drop_page-IsValid :
      (s : Scored k) (st : PageStore k P)
      → IsValid k P st
      → IsValid k P (drop_page k b count P st s)
  unfolding drop_page
  drop_page-IsValid s st v = record {
    distinct_keys = Distinct-map-remove same s.key (λ e. e.0) st.page_map v.distinct_keys;
    distinct_slots = Distinct-map-remove same s.key (λ e. e.1.idx) st.page_map v.distinct_slots;
    fitting =
        All-remove same s.key (λ e. Fits (length st.pages) st.last_gen e.1) st.page_map v.fitting;
  }

  pub dropped_all-IsValid :
      (out : List (Scored k)) (st : PageStore k P)
      → IsValid k P st
      → IsValid k P (dropped_all st out)
  dropped_all-IsValid [] st v = v
  dropped_all-IsValid (s ∷ out) st v =
      dropped_all-IsValid out (drop_page k b count P st s) (drop_page-IsValid s st v)

  -- a page that is not among those collected keeps its metadata
  pub dropped_all-others :
      (out : List (Scored k)) (st : PageStore k P) (i : PageKey)
      → All (λ s. s.key ≢ i) out
      → Maps.get same i (dropped_all st out).page_map ≡ Maps.get same i st.page_map
  unfolding drop_page
  dropped_all-others [] st i _ = refl
  dropped_all-others (s ∷ out) st i (n, ns) =
      dropped_all-others out (drop_page k b count P st s) i ns
      ∙ get-remove_ne same s.key st.page_map i n

  dropped_all-absent :
      (out : List (Scored k)) (st : PageStore k P) (i : PageKey)
      → Maps.get same i st.page_map ≡ none
      → Maps.get same i (dropped_all st out).page_map ≡ none
  unfolding drop_page
  dropped_all-absent [] st i e = e
  dropped_all-absent (s ∷ out) st i e =
      dropped_all-absent out (drop_page k b count P st s) i
        (get-remove-none same s.key i st.page_map e)

  -- the collected pages are not mapped any more
  pub dropped_all-gone :
      (out : List (Scored k)) (st : PageStore k P)
      → IsValid k P st
      → All (λ s. Maps.get same s.key (dropped_all st out).page_map ≡ none) out
  unfolding drop_page
  dropped_all-gone [] st v = tt
  dropped_all-gone (s ∷ out) st v = (
    dropped_all-absent out (drop_page k b count P st s) s.key
        (get-remove_self same s.key st.page_map v.distinct_keys),
    dropped_all-gone out (drop_page k b count P st s) (drop_page-IsValid s st v),
  )
