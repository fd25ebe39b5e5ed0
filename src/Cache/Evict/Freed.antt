-- ===== src/Cache/Evict/Freed.antt =====
-- What `PageStore::evict` makes of a store, kobzar/src/q_engine/storage/idx_common.rs. It keeps the list of the
-- pages with the lowest scores, though the doc of `eviction_score` calls a page with a higher score the likelier
-- one to be evicted.
use kobzar.Base.{
  ℕ, zero, suc, ◌%◌, ◌^◌, ◌<◌, ◌≡◌, ◌≢◌, refl, ap, ◌∙◌, sym, subst, arith, min, List, [], ◌∷◌, ◌++◌,
  map, none, some, length, All, Option-cases, inl, inr, drop, take,
}
use kobzar.Base.Maps
use kobzar.Base.Maps.{Distinct, keys, All-map_fun, All-append}
use kobzar.Base.Maps.Remove.{get-map_values}
use kobzar.Base.Search.{BinarySearch}
use kobzar.Cache.Ring.{CacheMeta, eviction_score, rotate_to_normalize}
use kobzar.Cache.Ring.Laws.{rotate_to_normalize-IsValid}
use kobzar.Cache.Store.{KeyExt, PageStore}
use kobzar.Cache.Store.Laws.{Fits, IsValid, slots}
use kobzar.Cache.Evict.{Scored, scan, evict}
use kobzar.Cache.Evict.Select.{Below}
use kobzar.Cache.Evict.Least.{scored, rotated, IsLeast, scan-rotated, scan-IsLeast}
use kobzar.Cache.Evict.Drop.{
  dropped_all, dropped_all-kept, dropped_all-IsValid, dropped_all-others, dropped_all-gone,
}
use mathlib.Core.List.{Permᴰ}
use mathlib.Core.Option

rotate-All : (P : ℕ → Type 0) (n : ℕ) (xs : List ℕ) → All P xs → All P (drop n xs ++ take n xs)
rotate-All P n xs h = All-append P (drop n xs) (take n xs) (All-drop' n xs h) (All-take' n xs h)
  where
    All-drop' : (n : ℕ) (xs : List ℕ) → All P xs → All P (drop n xs)
    All-drop' zero xs h = h
    All-drop' (suc n) [] h = tt
    All-drop' (suc n) (x ∷ xs) (_, h) = All-drop' n xs h

    All-take' : (n : ℕ) (xs : List ℕ) → All P xs → All P (take n xs)
    All-take' zero xs h = tt
    All-take' (suc n) [] h = tt
    All-take' (suc n) (x ∷ xs) (p, h) = (p, All-take' n xs h)

rotated-Fits :
    (k : KeyExt) (n g now : ℕ) (meta : CacheMeta) → Fits n g meta → Fits n g (rotated k now meta)
unfolding eviction_score rotate_to_normalize
rotated-Fits k n g now meta f = record {
  slot_in = f.slot_in;
  ring = rotate_to_normalize-IsValid meta.last_accessed f.ring;
  past = rotate-All (λ a. a < g) _ meta.last_accessed.last_accessed f.past;
}

module _ (k : KeyExt) (P : Type 0) where
  open k use {PageKey, same}

  abbrev pub all_rotated : ℕ → List (PageKey × CacheMeta) → List (PageKey × CacheMeta)
  all_rotated now m = map (λ e. (e.0, rotated k now e.1)) m

  keys-rotated : (now : ℕ) (m : List (PageKey × CacheMeta)) → keys (all_rotated now m) ≡ keys m
  keys-rotated now [] = refl
  keys-rotated now (e ∷ m) = ap (λ r. e.0 ∷ r) (keys-rotated now m)

  slots-rotated :
      (now : ℕ) (m : List (PageKey × CacheMeta)) → slots k P (all_rotated now m) ≡ slots k P m
  unfolding eviction_score
  slots-rotated now [] = refl
  slots-rotated now (e ∷ m) = ap (λ r. e.1.idx ∷ r) (slots-rotated now m)

  Fits-rotated :
      (n g now : ℕ) (m : List (PageKey × CacheMeta))
      → All (λ e. Fits n g e.1) m
      → All (λ e. Fits n g e.1) (all_rotated now m)
  Fits-rotated n g now [] _ = tt
  Fits-rotated n g now (e ∷ m) (f, fs) = (rotated-Fits k n g now e.1 f, Fits-rotated n g now m fs)

  abbrev rotated_store : PageStore k P → PageStore k P
  rotated_store st = record st { page_map = all_rotated st.last_gen st.page_map }

  rotated_store-IsValid : (st : PageStore k P) → IsValid k P st → IsValid k P (rotated_store st)
  rotated_store-IsValid st v = record {
    distinct_keys = rw (keys-rotated st.last_gen st.page_map) v.distinct_keys;
    distinct_slots = rw (slots-rotated st.last_gen st.page_map) v.distinct_slots;
    fitting = Fits-rotated (length st.pages) st.last_gen st.last_gen st.page_map v.fitting;
  }

  module _ (b : BinarySearch) (count : ℕ) where
    -- A store after an eviction: `out` are the pages that are gone, `rest` those that stay.
    pub record IsEvicted (st st' : PageStore k P) : Type 0 where
      pub out : List (Scored k)
      pub rest : List (Scored k)
      pub order : Permᴰ (scored k st.last_gen st.page_map) (out ++ rest)
      pub sized : length out ≡ min count (length st.page_map)
      pub least : All (λ d. Below k d.score out) rest
      pub gone : All (λ s. Maps.get same s.key st'.page_map ≡ none) out
      pub others :
          (i : PageKey)
          → All (λ s. s.key ≢ i) out
          → Maps.get same i st'.page_map
            ≡ Option.map (rotated k st.last_gen) (Maps.get same i st.page_map)
      pub kept_pages : st'.pages ≡ st.pages
      pub kept_gen : st'.last_gen ≡ st.last_gen
      pub freed : st'.vacant_pages ≡ st.vacant_pages ++ map (λ (s : Scored k). s.idx % 2 ^ 32) out
      pub valid : IsValid k P st'

    evict-step :
        (st : PageStore k P) {st' : PageStore k P}
        → evict k b count P st ≡ some st'
        → (r : List (PageKey × CacheMeta) × List (Scored k)) × (scan k b count st.last_gen
              st.page_map []
            ≡ some r)
          × (dropped_all k b count P (record st { page_map = r.0 }) r.1 ≡ st')
    unfolding evict
    evict-step st e = elim (Option-cases (scan k b count st.last_gen st.page_map [])) [
      | inl failed ↦ absurd (let h = rw failed at e in cc (h))
      | inr (r, done) ↦ (r, done, let h = rw done at e in cc (h))
    ]

    -- From a valid store and with a count above 0, an eviction that does not panic drops as many
    -- pages as the count says, or all if there are fewer, such that no page that stays has a
    -- smaller score than one that goes; their keys are unmapped and their slots are added to the
    -- vacant ones, the other pages keep their metadata but for a rotated ring, the pages in
    -- memory and the generation stay, and the store is valid.
    pub evict-IsEvicted :
        (st : PageStore k P) {st' : PageStore k P}
        → 0 < count
        → IsValid k P st
        → evict k b count P st ≡ some st'
        → IsEvicted st st'
    evict-IsEvicted st {st'} pos v e =
        let ((entries, out), done, same_store) = evict-step st e in
        let rotated_entries = scan-rotated k b count st.last_gen st.page_map [] done in
        let l = scan-IsLeast k b count st.last_gen st.page_map [] pos (omega arith) tt done in
        subst (IsEvicted st)
          (ap (λ m. dropped_all k b count P (record st { page_map = m }) out) (sym rotated_entries)
            ∙ same_store)
          (dropped out l)
      where
        dropped :
            (out : List (Scored k))
            → IsLeast k b count st.last_gen [] st.page_map out
            → IsEvicted st (dropped_all k b count P (rotated_store st) out)
        dropped out l =
            let (pages, gen, vacant) = dropped_all-kept k b count P out (rotated_store st) in
            let v' = rotated_store-IsValid st v in
            record {
              out = out;
              rest = l.rest;
              order = l.order;
              sized = let n = l.sized in omega arith;
              least = l.least;
              gone = dropped_all-gone k b count P out (rotated_store st) v';
              others = λ i n.
                  dropped_all-others k b count P out (rotated_store st) i n
                  ∙ get-map_values same (rotated k st.last_gen) i st.page_map;
              kept_pages = pages;
              kept_gen = gen;
              freed = vacant;
              valid = dropped_all-IsValid k b count P out (rotated_store st) v';
            }
