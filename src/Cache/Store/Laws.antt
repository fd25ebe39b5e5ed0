-- ===== src/Cache/Store/Laws.antt =====
-- The invariant of `PageStore`, kobzar/src/q_engine/storage/idx_common.rs.
use kobzar.Base.{
  ℕ, ◌+◌, ◌^◌, ◌≤◌, ◌<◌, ◌≡◌, ◌≢◌, refl, arith, List, [], ◌∷◌, ◌++◌, map, true, false, none, some,
  length, All, All-set, length-append, Option-cases, inl, inr,
}
use kobzar.Base.Maps
use mathlib.Core.List.{map-append}
use kobzar.Base.Maps.{Distinct, keys, All-append, All-map_fun, Distinct-append_one}
use kobzar.Cache.Ring.{RingInline, CacheMeta, new}
use kobzar.Cache.Ring
use kobzar.Cache.Ring.Laws
use kobzar.Cache.Ring.Laws.{new-IsValid, push-IsValid}
use kobzar.Cache.Store.{KeyExt, PageStore, touch, add_page, next_gen, open_store}

-- What holds of the metadata of a cached page, with the number of pages and the next generation: its
-- slot exists, its ring is a ring, and it was accessed only in earlier generations.
pub record Fits (slots now : ℕ) (meta : CacheMeta) : Type 0 where
  pub slot_in : meta.idx < slots
  pub ring : Ring.Laws.IsValid meta.last_accessed
  pub past : All (λ a. a < now) meta.last_accessed.last_accessed

Fits-mono :
    {slots slots' now now' : ℕ} (meta : CacheMeta)
    → slots ≤ slots'
    → now ≤ now'
    → Fits slots now meta
    → Fits slots' now' meta
Fits-mono meta hs hn f = record {
  slot_in = omega arith;
  ring = f.ring;
  past = All-map_fun (λ a h. omega arith) meta.last_accessed.last_accessed f.past;
}

module _ (k : KeyExt) (P : Type 0) where
  open k use {Key, PageKey, page_bound, same}

  -- the slots of the cached pages
  abbrev pub slots : List (PageKey × CacheMeta) → List ℕ
  slots m = map (λ e. e.1.idx) m

  pub record IsValid (st : PageStore k P) : Type 0 where
    pub distinct_keys : Distinct (keys st.page_map)
    pub distinct_slots : Distinct (slots st.page_map)
    pub fitting : All (λ e. Fits (length st.pages) st.last_gen e.1) st.page_map

  pub slots-modify :
      (key : PageKey) (f : CacheMeta → CacheMeta) (m : List (PageKey × CacheMeta))
      → ((meta : CacheMeta) → (f meta).idx ≡ meta.idx)
      → slots (Maps.modify same key f m) ≡ slots m
  unfolding Maps.modify
  slots-modify key f [] h = refl
  slots-modify key f ((j, meta) ∷ m) h = ground (arith, slots-modify key f m h, h meta)

  -- the counter can be advanced without wrapping
  abbrev pub HasNext : PageStore k P → Type 0
  HasNext st = st.last_gen + 1 < 2 ^ 64

  touch-Fits :
      (n g : ℕ) (meta : CacheMeta) → Fits n (g + 1) meta → Fits n (g + 1) (Ring.touch meta g)
  unfolding Ring.touch
  touch-Fits n g meta f = record {
    slot_in = f.slot_in;
    ring = push-IsValid g f.ring;
    past =
        unfold Ring.push in
        All-set (λ a. a < g + 1) meta.last_accessed.last_accessed meta.last_accessed.start g f.past
          (omega arith);
  }

  idx-touch : (g : ℕ) (meta : CacheMeta) → (Ring.touch meta g).idx ≡ meta.idx
  unfolding Ring.touch
  idx-touch g meta = refl

  module _ (st : PageStore k P) (item_key : Key) where
    pub touch-miss :
        Maps.get same (page_bound item_key) st.page_map ≡ none → touch k P st item_key ≡ (st, false)
    unfolding touch
    touch-miss e = rw (e, touch)

    pub touch-hit :
        (meta : CacheMeta)
        → Maps.get same (page_bound item_key) st.page_map ≡ some meta
        → touch k P st item_key ≡ (
          record st {
            page_map =
                Maps.modify same (page_bound item_key) (λ m. Ring.touch m st.last_gen) st.page_map;
            last_gen = next_gen k P st.last_gen;
          },
          true,
        )
    unfolding touch
    touch-hit meta e = rw (e, touch)

    pub touch-IsValid : IsValid st → HasNext st → IsValid (touch k P st item_key).0
    touch-IsValid v bound = elim (Option-cases (Maps.get same (page_bound item_key) st.page_map)) [
      | inl e ↦ rw (touch-miss e) v
      | inr (meta, e) ↦ rw (touch-hit meta e) (record {
        distinct_keys = rw Maps.keys-modify v.distinct_keys;
        distinct_slots =
            rw (slots-modify key accessed st.page_map (λ m. idx-touch st.last_gen m))
              v.distinct_slots;
        fitting = rw next (
            Maps.All-modify same key (λ e. Fits (length st.pages) (st.last_gen + 1) e.1) accessed
              st.page_map (λ j m. touch-Fits (length st.pages) st.last_gen m) later);
      })
    ]
      where
        key : PageKey
        key = page_bound item_key

        accessed : CacheMeta → CacheMeta
        accessed m = Ring.touch m st.last_gen

        next : next_gen k P st.last_gen ≡ st.last_gen + 1
        next = omega arith

        later : All (λ e. Fits (length st.pages) (st.last_gen + 1) e.1) st.page_map
        later = All-map_fun (λ e. Fits-mono e.1 (omega arith) (omega arith)) st.page_map v.fitting

  slots-ne_new :
      (n g : ℕ) (m : List (PageKey × CacheMeta))
      → All (λ e. Fits n g e.1) m
      → All (λ slot. slot ≢ n) (slots m)
  slots-ne_new n g [] _ = tt
  slots-ne_new n g ((j, meta) ∷ m) (f, fs) = (λ e. absurd (omega arith), slots-ne_new n g m fs)

  new-Fits :
      (n g : ℕ) → Fits (n + 1) (g + 1) (record { idx = n; dirty = false; last_accessed = new g })
  new-Fits n g = record {
    slot_in = omega arith;
    ring = new-IsValid g;
    past = unfold new in omega arith;
  }

  -- Adding a loaded page whose key is not mapped to a valid store whose generation counter does
  -- not wrap gives a valid store: distinct keys, distinct slots, each in memory, and accesses in
  -- the past.
  pub add_page-IsValid :
      (st : PageStore k P) (key : PageKey) (page : P)
      → IsValid st
      → HasNext st
      → Maps.get same key st.page_map ≡ none
      → IsValid (add_page k P st key page)
  unfolding add_page
  add_page-IsValid st key page v bound e = record {
    distinct_keys =
        rw (added, map-append)
          (Distinct-append_one (keys st.page_map) key v.distinct_keys
            (Maps.not_key_of_none same key st.page_map e));
    distinct_slots =
        rw (added, map-append)
          (Distinct-append_one (slots st.page_map) n v.distinct_slots
            (slots-ne_new n st.last_gen st.page_map v.fitting));
    fitting =
        rw (added, grown, next)
          (All-append (λ e. Fits (n + 1) (st.last_gen + 1) e.1) st.page_map ((key, meta) ∷ []) later
            (new-Fits n st.last_gen, tt));
  }
    where
      n : ℕ
      n = length st.pages

      meta : CacheMeta
      meta = record { idx = n; dirty = false; last_accessed = new st.last_gen }

      added : Maps.insert same key meta st.page_map ≡ st.page_map ++ ((key, meta) ∷ [])
      added = Maps.insert_new same key meta st.page_map e

      grown : length (st.pages ++ (page ∷ [])) ≡ n + 1
      grown = omega (arith, length-append st.pages (page ∷ []))

      next : next_gen k P st.last_gen ≡ st.last_gen + 1
      next = omega arith

      later : All (λ e. Fits (n + 1) (st.last_gen + 1) e.1) st.page_map
      later = All-map_fun (λ e. Fits-mono e.1 (omega arith) (omega arith)) st.page_map v.fitting

  pub open_store-IsValid : (recs : ℕ) → IsValid (open_store k P recs)
  unfolding open_store
  open_store-IsValid recs = record { distinct_keys = tt; distinct_slots = tt; fitting = tt }
