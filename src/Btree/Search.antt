-- ===== src/Btree/Search.antt =====
-- `DbStore::btree_search` of kobzar/src/q_engine/storage/idx_btree.rs. The loading of a page, which the
-- source leaves open, is a parameter, and so is the standard library's binary search.
use kobzar.Base.{
  ℕ, zero, suc, ◌+◌, ◌-◌, ◌%◌, ◌^◌, ◌≡◌, List, [], ◌∷◌, ◌++◌, Option, none, some, ltb, leb,
  if◌then◌else◌, length, take, get_elem?, replicate,
}
use kobzar.Base.Results.{Result, ok, err, ◌>>=◌}
use kobzar.Base.Search.{BinarySearchBy, Found, found, absent}
use kobzar.Wal.Names.{same_text}
use kobzar.Btree.{
  IdxPage, IdxKey, Key, node_from_raw, leaf_from_raw, is_leaf, into_inner, SearchOutcome, merge,
  key_len, SearchCfg,
}
use Prim.Native.Nat.{compare, Ordering}

-- the order of byte arrays
unfoldable pub compare_bytes : List ℕ → List ℕ → Ordering
compare_bytes [] [] = Ordering.eq
compare_bytes [] (y ∷ ys) = Ordering.lt
compare_bytes (x ∷ xs) [] = Ordering.gt
compare_bytes (x ∷ xs) (y ∷ ys) = elim (compare x y) [
  | Ordering.lt ↦ Ordering.lt
  | Ordering.gt ↦ Ordering.gt
  | Ordering.eq ↦ compare_bytes xs ys
]

-- How a search fails: an I/O error, a panic, code that the source does not have yet (`todo!`), which panics
-- too, or fuel that was not enough, which the source does not know.
pub data SearchError (E : Type 0) : Type 0 where
  io : E → SearchError E
  panics : SearchError E
  out_of_fuel : SearchError E

-- `load_idx`: the page of a key does not depend on what was loaded before.
pub record IdxPages : Type 1 where
  pub Store : Type 0
  pub IoError : Type 0
  pub page_of : IdxKey → IdxPage
  pub load_idx : Store → IdxKey → Store × Result IoError IdxPage
  pub load_idx_ok :
      (st : Store) (key : IdxKey) {page : IdxPage}
      → (load_idx st key).1 ≡ ok page
      → page ≡ page_of key

-- an index into a slice
abbrev pub index : {E A : Type 0} → List A → ℕ → Result (SearchError E) A
index xs i = elim (get_elem? xs i) [ none ↦ err panics | some x ↦ ok x ]

-- `&keys[0..n]`
abbrev pub first_keys : {E : Type 0} → ℕ → List Key → Result (SearchError E) (List Key)
first_keys n keys = if leb n (length keys) then ok (take n keys) else err panics

-- `keys`
unfoldable pub keys : {E : Type 0} → SearchCfg → IdxPage → Result (SearchError E) (List Key)
keys cfg page =
    if cfg.is_root_leaf
    then first_keys (leaf_from_raw page).key_count (leaf_from_raw page).keys
    else first_keys (node_from_raw page).keys_count (node_from_raw page).keys

-- the value in a buffer of 16 bytes
unfoldable pub padded : {E : Type 0} → List ℕ → Result (SearchError E) Key
padded value =
    if leb (length value) 16 then ok (value ++ replicate (16 - length value) 0) else err panics

-- the two loops to the neighbors
unfoldable pub walk_left : {E : Type 0} → List Key → Key → ℕ → Result (SearchError E) ℕ
walk_left keys value zero = index keys 0 >>= λ _. ok 0
walk_left keys value (suc start) =
    let further = walk_left keys value start in
    index keys (suc start) >>= λ key. if same_text key value then further else ok (suc start)

unfoldable pub walk_right : {E : Type 0} → ℕ → List Key → Key → ℕ → Result (SearchError E) ℕ
walk_right zero keys value end = err out_of_fuel
walk_right (suc fuel) keys value end =
    let further = walk_right fuel keys value (end + 1) in
    let inside = ltb end (length keys - 1) in
    index keys end >>= λ key.
    if same_text key value then if inside then further else ok end else ok end

module _ (b : BinarySearchBy Key) (pages : IdxPages) where
  open b use {search_by}
  open pages use {Store, IoError, load_idx}

  abbrev pub Searched : Type 0
  Searched = Store × Result (SearchError IoError) (Option SearchOutcome)

  -- the range of one page
  abbrev pub widen :
      SearchCfg → List Key → Key → Found → Result (SearchError IoError) (Option SearchOutcome)
  widen cfg keys value (absent _) = ok none
  widen cfg keys value (found i) = walk_left keys value i >>= λ start.
      walk_right (length keys) keys value i >>= λ end. ok (
        some (record {
          start_page = cfg.root.page;
          end_page = cfg.root.page;
          start_key_id = start;
          end_key_id = end;
        }))

  unfoldable pub search_page :
      SearchCfg → Key → IdxPage → Result (SearchError IoError) (Option SearchOutcome)
  search_page cfg value page = keys cfg page >>= λ keys.
      widen cfg keys value (search_by keys (λ key. compare_bytes key value))

  -- the configuration for the child `child`
  abbrev pub child_cfg : SearchCfg → ℕ → ℕ → SearchCfg
  child_cfg cfg child results = record cfg {
    root = record cfg.root { page = into_inner child };
    is_root_leaf = is_leaf child;
    limit = cfg.limit - results;
  }

  -- what the loop does with the result of a child
  abbrev pub after_child : (Store → SearchOutcome → Searched) → Searched → Searched
  after_child next (st, err e) = (st, err e)
  after_child next (st, ok none) = (st, err panics)
  after_child next (st, ok (some o)) = next st o

  -- The loop over the children, `n` of them from `cur` on; `go` searches a child.
  unfoldable pub visit :
      (Store → SearchCfg → Searched)
      → SearchCfg
      → List ℕ
      → ℕ
      → ℕ
      → Store
      → SearchOutcome
      → ℕ
      → Searched
  visit go cfg children zero cur st merged results = (st, ok (some merged))
  visit go cfg children (suc n) cur st merged results =
      if ltb results cfg.limit
      then elim (get_elem? children cur) [
        | none ↦ (st, err panics)
        | some child ↦
            after_child
              (λ st' o.
                visit go cfg children n (cur + 1) st' (merge merged o)
                  ((results + key_len o) % 2 ^ 64))
              (go st (child_cfg cfg child results))
      ]
      else (st, ok (some merged))

  -- `search_inline` on a page that is loaded
  abbrev pub descend :
      (Store → SearchCfg → Searched)
      → SearchCfg
      → IdxPage
      → Store
      → Result (SearchError IoError) (Option SearchOutcome)
      → Searched
  descend go cfg page st (err e) = (st, err e)
  descend go cfg page st (ok none) = (st, ok none)
  descend go cfg page st (ok (some o)) =
      if cfg.is_root_leaf
      then (st, ok (some o))
      else visit go cfg (node_from_raw page).children (o.end_key_id - o.start_key_id) o.start_key_id
          st o (key_len o)

  -- the part of `search_inline` behind the buffer of the value
  abbrev pub search_loaded :
      (Store → SearchCfg → Searched) → SearchCfg → Key → Store × Result IoError IdxPage → Searched
  search_loaded go cfg value (st, err e) = (st, err (io e))
  search_loaded go cfg value (st, ok page) = descend go cfg page st (search_page cfg value page)

  unfoldable pub search_inline : ℕ → Store → SearchCfg → Searched
  search_inline zero st cfg = (st, err out_of_fuel)
  search_inline (suc fuel) st cfg = elim (padded cfg.value) [
    | err e ↦ (st, err e)
    | ok value ↦ search_loaded (search_inline fuel) cfg value (load_idx st cfg.root)
  ]

  -- `search_blob` is not written yet: it panics.
  unfoldable pub btree_search : ℕ → Store → SearchCfg → Searched
  btree_search fuel st cfg =
      let inline = search_inline fuel st cfg in if cfg.is_blobs then (st, err panics) else inline
