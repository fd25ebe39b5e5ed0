-- ===== src/Btree/Tests.antt =====
-- The search of the B-tree at concrete pages: a node with two keys, one leaf for each.
use kobzar.Base.{
  ℕ, zero, suc, ◌+◌, ◌≤◌, ◌<◌, ◌≡◌, ◌≢◌, refl, List, [], ◌∷◌, ◌++◌, some, Bool, true, false, ◌==◌,
  if◌then◌else◌, length, take, drop, get_elem?, replicate, All, arith, sym,
}
use mathlib.Core.Path.{subst}
use kobzar.Base.Results.{Result, ok, err}
use kobzar.Base.Search.{BinarySearchBy, IsPartitioned, Found, found, absent}
use kobzar.Base.Bytes.{le_bytes, of_le}
use kobzar.Btree.{
  IdxPage, IdxKey, Key, node_from_raw, leaf_from_raw, is_leaf, into_inner, SearchCfg, leaf_flag,
}
use kobzar.Btree.Search.{
  IdxPages, keys, first_keys, padded, panics, out_of_fuel, btree_search, search_page, compare_bytes,
}
use kobzar.Btree.Keys.{idx_keys, filename, hexadecimal}
use kobzar.Btree.Range.{search_page-range}
use kobzar.Btree.Descent.{btree_search_total}
use kobzar.Btree.Stray.{btree_search_stray}
use Prim.Native.Nat.{Ordering}

abbrev shift : Found → Found
shift (found i) = found (i + 1)
shift (absent i) = absent (i + 1)

abbrev choose : Ordering → Found → Found
choose Ordering.lt rest = shift rest
choose Ordering.eq rest = found 0
choose Ordering.gt rest = absent 0

shift-absent : (f : Found) (i : ℕ) → shift f ≡ absent i → (j : ℕ) × (f ≡ absent j) × (i ≡ suc j)
shift-absent (found j) i e = cc
shift-absent (absent j) i e = (j, refl, ground arith)

-- a linear search
scan : List Key → (Key → Ordering) → Found
scan [] order = absent 0
scan (x ∷ xs) order = choose (order x) (scan xs order)

abbrev IsHit : List Key → (Key → Ordering) → ℕ → Type 0
IsHit xs order i = (x : Key) × (get_elem? xs i ≡ some x) × (order x ≡ Ordering.eq)

choose_found :
    (x : Key) (xs : List Key) (order : Key → Ordering) (o : Ordering) (rest : Found) (i : ℕ)
    → order x ≡ o
    → ((j : ℕ) → rest ≡ found j → IsHit xs order j)
    → choose o rest ≡ found i
    → IsHit (x ∷ xs) order i
choose_found x xs order Ordering.lt (found j) i is later e =
    let (y, at, same) = later j refl in subst (IsHit (x ∷ xs) order) (above j e) (y, at, same)
  where
    above : (j : ℕ) → ◌≡◌ {A = Found} (found (j + 1)) (found i) → suc j ≡ i
    above j e = ground arith
choose_found x xs order Ordering.lt (absent j) i is later e = cc
choose_found x xs order Ordering.eq rest i is later e =
    let first : 0 ≡ i = cc e in subst (IsHit (x ∷ xs) order) first (x, refl, is)
choose_found x xs order Ordering.gt rest i is later e = cc

scan_found :
    (xs : List Key) (order : Key → Ordering) (i : ℕ) → scan xs order ≡ found i → IsHit xs order i
unfolding scan
scan_found [] order i e = cc
scan_found (x ∷ xs) order i e =
    choose_found x xs order (order x) (scan xs order) i refl (scan_found xs order) e

abbrev IsEnd : List Key → (Key → Ordering) → ℕ → Type 0
IsEnd xs order i =
    (i ≤ length xs)
    × All (λ x. order x ≡ Ordering.lt) (take i xs)
    × All (λ x. order x ≡ Ordering.gt) (drop i xs)

scan_absent :
    (order : Key → Ordering) (before matches behind : List Key) (i : ℕ)
    → All (λ x. order x ≡ Ordering.lt) before
    → All (λ x. order x ≡ Ordering.eq) matches
    → All (λ x. order x ≡ Ordering.gt) behind
    → scan (before ++ (matches ++ behind)) order ≡ absent i
    → IsEnd (before ++ (matches ++ behind)) order i
unfolding scan
scan_absent order [] [] [] i less equal greater e =
    let first : 0 ≡ i = cc e in subst (IsEnd [] order) first (omega arith, tt, tt)
scan_absent order [] [] (x ∷ xs) i less equal greater e =
    let first : 0 ≡ i = cc (e, greater.0) in
    subst (IsEnd (x ∷ xs) order) first (omega arith, tt, greater)
scan_absent order [] (x ∷ xs) behind i less equal greater e = cc (e, equal.0)
scan_absent order (x ∷ xs) matches behind i (lt, less) equal greater e =
    let rest : List Key = xs ++ (matches ++ behind) in
    let later : shift (scan rest order) ≡ absent i = rw lt at e in
    let (j, at, above) = shift-absent (scan rest order) i later in
    let (h, before, after) = scan_absent order xs matches behind j less equal greater at in
    subst (IsEnd (x ∷ rest) order) (sym above) (omega arith, (lt, before), after)

scan_partitioned :
    (xs : List Key) (order : Key → Ordering) (i : ℕ)
    → IsPartitioned order xs
    → scan xs order ≡ absent i
    → IsEnd xs order i
scan_partitioned xs order i s e =
    subst (λ ys. IsEnd ys order i) (sym s.split)
      (scan_absent order s.before s.matches s.behind i s.before_less s.matches_equal
        s.behind_greater (rw (← s.split) e))

abbrev linear : BinarySearchBy Key
linear = record {
  search_by = scan;
  search_by_found = λ xs order i s e. scan_found xs order i e;
  search_by_absent = scan_partitioned;
}

abbrev key : ℕ → Key
key n = n ∷ replicate 15 0

-- A node for the keys 1 and 2 over the leaves of pages 5 and 6, which hold one key each.
abbrev node_page : IdxPage
node_page =
    key 1
    ++ (key 2
        ++ (replicate 2656 0
            ++ (le_bytes 8 0
                ++ (le_bytes 8 2 ++ (le_bytes 8 (leaf_flag + 5) ++ le_bytes 8 (leaf_flag + 6))))))

abbrev leaf_page : ℕ → IdxPage
leaf_page n = le_bytes 8 1 ++ (replicate 56 0 ++ key n)

abbrev page_at : ℕ → IdxPage
page_at n = if n == 5 then leaf_page 1 else if n == 6 then leaf_page 2 else node_page

loaded :
    (key : IdxKey) {page : IdxPage}
    → ◌≡◌ {A = Result ℕ IdxPage} (ok (page_at key.page)) (ok page)
    → page ≡ page_at key.page
loaded key e = cc e

abbrev memory : IdxPages
memory = record {
  Store = ℕ;
  IoError = ℕ;
  page_of = λ key. page_at key.page;
  load_idx = λ loads key. (loads + 1, ok (page_at key.page));
  load_idx_ok = λ loads key e. loaded key e;
}

abbrev cfg_for : ℕ → Bool → ℕ → SearchCfg
cfg_for n is_root_leaf page = record {
  value = n ∷ [];
  root = record { index = 0; db = 0; page = page };
  is_root_leaf = is_root_leaf;
  is_blobs = false;
  limit = 10;
}

abbrev node_keys : List Key
node_keys = key 1 ∷ key 2 ∷ []

less_key : (n m : ℕ) → n < m → compare_bytes (key n) (key m) ≡ Ordering.lt
unfolding compare_bytes
less_key n m h = ground arith

same_key : (n : ℕ) → compare_bytes (key n) (key n) ≡ Ordering.eq
unfolding compare_bytes
same_key n = ground arith

abbrev node_split : IsPartitioned (λ k. compare_bytes k (key 2)) node_keys
node_split = record {
  before = key 1 ∷ [];
  matches = key 2 ∷ [];
  behind = [];
  split = refl;
  before_less = (less_key 1 2 (omega arith), tt);
  matches_equal = (same_key 2, tt);
  behind_greater = tt;
}

abbrev leaf_split : IsPartitioned (λ k. compare_bytes k (key 2)) (key 1 ∷ [])
leaf_split = record {
  before = key 1 ∷ [];
  matches = [];
  behind = [];
  split = refl;
  before_less = (less_key 1 2 (omega arith), tt);
  matches_equal = tt;
  behind_greater = tt;
}

node_has :
    first_keys {E = ℕ} (node_from_raw node_page).keys_count (node_from_raw node_page).keys
    ≡ ok node_keys
unfolding node_from_raw of_le le_bytes
node_has = refl

leaf_has :
    first_keys {E = ℕ} (leaf_from_raw (leaf_page 1)).key_count (leaf_from_raw (leaf_page 1)).keys
    ≡ ok (key 1 ∷ [])
unfolding leaf_from_raw of_le le_bytes
leaf_has = refl

node_children : get_elem? (node_from_raw node_page).children 0 ≡ some (leaf_flag + 5)
unfolding node_from_raw of_le le_bytes
node_children = refl

below_node :
    (i child : ℕ)
    → i < (node_from_raw node_page).keys_count
    → get_elem? (node_from_raw node_page).children i ≡ some child
    → is_leaf child ≡ true
unfolding node_from_raw of_le le_bytes is_leaf
below_node zero child h at =
    let same : leaf_flag + 5 ≡ child = cc at in subst (λ c. is_leaf c ≡ true) same refl
below_node (suc zero) child h at =
    let same : leaf_flag + 6 ≡ child = cc at in subst (λ c. is_leaf c ≡ true) same refl
below_node (suc (suc i)) child h at = absurd (omega arith)

value_fits : padded {E = ℕ} (2 ∷ []) ≡ ok (key 2)
unfolding padded
value_fits = refl

search_page-range_example :
    search_page linear memory (cfg_for 2 false 1) (key 2) node_page
    ≡ ok (some (record { start_page = 1; end_page = 1; start_key_id = 0; end_key_id = 1 }))
unfolding keys
search_page-range_example =
    search_page-range linear memory (cfg_for 2 false 1) node_page (key 2) node_keys node_has
      node_split

btree_search_total_example :
    (btree_search linear memory 2 0 (cfg_for 2 false 1)).1 ≢ err out_of_fuel
btree_search_total_example =
    btree_search_total linear memory 1 2 0 (cfg_for 2 false 1) (λ node. below_node) (omega arith)

btree_search_stray_example : btree_search linear memory 2 0 (cfg_for 2 false 1) ≡ (2, err panics)
unfolding into_inner is_leaf
btree_search_stray_example =
    btree_search_stray linear memory 0 0 1 2 (cfg_for 2 false 1) (key 2) node_page (leaf_page 1)
      node_keys (key 1 ∷ []) (leaf_flag + 5) refl refl value_fits refl node_has node_split
      (omega arith) (omega arith) (omega arith) node_children refl refl leaf_has leaf_split refl

-- Pages of two databases have one file.
shared_file :
    idx_keys.filename (record { index = 255; db = 1; page = 7 })
    ≡ idx_keys.filename (record { index = 255; db = 2; page = 8 })
unfolding filename
shared_file = refl

file_of_255 :
    filename (record { index = 255; db = 1; page = 7 })
    ≡ b'f' ∷ b'f' ∷ b'.' ∷ b'i' ∷ b'd' ∷ b'x' ∷ []
unfolding filename hexadecimal
file_of_255 = refl
