-- ===== src/Btree/Descent.antt =====
-- The descent of a search through the pages of a tree.
use kobzar.Base.{
  ℕ, zero, suc, ◌+◌, ◌-◌, ◌≤◌, ◌<◌, ◌%◌, ◌^◌, ◌≡◌, ◌≢◌, refl, sym, ◌∙◌, inl, inr, List, Option,
  none, some, Bool, true, false, Bool-cases, Option-cases, length, length-take, get_elem?, arith,
  ltb,
}
use mathlib.Core.Path.{subst}
use kobzar.Base.Results.{Result, ok, err, >>=-eq-ok, >>=-eq-err, Result-cases}
use kobzar.Base.Search.{BinarySearchBy, Found, found, absent}
use kobzar.Btree.{
  IdxPage, IdxKey, Key, node_from_raw, is_leaf, into_inner, SearchOutcome, SearchCfg, merge,
  key_len,
}
use kobzar.Btree.Search.{
  SearchError, out_of_fuel, IdxPages, keys, padded, walk_left, walk_right, search_page,
  search_inline, search_loaded, visit, descend, widen, child_cfg, after_child, Searched,
  btree_search,
}
use kobzar.Btree.Loops.{
  walk_right_total, walk_right-lt, walk_left_total, walk_left-inhabited, keys_total, padded_total,
}

module _ (b : BinarySearchBy Key) (pages : IdxPages) where
  open b use {search_by}
  open pages use {Store, IoError, page_of, load_idx, load_idx_ok}

  widen_total :
      (cfg : SearchCfg) (ks : List Key) (value : Key) (result : Found)
      → widen b pages cfg ks value result ≢ err out_of_fuel
  widen_total cfg ks value (absent i) e = cc
  widen_total cfg ks value (found i) e = elim (>>=-eq-err (walk_left ks value i) _ e) [
    | inl stuck ↦ walk_left_total IoError ks value i stuck
    | inr (start, left, e') ↦ elim (>>=-eq-err (walk_right (length ks) ks value i) _ e') [
      | inl stuck ↦
          walk_right_total IoError (length ks) ks value i
            (walk_left-inhabited IoError ks value i start left) (omega arith) stuck
      | inr (end, right, e'') ↦ cc
    ]
  ]

  -- A search of one page ends.
  search_page_total :
      (cfg : SearchCfg) (value : Key) (page : IdxPage)
      → search_page b pages cfg value page ≢ err out_of_fuel
  unfolding search_page
  search_page_total cfg value page e = elim (>>=-eq-err (keys cfg page) _ e) [
    | inl stuck ↦ keys_total IoError cfg page stuck
    | inr (ks, _, e') ↦ widen_total cfg ks value _ e'
  ]

  widen-lt :
      (cfg : SearchCfg) (ks : List Key) (value : Key) (result : Found) (o : SearchOutcome)
      → widen b pages cfg ks value result ≡ ok (some o)
      → o.end_key_id < length ks
  widen-lt cfg ks value (absent i) o e = cc
  widen-lt cfg ks value (found i) o e =
      let (start, _, e') = >>=-eq-ok (walk_left ks value i) _ e in
      let (end, right, e'') = >>=-eq-ok (walk_right (length ks) ks value i) _ e' in
      ground (arith, walk_right-lt IoError (length ks) ks value i end right)

  -- The range that a search finds in a node ends before its last key.
  search_page-lt :
      (cfg : SearchCfg) (value : Key) (page : IdxPage) (o : SearchOutcome)
      → cfg.is_root_leaf ≡ false
      → search_page b pages cfg value page ≡ ok (some o)
      → o.end_key_id < (node_from_raw page).keys_count
  unfolding search_page keys
  search_page-lt cfg value page o leaf e =
      let (ks, _, e') = >>=-eq-ok (keys cfg page) _ e in
      ground (
        arith,
        widen-lt cfg ks value _ o e',
        length-take (node_from_raw page).keys_count (node_from_raw page).keys,
      )

  -- The pages below a key: each child that a node has a key for is the root of a lower tree.
  abbrev pub IsTree : ℕ → IdxKey → Bool → Type 0
  IsTree zero root is_root_leaf = is_root_leaf ≡ true
  IsTree (suc height) root is_root_leaf =
      is_root_leaf ≡ false
      → (i child : ℕ) → i < (node_from_raw (page_of root)).keys_count
      → get_elem? (node_from_raw (page_of root)).children i ≡ some child
      → IsTree height (record root { page = into_inner child }) (is_leaf child)

  after_child_total :
      (next : Store → SearchOutcome → Searched b pages) (child : Searched b pages)
      → child.1 ≢ err out_of_fuel
      → ((st : Store) (o : SearchOutcome) → (next st o).1 ≢ err out_of_fuel)
      → (after_child b pages next child).1 ≢ err out_of_fuel
  after_child_total next (st, err e) ended later = ended
  after_child_total next (st, ok none) ended later = λ e. cc
  after_child_total next (st, ok (some o)) ended later = later st o

  visit_total :
      (go : Store → SearchCfg → Searched b pages) (cfg : SearchCfg) (children : List ℕ)
      (bound n cur : ℕ) (st : Store) (o : SearchOutcome) (results : ℕ)
      → ((st : Store) (i child results : ℕ)
          → i < bound
          → get_elem? children i ≡ some child
          → (go st (child_cfg b pages cfg child results)).1 ≢ err out_of_fuel)
      → (0 < n → cur + n ≤ bound)
      → (visit b pages go cfg children n cur st o results).1 ≢ err out_of_fuel
  unfolding visit
  visit_total go cfg children bound zero cur st o results ends h = λ e. cc
  visit_total go cfg children bound (suc n) cur st o results ends h =
      elim (Bool-cases (ltb results cfg.limit)) [
        | inr full ↦ rw full (λ e. cc)
        | inl more ↦ elim (Option-cases (get_elem? children cur)) [
          | inl out ↦ rw (more, out) (λ e. cc)
          | inr (child, at) ↦
              let later = h (omega arith) in
              rw (more, at)
                (after_child_total
                  (λ st' o'.
                    visit b pages go cfg children n (cur + 1) st' (merge o o')
                      ((results + key_len o') % 2 ^ 64))
                  (go st (child_cfg b pages cfg child results))
                  (ends st cur child results (omega arith) at)
                  (λ st' o'.
                    visit_total go cfg children bound n (cur + 1) st' (merge o o')
                      ((results + key_len o') % 2 ^ 64) ends (λ _. omega arith)))
        ]
      ]

  -- what a node needs: its children are searched in finitely many steps
  abbrev ChildrenEnd : (Store → SearchCfg → Searched b pages) → SearchCfg → IdxPage → Type 0
  ChildrenEnd go cfg page =
      cfg.is_root_leaf ≡ false
      → (st : Store) (i child results : ℕ) → i < (node_from_raw page).keys_count
      → get_elem? (node_from_raw page).children i ≡ some child
      → (go st (child_cfg b pages cfg child results)).1 ≢ err out_of_fuel

  descend_total :
      (go : Store → SearchCfg → Searched b pages) (cfg : SearchCfg) (value : Key) (page : IdxPage)
      (st : Store)
      → ChildrenEnd go cfg page
      → (result : Result (SearchError IoError) (Option SearchOutcome))
      → search_page b pages cfg value page ≡ result
      → (descend b pages go cfg page st result).1 ≢ err out_of_fuel
  unfolding visit
  descend_total go cfg value page st ends (err e) searched =
      λ same. search_page_total cfg value page (searched ∙ same)
  descend_total go cfg value page st ends (ok none) searched = λ same. cc
  descend_total go cfg value page st ends (ok (some o)) searched =
      elim (Bool-cases cfg.is_root_leaf) [
        | inl leaf ↦ rw leaf (λ same. cc)
        | inr node ↦
            let below = search_page-lt cfg value page o node searched in
            rw node (
              visit_total go cfg (node_from_raw page).children (node_from_raw page).keys_count
                (o.end_key_id - o.start_key_id) o.start_key_id st o (key_len o) (ends node)
                (λ positive. omega arith))
      ]

  search_loaded_total :
      (go : Store → SearchCfg → Searched b pages) (cfg : SearchCfg) (value : Key)
      → ChildrenEnd go cfg (page_of cfg.root)
      → (loaded : Store × Result IoError IdxPage)
      → (is_page : (page : IdxPage) → loaded.1 ≡ ok page → page ≡ page_of cfg.root)
      → (search_loaded b pages go cfg value loaded).1 ≢ err out_of_fuel
  search_loaded_total go cfg value ends (st, err e) is_page = λ same. cc
  search_loaded_total go cfg value ends (st, ok p) is_page =
      descend_total go cfg value p st (subst (ChildrenEnd go cfg) (sym (is_page p refl)) ends) _
        refl

  round_total :
      (fuel : ℕ) (st : Store) (cfg : SearchCfg)
      → ChildrenEnd (search_inline b pages fuel) cfg (page_of cfg.root)
      → (search_inline b pages (suc fuel) st cfg).1 ≢ err out_of_fuel
  unfolding search_inline
  round_total fuel st cfg ends = elim (Result-cases (padded {E = IoError} cfg.value)) [
    | inl (e, failed) ↦
        rw (failed, search_inline) (λ same. padded_total IoError cfg.value (failed ∙ cc same))
    | inr (value, fits) ↦
        rw (fits, search_inline)
          (search_loaded_total (search_inline b pages fuel) cfg value ends (load_idx st cfg.root)
            (λ page. load_idx_ok st cfg.root {page = page}))
  ]

  search_inline_total :
      (height fuel : ℕ) (st : Store) (cfg : SearchCfg)
      → IsTree height cfg.root cfg.is_root_leaf
      → height < fuel
      → (search_inline b pages fuel st cfg).1 ≢ err out_of_fuel
  search_inline_total height zero st cfg tree h = absurd (omega arith)
  search_inline_total zero (suc fuel) st cfg tree h =
      round_total fuel st cfg (λ node. cc (tree, node))
  search_inline_total (suc height) (suc fuel) st cfg tree h =
      round_total fuel st cfg (λ node st' i child results inside at.
        search_inline_total height fuel st' (child_cfg b pages cfg child results)
          (tree node i child inside at) (omega arith))

  -- A search ends: with more fuel than the height of the tree, where every child that a node has
  -- a key for is the root of a lower tree and a tree of height 0 is a leaf, btree_search never
  -- runs out of fuel, whatever the pages hold besides.
  pub btree_search_total :
      (height fuel : ℕ) (st : Store) (cfg : SearchCfg)
      → IsTree height cfg.root cfg.is_root_leaf
      → height < fuel
      → (btree_search b pages fuel st cfg).1 ≢ err out_of_fuel
  unfolding btree_search
  btree_search_total height fuel st cfg tree h =
      ground (arith, search_inline_total height fuel st cfg tree h)
