-- ===== src/Btree/Stray.antt =====
-- The first child that a search visits: it belongs to the key before the matches.
use kobzar.Base.{
  length-append, ◌++◌, ap, lt→ltb, ℕ, zero, suc, ◌+◌, ◌-◌, ◌<◌, min, ◌≡◌, List, Option, none, some,
  true, false, length, get_elem?, arith,
}
use kobzar.Base.Results.{Result, ok, err}
use kobzar.Base.Search.{BinarySearchBy, IsPartitioned}
use kobzar.Btree.{
  IdxPage, Key, node_from_raw, leaf_from_raw, into_inner, is_leaf, SearchOutcome, SearchCfg,
  key_len,
}
use kobzar.Btree.Search.{
  compare_bytes, SearchError, panics, IdxPages, keys, padded, search_page, search_inline, visit,
  child_cfg, btree_search, descend, first_keys, Searched,
}
use kobzar.Btree.Range.{search_page-range}

module _ (b : BinarySearchBy Key) (pages : IdxPages) where
  open pages use {Store, IoError, page_of, load_idx, load_idx_ok}

  search_inline_round :
      (fuel : ℕ) (st st₁ : Store) (cfg : SearchCfg) (value : Key) (page : IdxPage)
      (result : Result (SearchError IoError) (Option SearchOutcome))
      → padded {E = IoError} cfg.value ≡ ok value
      → load_idx st cfg.root ≡ (st₁, ok page)
      → search_page b pages cfg value page ≡ result
      → search_inline b pages (suc fuel) st cfg
        ≡ descend b pages (search_inline b pages fuel) cfg page st₁ result
  unfolding search_inline
  search_inline_round fuel st st₁ cfg value page result fits loaded searched =
      rw (fits, loaded, searched, search_inline)

  -- A child without a match ends the loop.
  visit_first :
      (go : Store → SearchCfg → Searched b pages) (cfg : SearchCfg) (children : List ℕ) (n cur : ℕ)
      (st st₂ : Store) (o : SearchOutcome) (results child : ℕ)
      → 0 < n
      → results < cfg.limit
      → get_elem? children cur ≡ some child
      → go st (child_cfg b pages cfg child results) ≡ (st₂, ok none)
      → visit b pages go cfg children n cur st o results ≡ (st₂, err panics)
  unfolding visit
  visit_first go cfg children zero cur st st₂ o results child h k at child_none =
      absurd (omega arith)
  visit_first go cfg children (suc n) cur st st₂ o results child h k at child_none =
      rw (lt→ltb results cfg.limit k, at, child_none)

  -- A search from a node panics where a smaller key stands before the matches, the child of the
  -- last smaller key is a leaf without a match, the pages load, keys are in order, the search is
  -- inline, and the limit exceeds the number of matches by more than one.
  pub btree_search_stray :
      (fuel : ℕ) (st st₁ st₂ : Store) (cfg : SearchCfg) (value : Key) (node leaf : IdxPage)
      (node_keys leaf_keys : List Key) (child : ℕ)
      → cfg.is_blobs ≡ false
      → cfg.is_root_leaf ≡ false
      → padded {E = IoError} cfg.value ≡ ok value
      → load_idx st cfg.root ≡ (st₁, ok node)
      → first_keys {E = IoError} (node_from_raw node).keys_count (node_from_raw node).keys
        ≡ ok node_keys
      → (s : IsPartitioned (λ key. compare_bytes key value) node_keys) → 0 < length s.before
      → 0 < length s.matches
      → length s.matches + 1 < cfg.limit
      → get_elem? (node_from_raw node).children (length s.before - 1) ≡ some child
      → is_leaf child ≡ true
      → load_idx st₁ (record cfg.root { page = into_inner child }) ≡ (st₂, ok leaf)
      → first_keys {E = IoError} (leaf_from_raw leaf).key_count (leaf_from_raw leaf).keys
        ≡ ok leaf_keys
      → (t : IsPartitioned (λ key. compare_bytes key value) leaf_keys) → length t.matches ≡ 0
      → btree_search b pages (suc (suc fuel)) st cfg ≡ (st₂, err panics)
  unfolding btree_search keys key_len visit
  btree_search_stray fuel st st₁ st₂ cfg value node leaf node_keys leaf_keys child inline root fits
        loaded node_has s before matches limit at child_leaf child_loaded leaf_has t stray =
      let outcome : SearchOutcome = record {
        start_page = cfg.root.page;
        end_page = cfg.root.page;
        start_key_id = length s.before - 1;
        end_key_id = min (length s.before + length s.matches) (length node_keys - 1);
      } in
      let found_range = search_page-range b pages cfg node value node_keys (rw root node_has) s in
      let size = ap length s.split in
      let top : search_page b pages cfg value node ≡ ok (some outcome) =
        ground (arith, found_range) in
      let below = child_cfg b pages cfg child (key_len outcome) in
      let none_below : search_page b pages below value leaf ≡ ok none =
        ground (
          arith,
          search_page-range b pages below leaf value leaf_keys (rw child_leaf leaf_has) t,
        ) in
      let go_child : search_inline b pages (suc fuel) st₁ below ≡ (st₂, ok none) =
        search_inline_round fuel st₁ st₂ below value leaf (ok none) fits child_loaded none_below in
      let first =
        visit_first (search_inline b pages (suc fuel)) cfg (node_from_raw node).children
          (outcome.end_key_id - outcome.start_key_id) outcome.start_key_id st₁ st₂ outcome
          (key_len outcome) child
          (omega (
            arith,
            size,
            length-append s.before (s.matches ++ s.behind),
            length-append s.matches s.behind,
          ))
          (omega (
            arith,
            size,
            length-append s.before (s.matches ++ s.behind),
            length-append s.matches s.behind,
          ))
          at go_child in
      let round =
        search_inline_round (suc fuel) st st₁ cfg value node (ok (some outcome)) fits loaded top in
      ground (arith, round, first)
