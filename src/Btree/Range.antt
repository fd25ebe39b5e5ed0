-- ===== src/Btree/Range.antt =====
-- The range of keys that a search finds on one page.
use kobzar.Base.{
  ℕ, zero, suc, ◌+◌, ◌-◌, ◌≤◌, ◌<◌, min, ◌≡◌, refl, ap, ◌∙◌, List, [], ◌∷◌, ◌++◌, Option, none,
  some, Bool, true, false, dec_lt, length, get_elem?, ◌==◌, if◌then◌else◌, All, length-append,
  append_assoc, append-nil, arith,
}
use kobzar.Base.Elements.{get_elem?-All, get_elem?-append_right, All-take, All-drop, get_elem?-lt}
use kobzar.Base.Results.{ok}
use kobzar.Base.Search.{BinarySearchBy, Found, found, absent, IsPartitioned}
use kobzar.Wal.Names.{same_text}
use kobzar.Btree.{IdxPage, Key, SearchOutcome, SearchCfg}
use kobzar.Btree.Search.{compare_bytes, IdxPages, keys, walk_left, walk_right, search_page, widen}
use Prim.Native.Nat.{Ordering}

-- whether two keys compare as equal
abbrev is_eq : Ordering → Bool
is_eq Ordering.lt = false
is_eq Ordering.eq = true
is_eq Ordering.gt = false

pub same_text-compare : (xs ys : List ℕ) → same_text xs ys ≡ is_eq (compare_bytes xs ys)
unfolding same_text compare_bytes
same_text-compare [] [] = refl
same_text-compare [] (y ∷ ys) = refl
same_text-compare (x ∷ xs) [] = refl
same_text-compare (x ∷ xs) (y ∷ ys) = ground (arith, same_text-compare xs ys)

abbrev HasTest : List Key → Key → ℕ → Bool → Type 0
HasTest ks value i t = (x : Key) × (get_elem? ks i ≡ some x) × (same_text x value ≡ t)

-- The keys from `first` on, `count` of them, are the value, and no other key is.
record Matching (ks : List Key) (value : Key) (first count : ℕ) : Type 0 where
  pub before : (i : ℕ) → i < first → HasTest ks value i false
  pub inside : (i : ℕ) → first ≤ i → i < first + count → HasTest ks value i true
  pub behind : (i : ℕ) → first + count ≤ i → i < length ks → HasTest ks value i false

module _ (value : Key) where
  abbrev order : Key → Ordering
  order key = compare_bytes key value

  tested :
      (before rest ks : List Key) (i j : ℕ) (t : Bool) (o : Ordering)
      → All (λ key. order key ≡ o) rest
      → (behind : List Key) → ks ≡ before ++ (rest ++ behind)
      → i ≡ length before + j
      → j < length rest
      → is_eq o ≡ t
      → HasTest ks value i t
  tested before rest ks i j t o all behind split e h ot =
      let (x, at, cmp) = get_elem?-All (λ key. order key ≡ o) rest behind j all h in
      (
        x,
        rw split (get_elem?-append_right before (rest ++ behind) i j e ∙ at),
        same_text-compare x value ∙ ap is_eq cmp ∙ ot,
      )

  partitioned-Matching :
      (ks : List Key) (s : IsPartitioned order ks)
      → Matching ks value (length s.before) (length s.matches)
  partitioned-Matching ks s = record {
    before = λ i h.
        tested [] s.before ks i i false Ordering.lt s.before_less (s.matches ++ s.behind) s.split
          (omega arith) h refl;
    inside = λ i h k.
        tested s.before s.matches ks i (i - length s.before) true Ordering.eq s.matches_equal
          s.behind s.split (omega arith) (omega arith) refl;
    behind = λ i h k.
        tested (s.before ++ s.matches) s.behind ks i (i - length (s.before ++ s.matches)) false
          Ordering.gt s.behind_greater [] (s.split ∙ simp (append_assoc, append-nil))
          (omega (arith, length-append s.before s.matches))
          (omega (
            arith,
            length-append s.before s.matches,
            length-append s.matches s.behind,
            length-append s.before (s.matches ++ s.behind),
            ap length s.split,
          ))
          refl;
  }

module _ (E : Type 0) (value : Key) (ks : List Key) (first count : ℕ)
    (m : Matching ks value first count) where
  -- before the first match the loop stops at once
  walk_left-before : (i : ℕ) → i + 1 ≡ first → walk_left {E = E} ks value i ≡ ok i
  unfolding walk_left
  walk_left-before zero e = let (x, at, _) = m.before 0 (omega arith) in ground arith
  walk_left-before (suc i) e = let (x, at, test) = m.before (suc i) (omega arith) in ground arith

  walk_left-inside :
      (i : ℕ) → first ≤ i → i < first + count → walk_left {E = E} ks value i ≡ ok (first - 1)
  unfolding walk_left
  walk_left-inside zero h k = let (x, at, _) = m.inside 0 h k in ground arith
  walk_left-inside (suc i) h k =
      let (x, at, test) = m.inside (suc i) h k in
      ground (arith, walk_left-before i, walk_left-inside i)

  walk_right_lem :
      (fuel i : ℕ)
      → first ≤ i
      → i ≤ first + count
      → i < length ks
      → length ks ≤ fuel + i
      → walk_right {E = E} fuel ks value i ≡ ok (min (first + count) (length ks - 1))
  unfolding walk_right
  walk_right_lem zero i h k inside enough = absurd (omega arith)
  walk_right_lem (suc fuel) i h k inside enough = elim (dec_lt i (first + count)) [
    | yes match ↦
        let (x, at, test) = m.inside i h match in ground (arith, walk_right_lem fuel (i + 1))
    | no past ↦ let (x, at, test) = m.behind i (omega arith) inside in ground arith
  ]

-- the value stands only among the matches
found_inside :
    (value : Key) (ks : List Key) (first count : ℕ) (m : Matching ks value first count) (i : ℕ)
    {x : Key}
    → get_elem? ks i ≡ some x
    → same_text x value ≡ true
    → (first ≤ i) × (i < first + count)
found_inside value ks first count m i at test =
    let inside : i < length ks = get_elem?-lt ks i at in ground (arith, m.before i, m.behind i)

module _ (b : BinarySearchBy Key) (pages : IdxPages) where
  open b use {search_by, search_by_found, search_by_absent}

  -- the range with `first` keys before the matches, `count` matches and `total` keys
  abbrev pub range : ℕ → ℕ → ℕ → ℕ → Option SearchOutcome
  range page first count total =
      if count == 0
      then none
      else some (record {
        start_page = page;
        end_page = page;
        start_key_id = first - 1;
        end_key_id = min (first + count) (total - 1);
      })

  widen_lem :
      (cfg : SearchCfg) (ks : List Key) (value : Key) (s : IsPartitioned (order value) ks)
      (result : Found)
      → search_by ks (order value) ≡ result
      → widen b pages cfg ks value result
        ≡ ok (range cfg.root.page (length s.before) (length s.matches) (length ks))
  widen_lem cfg ks value s (found i) e =
      let m = partitioned-Matching value ks s in
      let (x, at, cmp) = search_by_found ks (order value) i s e in
      let test : same_text x value ≡ true = same_text-compare x value ∙ ap is_eq cmp in
      let (after, below) = found_inside value ks _ _ m i at test in
      ground (
        arith,
        walk_left-inside pages.IoError value ks _ _ m i after below,
        walk_right_lem pages.IoError value ks _ _ m (length ks) i,
        get_elem?-lt ks i at,
      )
  widen_lem cfg ks value s (absent i) e = elim (dec_lt 0 (length s.matches)) [
    | no none_there ↦ ground arith
    | yes some_there ↦
        let m = partitioned-Matching value ks s in
        let (_, less, greater) = search_by_absent ks (order value) i s e in
        let (x, at, test) = m.inside (length s.before) (omega arith) (omega arith) in
        elim (dec_lt (length s.before) i) [
          | yes below ↦
              let less_there =
                All-take (λ key. order value key ≡ Ordering.lt) ks i (length s.before) less below
                  at in
              cc (less_there, test, same_text-compare x value)
          | no above ↦
              let more_there =
                All-drop (λ key. order value key ≡ Ordering.gt) ks i (length s.before) greater
                  (omega arith) at in
              cc (more_there, test, same_text-compare x value)
        ]
  ]

  -- On a page whose keys are first the smaller, then the equal, then the greater ones, a search
  -- answers none if no key is equal; else the range from one key before the first match, or the
  -- first key, to one key behind the last match, or the last key.
  pub search_page-range :
      (cfg : SearchCfg) (page : IdxPage) (value : Key) (ks : List Key)
      → keys {E = pages.IoError} cfg page ≡ ok ks
      → (s : IsPartitioned (λ key. compare_bytes key value) ks)
      → search_page b pages cfg value page
        ≡ ok (range cfg.root.page (length s.before) (length s.matches) (length ks))
  unfolding search_page
  search_page-range cfg page value ks e s = rw e (widen_lem cfg ks value s _ refl)
