-- ===== src/Cache/Tests.antt =====
-- The cache on concrete pages: keys, a directory and a search to run the theorems on.
mod Eviction
use kobzar.Base.{
  ℕ, suc, ◌+◌, ◌-◌, ◌%◌, ◌^◌, ◌<◌, ◌≤◌, ◌≡◌, ◌⊎◌, refl, ap, arith, List, [], ◌∷◌, ◌++◌, Option,
  none, some, Bool, true, false, ℕ_discrete, dec_lt, length, get_elem?, take, drop, replicate, All,
  leb, if◌then◌else◌,
}
use kobzar.Base.Maps
use kobzar.Base.Results.{Result, ok, err}
use kobzar.Base.Search.{BinarySearch, Found, found, absent, IsSorted}
use kobzar.Cache.Ring.{
  RingInline, CacheMeta, new, push, rotate_left, rotate_to_normalize, eviction_score,
}
use kobzar.Cache.Ring
use kobzar.Cache.Ring.Laws.{
  window, new-IsValid, push-IsValid, window-push, window-rotate_to_normalize, window-push_all,
}
use kobzar.Cache.Ring.Score.{older-lower_score}
use kobzar.Cache.Store.{
  KeyExt, Files, FetchError, io, PageStore, open_store, add_page, load_from_disk, fetch,
  item_page_mut,
}
use kobzar.Cache.Store.Laws.{IsValid, open_store-IsValid, add_page-IsValid}
use kobzar.Cache.Store.Fetch.{IsFetched, fetch_cases}
use kobzar.Cache.Store.Lend.{item_page_mut_cases}
use kobzar.Cache.Evict.{evict}
use mathlib.Core.List.{foldl}
use mathlib.Core.Option

-- eight items to a page
abbrev numbered : KeyExt
numbered = record {
  Key = ℕ;
  PageKey = ℕ;
  page_bound = λ item. item - item % 8;
  filename = λ page. page ∷ [];
  same = ℕ_discrete;
}

-- a directory with at most one file
abbrev open_one : Option (List ℕ) → Bool → Result (Unit {0}) (Option (List ℕ))
open_one (some bytes) create = ok (some bytes)
open_one none true = ok (some [])
open_one none false = err tt

abbrev read_one : Option (List ℕ) → ℕ → Result (Unit {0}) (List ℕ)
read_one none n = err tt
read_one (some bytes) n = if leb n (length bytes) then ok (take n bytes) else err tt

pub open_one-ok :
    (s : Option (List ℕ)) (create : Bool) {t : Option (List ℕ)}
    → open_one s create ≡ ok t
    → t ≡ some (Option.get_or s [])
open_one-ok (some bytes) create e = cc (e)
open_one-ok none true e = cc (e)
open_one-ok none false e = cc (e)

pub read_one-ok :
    (s : Option (List ℕ)) (n : ℕ) {bytes : List ℕ}
    → read_one s n ≡ ok bytes
    → (all : List ℕ) × (s ≡ some all) × (n ≤ length all) × (bytes ≡ take n all)
read_one-ok none n e = cc (e)
read_one-ok (some all) n e = (all, refl, ground arith, ground arith)

abbrev pub one_file : Files
one_file = record {
  Dir = Option (List ℕ);
  IoError = Unit;
  contents = λ s name. s;
  open_file = λ s name create. open_one s create;
  read_exact = λ s name n. read_one s n;
  open_file_ok = λ s name create e. open_one-ok s create e;
  read_exact_ok = λ s name n e. read_one-ok s n e;
}

-- a linear search
next_index : Found → Found
next_index (found i) = found (suc i)
next_index (absent i) = absent (suc i)

choose : (x key : ℕ) → Dec (x ≡ key) → Dec (key < x) → Found → Found
unfolding next_index
choose x key (yes _) _ rest = found 0
choose x key (no _) (yes _) rest = absent 0
choose x key (no _) (no _) rest = next_index rest

linear : List ℕ → ℕ → Found
unfolding choose
linear [] key = absent 0
linear (x ∷ xs) key = choose x key (ℕ_discrete x key) (dec_lt key x) (linear xs key)

-- what `BinarySearch` asks of a result
abbrev IsEnd : List ℕ → ℕ → Found → Type 0
IsEnd xs key (found i) = get_elem? xs i ≡ some key
IsEnd xs key (absent i) =
    (i ≤ length xs) × All (λ x. x < key) (take i xs) × All (λ x. key < x) (drop i xs)

All-above : (xs : List ℕ) (key x : ℕ) → key < x → All (λ y. x ≤ y) xs → All (λ y. key < y) xs
All-above [] key x lt _ = tt
All-above (y ∷ ys) key x lt (h, hs) = (omega arith, All-above ys key x lt hs)

choose-IsEnd :
    (x key : ℕ) (xs : List ℕ) (same : Dec (x ≡ key)) (before : Dec (key < x)) (rest : Found)
    → All (λ y. x ≤ y) xs
    → IsEnd xs key rest
    → IsEnd (x ∷ xs) key (choose x key same before rest)
unfolding choose
choose-IsEnd x key xs (yes p) before rest h e = ap some p
choose-IsEnd x key xs (no n) (yes lt) rest h e = (omega arith, tt, (lt, All-above xs key x lt h))
choose-IsEnd x key xs (no n) (no ge) (found i) h e = e
choose-IsEnd x key xs (no n) (no ge) (absent i) h (le, below, above) =
    (omega arith, (omega arith, below), above)

linear-IsEnd : (xs : List ℕ) (key : ℕ) → IsSorted xs → IsEnd xs key (linear xs key)
unfolding linear
linear-IsEnd [] key _ = (omega arith, tt, tt)
linear-IsEnd (x ∷ xs) key (h, hs) =
    choose-IsEnd x key xs (ℕ_discrete x key) (dec_lt key x) (linear xs key) h
      (linear-IsEnd xs key hs)

abbrev linear_search : BinarySearch
linear_search = record {
  search = linear;
  search_found = λ xs key i sorted e. rw e at (linear-IsEnd xs key sorted);
  search_absent = λ xs key i sorted e. rw e at (linear-IsEnd xs key sorted);
}

abbrev accessed : RingInline
accessed = push (new 3) 5

accessed-IsValid : Ring.Laws.IsValid accessed
accessed-IsValid = push-IsValid 5 (new-IsValid 3)

window-push_example : window (push accessed 8) ≡ drop 1 (window accessed) ++ (8 ∷ [])
window-push_example = window-push accessed 8 accessed-IsValid

-- an odd start, at which the order is lost
window-rotate_to_normalize_example :
    window (rotate_to_normalize accessed) ≡ rotate_left 2 (window accessed)
unfolding push new
window-rotate_to_normalize_example = window-rotate_to_normalize accessed accessed-IsValid

window-push_all_example :
    window (foldl push (new 3) (5 ∷ 8 ∷ [])) ≡ drop 2 (replicate 4 3 ++ (5 ∷ 8 ∷ []))
window-push_all_example = window-push_all 3 (5 ∷ 8 ∷ [])

abbrev accessed_at : ℕ → ℕ → CacheMeta
accessed_at idx a = record { idx = idx; dirty = false; last_accessed = new a }

older-lower_score_example :
    (eviction_score (accessed_at 0 5) 9).0 < (eviction_score (accessed_at 1 7) 9).0
older-lower_score_example =
    older-lower_score (accessed_at 0 5) (accessed_at 1 7) 9 5 7 refl refl (omega arith)
      (omega arith) (omega arith) (omega arith)

abbrev empty_store : PageStore numbered (List ℕ)
empty_store = open_store numbered (List ℕ) 2

empty_store_counts : empty_store.last_gen + 1 < 2 ^ 64
unfolding open_store
empty_store_counts = omega arith

empty_store_misses : Maps.get ℕ_discrete 8 empty_store.page_map ≡ none
unfolding open_store Maps.get
empty_store_misses = refl

abbrev run_lend : PageStore numbered (List ℕ) × Option (List ℕ) × Result (FetchError (Unit {0})) ℕ
run_lend =
    item_page_mut numbered (List ℕ) one_file 2 (λ bytes. bytes) empty_store
      (some (1 ∷ 2 ∷ 3 ∷ 4 ∷ [])) 9 false

item_page_mut_cases_example :
    ((meta : CacheMeta) × (run_lend.2 ≡ ok meta.idx)
      × (meta.dirty ≡ true)
      × (meta.idx < length run_lend.0.pages)
      × IsFetched numbered (List ℕ) 8 meta empty_store run_lend.0)
    ⊎ ((x : Unit {0}) × (run_lend.2 ≡ err (io x)) × (run_lend.0 ≡ empty_store))
item_page_mut_cases_example =
    item_page_mut_cases numbered (List ℕ) one_file 2 (λ bytes. bytes) empty_store
      (some (1 ∷ 2 ∷ 3 ∷ 4 ∷ [])) 9 false (open_store-IsValid numbered (List ℕ) 2)
      empty_store_counts

abbrev two_pages : PageStore numbered (List ℕ)
two_pages = record {
  last_gen = 9;
  pages = (1 ∷ []) ∷ (2 ∷ []) ∷ [];
  vacant_pages = [];
  page_map = (8, accessed_at 0 5) ∷ (16, accessed_at 1 7) ∷ [];
}
