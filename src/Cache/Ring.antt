-- ===== src/Cache/Ring.antt =====
-- `RingInline` and `CacheMeta` of kobzar/src/q_engine/storage/idx_common.rs: when a page was last
-- accessed. An array of four u64s is a list of length 4; u64 arithmetic wraps, as in a release build.
pub mod Laws
pub mod Score
use kobzar.Base.{
  ℕ, ◌+◌, ◌-◌, ◌/◌, ◌%◌, ◌^◌, List, [], ◌∷◌, ◌++◌, map, Bool, get_or, set, take, drop, replicate,
}

abbrev pub last_accessed_gens : ℕ
last_accessed_gens = 4

pub record RingInline : Type 0 where
  pub last_accessed : List ℕ
  pub start : ℕ

unfoldable pub new : ℕ → RingInline
new x = record { last_accessed = replicate last_accessed_gens x; start = 0 }

unfoldable pub push : RingInline → ℕ → RingInline
push r generation = record {
  last_accessed = set r.last_accessed r.start generation;
  start = (r.start + 1) % last_accessed_gens;
}

unfoldable pub nth : RingInline → ℕ → ℕ
nth r n = get_or r.last_accessed ((r.start + n) % last_accessed_gens) 0

unfoldable pub current : RingInline → ℕ
unfolding nth
current r = nth r 0

-- `<[T]>::rotate_left` of the standard library
abbrev pub rotate_left : ℕ → List ℕ → List ℕ
rotate_left k arr = drop k arr ++ take k arr

unfoldable pub rotate_to_normalize : RingInline → RingInline
rotate_to_normalize r = record {
  last_accessed = rotate_left (last_accessed_gens - r.start) r.last_accessed;
  start = 0;
}

pub record CacheMeta : Type 0 where
  pub idx : ℕ
  pub dirty : Bool
  pub last_accessed : RingInline

unfoldable pub touch : CacheMeta → ℕ → CacheMeta
touch meta generation = record meta { last_accessed = push meta.last_accessed generation }

-- `*i -= current_gen`
abbrev pub age : ℕ → ℕ → ℕ
age current_gen a = (a + 2 ^ 64 - current_gen) % 2 ^ 64

-- `score += arr[i] >> i` for the rest of the array from index `i` on
unfoldable pub score_from : ℕ → ℕ → List ℕ → ℕ
score_from i score [] = score
score_from i score (a ∷ arr) = score_from (i + 1) ((score + a / 2 ^ i) % 2 ^ 64) arr

-- The score, and the page's metadata with its ring rotated.
unfoldable pub eviction_score : CacheMeta → ℕ → ℕ × CacheMeta
unfolding rotate_to_normalize score_from
eviction_score meta current_gen =
    let ring = rotate_to_normalize meta.last_accessed in
    (
      score_from 0 0 (map (age current_gen) ring.last_accessed),
      record meta { last_accessed = ring },
    )
