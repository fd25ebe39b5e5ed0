-- ===== src/Btree/Keys.antt =====
-- The key of an index page as a key of the page cache, kobzar/src/q_engine/storage.rs.
use kobzar.Base.{ℕ, zero, suc, ◌+◌, ◌-◌, ◌/◌, ◌%◌, List, [], ◌∷◌, ◌++◌, ltb, if◌then◌else◌}
use kobzar.Btree.{IdxKey}
use kobzar.Cache.Store.{KeyExt}
use native.Mathlib.Decide.{ℕ_discrete}

abbrev pub hex_digit : ℕ → ℕ
hex_digit d = if ltb d 10 then b'0' + d else b'a' + (d - 10)

-- The hexadecimal digits of a number below 16 ^ (fuel + 1), most significant first.
unfoldable pub hexadecimal : ℕ → ℕ → List ℕ
hexadecimal zero n = hex_digit (n % 16) ∷ []
hexadecimal (suc fuel) n =
    let more = hexadecimal fuel (n / 16) ++ (hex_digit (n % 16) ∷ []) in
    if ltb n 16 then hex_digit n ∷ [] else more

-- `{:x}.idx`; a u64 has 16 digits at most.
unfoldable pub filename : IdxKey → List ℕ
filename key = hexadecimal 15 key.index ++ (b'.' ∷ b'i' ∷ b'd' ∷ b'x' ∷ [])

unfoldable pub page_bound : IdxKey → IdxKey
page_bound key = key

pub IdxKey-discrete : Discrete IdxKey
IdxKey-discrete = hlevel (ℕ_discrete)

-- The keys of the cache of index pages.
abbrev pub idx_keys : KeyExt
idx_keys = record {
  Key = IdxKey;
  PageKey = IdxKey;
  page_bound = page_bound;
  filename = filename;
  same = IdxKey-discrete;
}
