-- ===== src/Btree.antt =====
-- The B-tree index, kobzar/src/q_engine/storage/idx_btree.rs, with `IdxKey` and `IdxPage` of storage.rs. A
-- page is the list of its 4096 bytes; `from_raw` reads it with the layout of `repr(C)` and little-endian
-- integers.
pub mod Search
pub mod Keys
pub mod Range
pub mod Loops
pub mod Descent
pub mod Stray
mod Tests
use kobzar.Base.{
  ℕ, zero, suc, ◌+◌, ◌-◌, ◌*◌, ◌/◌, ◌%◌, ◌^◌, List, [], ◌∷◌, Option, none, some, Bool, true, false,
  not, ◌==◌, if◌then◌else◌, take, drop, bit_and, min, max,
}
use kobzar.Base.Bytes.{of_le}

abbrev pub index_page_size : ℕ
index_page_size = 4096

abbrev pub branch_fanout : ℕ
branch_fanout = 168

abbrev pub IdxPage : Type 0
IdxPage = List ℕ

pub record IdxKey : Type 0 where
  pub index : ℕ
  pub db : ℕ
  pub page : ℕ

-- The 16 bytes of the union, as its field `inline`.
abbrev pub Key : Type 0
Key = List ℕ

pub record Node : Type 0 where
  pub keys : List Key
  pub parent : ℕ
  pub keys_count : ℕ
  pub children : List ℕ

pub record Leaf : Type 0 where
  pub key_count : ℕ
  pub parent : ℕ
  pub keys : List Key
  pub pidx : List ℕ

-- `n` items of `width` bytes each
abbrev pub items : ℕ → ℕ → List ℕ → List (List ℕ)
items width zero bytes = []
items width (suc n) bytes = take width bytes ∷ items width n (drop width bytes)

abbrev pub u64s : ℕ → List ℕ → List ℕ
u64s zero bytes = []
u64s (suc n) bytes = of_le (take 8 bytes) ∷ u64s n (drop 8 bytes)

abbrev pub u64_at : ℕ → List ℕ → ℕ
u64_at offset bytes = of_le (take 8 (drop offset bytes))

-- `Node::from_raw`
unfoldable pub node_from_raw : IdxPage → Node
node_from_raw page = record {
  keys = items 16 branch_fanout page;
  parent = u64_at 2688 page;
  keys_count = u64_at 2696 page;
  children = u64s branch_fanout (drop 2704 page);
}

-- `Leaf::from_raw`; the keys are aligned to 64 bytes.
unfoldable pub leaf_from_raw : IdxPage → Leaf
leaf_from_raw page = record {
  key_count = u64_at 0 page;
  parent = u64_at 8 page;
  keys = items 16 branch_fanout (drop 64 page);
  pidx = u64s branch_fanout (drop 2752 page);
}

abbrev pub none_offset : ℕ
none_offset = 2 ^ 64 - 1

-- `OptionFileOffset`
unfoldable pub is_some : ℕ → Bool
is_some offset = not (offset == none_offset)

unfoldable pub get_offset : ℕ → Option ℕ
get_offset offset = if is_some offset then some offset else none

abbrev pub leaf_flag : ℕ
leaf_flag = 2 ^ 63

-- `ChildFilePageOffset`
unfoldable pub is_leaf : ℕ → Bool
is_leaf child = not (bit_and child leaf_flag == 0)

unfoldable pub into_inner : ℕ → ℕ
into_inner child = bit_and child (2 ^ 64 - 1 - leaf_flag)

pub record SearchOutcome : Type 0 where
  pub start_page : ℕ
  pub end_page : ℕ
  pub start_key_id : ℕ
  pub end_key_id : ℕ

unfoldable pub merge : SearchOutcome → SearchOutcome → SearchOutcome
merge o other = record {
  start_page = min o.start_page other.start_page;
  end_page = max o.end_page other.end_page;
  start_key_id = min o.start_key_id other.start_key_id;
  end_key_id = max o.end_key_id other.end_key_id;
}

-- the length of the range, which is empty where it ends before its start
unfoldable pub key_len : SearchOutcome → ℕ
key_len o = o.end_key_id - o.start_key_id

pub record SearchCfg : Type 0 where
  pub value : List ℕ
  pub root : IdxKey
  pub is_root_leaf : Bool
  pub is_blobs : Bool
  pub limit : ℕ
