-- ===== src/Pidx.antt =====
-- Pages of the primary index, kobzar/src/q_engine/storage/pidx.rs. A u64 or u32 is a natural number; an
-- array is a list of its length.
pub mod Visibility
pub mod Keys
pub mod Loads
mod Tests
use kobzar.Base.{ℕ, ◌-◌, ◌^◌, ◌/◌, List, replicate}

abbrev pub page_size_recs : ℕ
page_size_recs = 4096

abbrev pub page_size_bitmap : ℕ
page_size_bitmap = page_size_recs / 8

pub record PageGroupFields : Type 0 where
  pub size : ℕ
  pub offset : ℕ

pub record Page : Type 0 where
  pub group : List PageGroupFields
  pub xmin : List ℕ
  pub xmax : List ℕ
  pub next : List ℕ
  pub prev : List ℕ
  pub schema_version : List ℕ

abbrev pub invalid : ℕ
invalid = 2 ^ 64 - 1

abbrev pub invalid32 : ℕ
invalid32 = 2 ^ 32 - 1

unfoldable pub new : Page
new = record {
  group = replicate page_size_recs (record { size = invalid32; offset = invalid32 });
  xmin = replicate page_size_recs invalid;
  xmax = replicate page_size_recs invalid;
  next = replicate page_size_recs invalid;
  prev = replicate page_size_recs invalid;
  schema_version = replicate page_size_recs invalid32;
}
