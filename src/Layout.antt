-- ===== src/Layout.antt =====
-- `LayoutCalc` of kobzar/src/q_engine/storage/layout.rs. `DataSize` is a wrapper of a u64; sums wrap as in
-- a release build.
pub mod Laws
mod Tests
use kobzar.Base.{ℕ, ◌+◌, ◌/◌, ◌%◌, ◌^◌, max, List}
use mathlib.Core.List.{foldl}

pub record FieldLayout : Type 0 where
  pub data_size : ℕ
  pub bits : ℕ

pub record LayoutCalc : Type 0 where
  pub total_data_size : ℕ
  pub total_bits : ℕ

unfoldable pub new : LayoutCalc
new = record { total_data_size = 0; total_bits = 0 }

unfoldable pub required_buf_capacity : LayoutCalc → ℕ
required_buf_capacity c =
    let bitmap_size = ((c.total_bits + 7) % 2 ^ 64) / 8 in
    (c.total_data_size + bitmap_size) % 2 ^ 64

unfoldable pub union : LayoutCalc → LayoutCalc → LayoutCalc
union c other = record {
  total_data_size = max c.total_data_size other.total_data_size;
  total_bits = max c.total_bits other.total_bits;
}

-- `+=`, which `+` returns
unfoldable pub add : LayoutCalc → FieldLayout → LayoutCalc
add c layout = record {
  total_data_size = (c.total_data_size + layout.data_size) % 2 ^ 64;
  total_bits = (c.total_bits + layout.bits) % 2 ^ 64;
}
