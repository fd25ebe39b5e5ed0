-- ===== src/Dt.antt =====
-- `TypeId` and `InnerTypeRepr` of kobzar/src/q_engine/dt.rs.
pub mod Consts
pub mod Derived
pub mod Repr
mod Tests
pub mod Display
pub mod Unique
use kobzar.Base.{
  ℕ, ◌+◌, ◌-◌, ◌*◌, ◌^◌, ◌%◌, List, [], ◌∷◌, Bool, true, false, not, bit_and, bit_or, ◌==◌, ◌||◌,
}
use kobzar.Base.Bytes.{le_bytes}
use kobzar.Wal.Entry.{TypeId}

abbrev pub invalid : TypeId
invalid = 0

abbrev pub option_bit : ℕ
option_bit = 2 ^ 63

abbrev pub built_in_bit : ℕ
built_in_bit = 1 * 2 ^ 61

abbrev pub custom_bit : ℕ
custom_bit = 2 * 2 ^ 61

abbrev pub derived_bit : ℕ
derived_bit = 3 * 2 ^ 61

abbrev pub flag_mask : ℕ
flag_mask = 7 * 2 ^ 61

abbrev pub type_kind_mask : ℕ
type_kind_mask = 3 * 2 ^ 61

-- the two constants that `ty_const!` makes of a value
abbrev pub plain : ℕ → TypeId
plain value = bit_or value built_in_bit

abbrev pub optional : ℕ → TypeId
optional value = bit_or (bit_or value built_in_bit) option_bit

-- the values of the names of the second `ty_const!`
abbrev pub derived : ℕ → ℕ
derived n = bit_or 1 derived_bit + n

unfoldable pub is_build_in : TypeId → Bool
is_build_in t = bit_and t type_kind_mask == built_in_bit

unfoldable pub is_custom : TypeId → Bool
is_custom t = bit_and t type_kind_mask == custom_bit

unfoldable pub is_derived : TypeId → Bool
is_derived t = bit_and t type_kind_mask == derived_bit

unfoldable pub is_option : TypeId → Bool
is_option t = not (bit_and t option_bit == 0)

unfoldable pub discard_mask : TypeId → ℕ
discard_mask t = bit_and t (2 ^ 64 - 1 - flag_mask)

unfoldable pub advance : TypeId → TypeId
advance t = (t + 1) % 2 ^ 64

unfoldable pub to_le_bytes : TypeId → List ℕ
to_le_bytes t = le_bytes 8 t
