-- ===== src/Dt/Repr.antt =====
-- `InnerTypeRepr::try_from` of kobzar/src/q_engine/dt.rs.
use kobzar.Base.{ℕ, List, [], ◌∷◌, Bool, false, if◌then◌else◌, ◌==◌, ◌||◌}
use kobzar.Base.Results.{Result, ok, err}
use kobzar.Dt.{is_build_in}
use kobzar.Dt.Consts.{
  bool, bool_opt, i8, i8_opt, i16, i16_opt, i32, i32_opt, i64, i64_opt, i128, i128_opt, u8, u8_opt,
  u16, u16_opt, u32, u32_opt, u64, u64_opt, u128, u128_opt, f32, f32_opt, f64, f64_opt, str,
  str_opt, uuid, uuid_opt, set, set_opt, map_, map_opt,
}
use kobzar.Dt.Derived.{
  vec, vec_opt, fk_u32, fk_u32_opt, fk_u64, fk_u64_opt, fk_u128, fk_u128_opt, fk_str, fk_str_opt,
  fk_uuid, fk_uuid_opt, fk_vec_u8, fk_vec_u8_opt, vec_fk_u64, vec_fk_u64_opt, vec_fk_u128,
  vec_fk_u128_opt, vec_fk_str, vec_fk_str_opt, vec_fk_uuid, vec_fk_uuid_opt, vec_fk_date,
  vec_fk_date_opt, vec_fk_time, vec_fk_time_opt, vec_fk_datetime, vec_fk_datetime_opt,
  vec_fk_vec_u8, vec_fk_vec_u8_opt, set_fk_u64, set_fk_u64_opt, set_fk_u128, set_fk_u128_opt,
  set_fk_str, set_fk_str_opt, set_fk_uuid, set_fk_uuid_opt, set_fk_date, set_fk_date_opt,
  set_fk_time, set_fk_time_opt, set_fk_datetime, set_fk_datetime_opt, set_fk_vec_u8,
  set_fk_vec_u8_opt,
}
use kobzar.Wal.Entry.{TypeId}

-- sizes are `DataSize`, a wrapper of a u64
pub data InnerTypeRepr : Type 0 where
  normal : (bytes bits : ℕ) → InnerTypeRepr
  blob_ptr : (inline_size bits : ℕ) (eq_hash : Bool) → InnerTypeRepr

-- a pattern with alternatives
abbrev one_of : TypeId → List TypeId → Bool
one_of t [] = false
one_of t (c ∷ cs) = t == c || one_of t cs

-- the arms of the match, in order
abbrev arms : List (List TypeId × InnerTypeRepr)
arms =
    (bool ∷ [], normal 0 1)
    ∷ (bool_opt ∷ [], normal 0 2)
    ∷ (i8 ∷ u8 ∷ [], normal 1 0)
    ∷ (i8_opt ∷ u8_opt ∷ [], normal 1 1)
    ∷ (i16 ∷ u16 ∷ [], normal 2 0)
    ∷ (i16_opt ∷ u16_opt ∷ [], normal 2 1)
    ∷ (i32 ∷ u32 ∷ fk_u32 ∷ f32 ∷ [], normal 4 0)
    ∷ (i32_opt ∷ u32_opt ∷ fk_u32_opt ∷ f32_opt ∷ [], normal 4 1)
    ∷ (i64 ∷ u64 ∷ fk_u64 ∷ f64 ∷ [], normal 8 0)
    ∷ (i64_opt ∷ u64_opt ∷ fk_u64_opt ∷ f64_opt ∷ [], normal 8 1)
    ∷ (i128 ∷ u128 ∷ fk_u128 ∷ uuid ∷ fk_uuid ∷ [], normal 16 0)
    ∷ (i128_opt ∷ u128_opt ∷ fk_u128_opt ∷ uuid_opt ∷ fk_uuid_opt ∷ [], normal 16 1)
    ∷ (
      str ∷ vec ∷ set ∷ map_ ∷ fk_str ∷ fk_vec_u8 ∷ vec_fk_u64 ∷ vec_fk_u128 ∷ vec_fk_str
          ∷ vec_fk_uuid ∷ vec_fk_date ∷ vec_fk_time ∷ vec_fk_datetime ∷ vec_fk_vec_u8 ∷ set_fk_u64
          ∷ set_fk_u128 ∷ set_fk_str ∷ set_fk_uuid ∷ set_fk_date ∷ set_fk_datetime ∷ set_fk_time
          ∷ set_fk_vec_u8 ∷ [],
      blob_ptr 0 0 false,
    )
    ∷ (
      str_opt ∷ vec_opt ∷ set_opt ∷ map_opt ∷ fk_str_opt ∷ fk_vec_u8_opt ∷ vec_fk_u64_opt
          ∷ vec_fk_u128_opt ∷ vec_fk_str_opt ∷ vec_fk_uuid_opt ∷ vec_fk_date_opt ∷ vec_fk_time_opt
          ∷ vec_fk_datetime_opt ∷ vec_fk_vec_u8_opt ∷ set_fk_u64_opt ∷ set_fk_u128_opt
          ∷ set_fk_str_opt ∷ set_fk_uuid_opt ∷ set_fk_date_opt ∷ set_fk_datetime_opt
          ∷ set_fk_time_opt ∷ set_fk_vec_u8_opt ∷ [],
      blob_ptr 0 1 false,
    )
    ∷ []

unfoldable pub match_arm : TypeId → List (List TypeId × InnerTypeRepr) → Result TypeId InnerTypeRepr
match_arm t [] = err t
match_arm t ((pattern_ids, repr) ∷ rest) =
    let next = match_arm t rest in if one_of t pattern_ids then ok repr else next

unfoldable pub try_from : TypeId → Result TypeId InnerTypeRepr
try_from t = if is_build_in t then match_arm t arms else err t
