-- ===== src/Dt/Derived.antt =====
-- The other constants that `ty_const!` declares in kobzar/src/q_engine/dt.rs, from `1 | DERIVED_BIT` on.
use kobzar.Base.{List, [], ◌∷◌}
use kobzar.Dt.{plain, optional, derived}
use kobzar.Wal.Entry.{TypeId}

abbrev pub vec_u8 : TypeId
vec_u8 = plain (derived 0)

abbrev pub vec_u8_opt : TypeId
vec_u8_opt = optional (derived 0)

abbrev pub vec_u64 : TypeId
vec_u64 = plain (derived 1)

abbrev pub vec_u64_opt : TypeId
vec_u64_opt = optional (derived 1)

abbrev pub vec_u128 : TypeId
vec_u128 = plain (derived 2)

abbrev pub vec_u128_opt : TypeId
vec_u128_opt = optional (derived 2)

abbrev pub vec : TypeId
vec = plain (derived 3)

abbrev pub vec_opt : TypeId
vec_opt = optional (derived 3)

abbrev pub vec_str : TypeId
vec_str = plain (derived 4)

abbrev pub vec_str_opt : TypeId
vec_str_opt = optional (derived 4)

abbrev pub vec_uuid : TypeId
vec_uuid = plain (derived 5)

abbrev pub vec_uuid_opt : TypeId
vec_uuid_opt = optional (derived 5)

abbrev pub fk_u32 : TypeId
fk_u32 = plain (derived 6)

abbrev pub fk_u32_opt : TypeId
fk_u32_opt = optional (derived 6)

abbrev pub fk_u64 : TypeId
fk_u64 = plain (derived 7)

abbrev pub fk_u64_opt : TypeId
fk_u64_opt = optional (derived 7)

abbrev pub fk_u128 : TypeId
fk_u128 = plain (derived 8)

abbrev pub fk_u128_opt : TypeId
fk_u128_opt = optional (derived 8)

abbrev pub fk_str : TypeId
fk_str = plain (derived 9)

abbrev pub fk_str_opt : TypeId
fk_str_opt = optional (derived 9)

abbrev pub fk_uuid : TypeId
fk_uuid = plain (derived 10)

abbrev pub fk_uuid_opt : TypeId
fk_uuid_opt = optional (derived 10)

abbrev pub fk_date : TypeId
fk_date = plain (derived 11)

abbrev pub fk_date_opt : TypeId
fk_date_opt = optional (derived 11)

abbrev pub fk_time : TypeId
fk_time = plain (derived 12)

abbrev pub fk_time_opt : TypeId
fk_time_opt = optional (derived 12)

abbrev pub fk_datetime : TypeId
fk_datetime = plain (derived 13)

abbrev pub fk_datetime_opt : TypeId
fk_datetime_opt = optional (derived 13)

abbrev pub fk_vec_u8 : TypeId
fk_vec_u8 = plain (derived 14)

abbrev pub fk_vec_u8_opt : TypeId
fk_vec_u8_opt = optional (derived 14)

abbrev pub vec_fk_u64 : TypeId
vec_fk_u64 = plain (derived 15)

abbrev pub vec_fk_u64_opt : TypeId
vec_fk_u64_opt = optional (derived 15)

abbrev pub vec_fk_u128 : TypeId
vec_fk_u128 = plain (derived 16)

abbrev pub vec_fk_u128_opt : TypeId
vec_fk_u128_opt = optional (derived 16)

abbrev pub vec_fk_str : TypeId
vec_fk_str = plain (derived 17)

abbrev pub vec_fk_str_opt : TypeId
vec_fk_str_opt = optional (derived 17)

abbrev pub vec_fk_uuid : TypeId
vec_fk_uuid = plain (derived 18)

abbrev pub vec_fk_uuid_opt : TypeId
vec_fk_uuid_opt = optional (derived 18)

abbrev pub vec_fk_date : TypeId
vec_fk_date = plain (derived 19)

abbrev pub vec_fk_date_opt : TypeId
vec_fk_date_opt = optional (derived 19)

abbrev pub vec_fk_time : TypeId
vec_fk_time = plain (derived 20)

abbrev pub vec_fk_time_opt : TypeId
vec_fk_time_opt = optional (derived 20)

abbrev pub vec_fk_datetime : TypeId
vec_fk_datetime = plain (derived 21)

abbrev pub vec_fk_datetime_opt : TypeId
vec_fk_datetime_opt = optional (derived 21)

abbrev pub vec_fk_vec_u8 : TypeId
vec_fk_vec_u8 = plain (derived 22)

abbrev pub vec_fk_vec_u8_opt : TypeId
vec_fk_vec_u8_opt = optional (derived 22)

abbrev pub set_fk_u64 : TypeId
set_fk_u64 = plain (derived 23)

abbrev pub set_fk_u64_opt : TypeId
set_fk_u64_opt = optional (derived 23)

abbrev pub set_fk_u128 : TypeId
set_fk_u128 = plain (derived 24)

abbrev pub set_fk_u128_opt : TypeId
set_fk_u128_opt = optional (derived 24)

abbrev pub set_fk_str : TypeId
set_fk_str = plain (derived 25)

abbrev pub set_fk_str_opt : TypeId
set_fk_str_opt = optional (derived 25)

abbrev pub set_fk_uuid : TypeId
set_fk_uuid = plain (derived 26)

abbrev pub set_fk_uuid_opt : TypeId
set_fk_uuid_opt = optional (derived 26)

abbrev pub set_fk_date : TypeId
set_fk_date = plain (derived 27)

abbrev pub set_fk_date_opt : TypeId
set_fk_date_opt = optional (derived 27)

abbrev pub set_fk_time : TypeId
set_fk_time = plain (derived 28)

abbrev pub set_fk_time_opt : TypeId
set_fk_time_opt = optional (derived 28)

abbrev pub set_fk_datetime : TypeId
set_fk_datetime = plain (derived 29)

abbrev pub set_fk_datetime_opt : TypeId
set_fk_datetime_opt = optional (derived 29)

abbrev pub set_fk_vec_u8 : TypeId
set_fk_vec_u8 = plain (derived 30)

abbrev pub set_fk_vec_u8_opt : TypeId
set_fk_vec_u8_opt = optional (derived 30)

abbrev pub derived_types : List TypeId
derived_types =
    vec_u8 ∷ vec_u8_opt ∷ vec_u64 ∷ vec_u64_opt ∷ vec_u128 ∷ vec_u128_opt ∷ vec ∷ vec_opt ∷ vec_str
    ∷ vec_str_opt ∷ vec_uuid ∷ vec_uuid_opt ∷ fk_u32 ∷ fk_u32_opt ∷ fk_u64 ∷ fk_u64_opt ∷ fk_u128
    ∷ fk_u128_opt ∷ fk_str ∷ fk_str_opt ∷ fk_uuid ∷ fk_uuid_opt ∷ fk_date ∷ fk_date_opt ∷ fk_time
    ∷ fk_time_opt ∷ fk_datetime ∷ fk_datetime_opt ∷ fk_vec_u8 ∷ fk_vec_u8_opt ∷ vec_fk_u64
    ∷ vec_fk_u64_opt ∷ vec_fk_u128 ∷ vec_fk_u128_opt ∷ vec_fk_str ∷ vec_fk_str_opt ∷ vec_fk_uuid
    ∷ vec_fk_uuid_opt ∷ vec_fk_date ∷ vec_fk_date_opt ∷ vec_fk_time ∷ vec_fk_time_opt
    ∷ vec_fk_datetime ∷ vec_fk_datetime_opt ∷ vec_fk_vec_u8 ∷ vec_fk_vec_u8_opt ∷ set_fk_u64
    ∷ set_fk_u64_opt ∷ set_fk_u128 ∷ set_fk_u128_opt ∷ set_fk_str ∷ set_fk_str_opt ∷ set_fk_uuid
    ∷ set_fk_uuid_opt ∷ set_fk_date ∷ set_fk_date_opt ∷ set_fk_time ∷ set_fk_time_opt
    ∷ set_fk_datetime ∷ set_fk_datetime_opt ∷ set_fk_vec_u8 ∷ set_fk_vec_u8_opt ∷ []
