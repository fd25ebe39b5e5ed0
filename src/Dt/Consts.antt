-- ===== src/Dt/Consts.antt =====
-- The first constants that `ty_const!` declares in kobzar/src/q_engine/dt.rs: each value is one more than
-- the last, and each name has an optional variant.
use kobzar.Dt.{plain, optional}
use kobzar.Wal.Entry.{TypeId}

abbrev pub bool : TypeId
bool = plain 1

abbrev pub bool_opt : TypeId
bool_opt = optional 1

abbrev pub i8 : TypeId
i8 = plain 2

abbrev pub i8_opt : TypeId
i8_opt = optional 2

abbrev pub i16 : TypeId
i16 = plain 3

abbrev pub i16_opt : TypeId
i16_opt = optional 3

abbrev pub i32 : TypeId
i32 = plain 4

abbrev pub i32_opt : TypeId
i32_opt = optional 4

abbrev pub i64 : TypeId
i64 = plain 5

abbrev pub i64_opt : TypeId
i64_opt = optional 5

abbrev pub i128 : TypeId
i128 = plain 6

abbrev pub i128_opt : TypeId
i128_opt = optional 6

abbrev pub u8 : TypeId
u8 = plain 7

abbrev pub u8_opt : TypeId
u8_opt = optional 7

abbrev pub u16 : TypeId
u16 = plain 8

abbrev pub u16_opt : TypeId
u16_opt = optional 8

abbrev pub u32 : TypeId
u32 = plain 9

abbrev pub u32_opt : TypeId
u32_opt = optional 9

abbrev pub u64 : TypeId
u64 = plain 10

abbrev pub u64_opt : TypeId
u64_opt = optional 10

abbrev pub u128 : TypeId
u128 = plain 11

abbrev pub u128_opt : TypeId
u128_opt = optional 11

abbrev pub f32 : TypeId
f32 = plain 12

abbrev pub f32_opt : TypeId
f32_opt = optional 12

abbrev pub f64 : TypeId
f64 = plain 13

abbrev pub f64_opt : TypeId
f64_opt = optional 13

abbrev pub str : TypeId
str = plain 14

abbrev pub str_opt : TypeId
str_opt = optional 14

abbrev pub date : TypeId
date = plain 15

abbrev pub date_opt : TypeId
date_opt = optional 15

abbrev pub time : TypeId
time = plain 16

abbrev pub time_opt : TypeId
time_opt = optional 16

abbrev pub datetime : TypeId
datetime = plain 17

abbrev pub datetime_opt : TypeId
datetime_opt = optional 17

abbrev pub uuid : TypeId
uuid = plain 18

abbrev pub uuid_opt : TypeId
uuid_opt = optional 18

abbrev pub set : TypeId
set = plain 19

abbrev pub set_opt : TypeId
set_opt = optional 19

abbrev pub map_ : TypeId
map_ = plain 20

abbrev pub map_opt : TypeId
map_opt = optional 20

abbrev pub fk : TypeId
fk = plain 21

abbrev pub fk_opt : TypeId
fk_opt = optional 21
