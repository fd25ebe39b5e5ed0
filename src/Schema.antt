-- ===== src/Schema.antt =====
-- The schema of records, kobzar/src/q_engine/storage/schema.rs: the flags of a field, and the records of the
-- schema file, which are read with the layout of `repr(C)` and little-endian integers.
pub mod Flags
pub mod Read
mod Tests
use kobzar.Base.{ℕ, ◌-◌, ◌^◌, List, Option, bit_and, bit_or, take, drop}
use kobzar.Base.Bytes.{of_le}
use kobzar.Wal.Entry.{TypeId}

-- `FieldFlags` is a wrapper of a u32.
abbrev pub FieldFlags : Type 0
FieldFlags = ℕ

abbrev pub subbyte_mask : ℕ
subbyte_mask = 7

abbrev pub hash : FieldFlags
hash = 2 ^ 3

abbrev pub blob : FieldFlags
blob = 2 ^ 4

unfoldable pub without_subbyte : FieldFlags → FieldFlags
without_subbyte f = bit_and f (2 ^ 32 - 1 - subbyte_mask)

-- `|`; `|=` stores it
unfoldable pub bitor : FieldFlags → FieldFlags → FieldFlags
bitor f rhs = bit_or f (without_subbyte rhs)

-- `&`; `&=` stores it
unfoldable pub bitand : FieldFlags → FieldFlags → FieldFlags
bitand f rhs = bit_and f (without_subbyte rhs)

-- `!`
unfoldable pub complement : FieldFlags → FieldFlags
complement f = 2 ^ 32 - 1 - without_subbyte f

pub record Field : Type 0 where
  pub type_id : ℕ
  pub name_offset : ℕ
  pub comment_offset : ℕ
  pub schema_version : ℕ
  pub name_len : ℕ
  pub inline_size : ℕ
  pub flags : FieldFlags
  pub validation : ℕ
  pub trigger_before_insert : ℕ
  pub trigger_after_insert : ℕ
  pub trigger_before_update : ℕ
  pub trigger_after_update : ℕ
  pub trigger_before_delete : ℕ
  pub trigger_after_delete : ℕ
  pub default_value_offset : ℕ

pub record RecordHeader : Type 0 where
  pub comment_offset : ℕ
  pub adt_variant_count : ℕ
  pub tablespace_id : ℕ

pub record AdtVariant : Type 0 where
  pub name_offset : ℕ
  pub first_field_offset : ℕ
  pub comment_offset : ℕ
  pub name_len : ℕ
  pub field_count : ℕ

pub record FieldCount : Type 0 where
  pub field_count : ℕ

-- The schema for the engine; texts are lists of their bytes.
pub record EngineField : Type 0 where
  pub name : List ℕ
  pub comment : Option (List ℕ)
  pub type_id : TypeId
  pub validation : Option ℕ
  pub trigger_before_insert : Option ℕ
  pub trigger_after_insert : Option ℕ
  pub trigger_before_update : Option ℕ
  pub trigger_after_update : Option ℕ
  pub trigger_before_delete : Option ℕ
  pub trigger_after_delete : Option ℕ

pub record EngineAdtVariant : Type 0 where
  pub name : List ℕ
  pub comment : Option (List ℕ)
  pub fields : List EngineField

pub data EngineSchemaKind : Type 0 where
  schemaful : List EngineField → EngineSchemaKind
  schemaless : EngineSchemaKind
  adt : List EngineAdtVariant → EngineSchemaKind

pub record EngineTypeSchema : Type 0 where
  pub name : List ℕ
  pub comment : Option (List ℕ)
  pub kind : EngineSchemaKind

-- an integer of `width` bytes at an offset
abbrev pub int_at : ℕ → ℕ → List ℕ → ℕ
int_at width offset bytes = of_le (take width (drop offset bytes))

unfoldable pub header_from_bytes : List ℕ → RecordHeader
header_from_bytes bytes = record {
  comment_offset = int_at 8 0 bytes;
  adt_variant_count = int_at 4 8 bytes;
  tablespace_id = int_at 4 12 bytes;
}

unfoldable pub variant_from_bytes : List ℕ → AdtVariant
variant_from_bytes bytes = record {
  name_offset = int_at 8 0 bytes;
  first_field_offset = int_at 8 8 bytes;
  comment_offset = int_at 8 16 bytes;
  name_len = int_at 2 24 bytes;
  field_count = int_at 2 26 bytes;
}

unfoldable pub count_from_bytes : List ℕ → FieldCount
count_from_bytes bytes = record { field_count = int_at 2 0 bytes }

unfoldable pub field_from_bytes : List ℕ → Field
field_from_bytes bytes = record {
  type_id = int_at 8 0 bytes;
  name_offset = int_at 8 8 bytes;
  comment_offset = int_at 8 16 bytes;
  schema_version = int_at 4 24 bytes;
  name_len = int_at 2 28 bytes;
  inline_size = int_at 4 32 bytes;
  flags = int_at 4 36 bytes;
  validation = int_at 4 40 bytes;
  trigger_before_insert = int_at 4 44 bytes;
  trigger_after_insert = int_at 4 48 bytes;
  trigger_before_update = int_at 4 52 bytes;
  trigger_after_update = int_at 4 56 bytes;
  trigger_before_delete = int_at 4 60 bytes;
  trigger_after_delete = int_at 4 64 bytes;
  default_value_offset = int_at 8 72 bytes;
}
