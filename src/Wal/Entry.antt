-- ===== src/Wal/Entry.antt =====
-- `WalEntry` of kobzar/src/q_engine/storage/wal.rs, the enums that it holds (query.rs, q_engine.rs),
-- and their `WalCode` implementations. Texts are lists of their bytes.
use kobzar.Base.{ℕ, Bool, List}

-- `TypeId` is a transparent wrapper of a u64.
abbrev pub TypeId : Type 0
TypeId = ℕ

pub data TableKind : Type 0 where
  schemafull schemafull_adt schemaless : TableKind
  schemafull_schemaless schemafull_adt_schemaless : TableKind

pub data TableStoreBehavior : Type 0 where
  directly_storable field_only singleton : TableStoreBehavior

pub data TriggerExecKind : Type 0 where
  before_insert before_update before_delete : TriggerExecKind
  after_insert after_update after_delete : TriggerExecKind

pub record OrderIndexFieldCfg : Type 0 where
  pub field_idx : ℕ
  pub is_ascending : Bool
  pub none_is_first : Bool

pub data WalEntry : Type 0 where
  insert : (storage rec : ℕ) (bytes : List ℕ) → WalEntry
  update : (storage old_record new_record : ℕ) (bytes : List ℕ) → WalEntry
  delete : (storage rec : ℕ) → WalEntry
  commit : WalEntry
  rollback : WalEntry
  create_table :
      (type_id : ℕ) (kind : TableKind) (store_behavior : TableStoreBehavior) (name : List ℕ)
      → WalEntry
  drop_table : (type_id : ℕ) → WalEntry
  comment_table : (type_id : ℕ) (comment : List ℕ) → WalEntry
  rename_table : (type_id : ℕ) (new_name : List ℕ) → WalEntry
  create_table_validation : (type_id : ℕ) (name code : List ℕ) → WalEntry
  comment_table_validation : (type_id validation_id : ℕ) (comment : List ℕ) → WalEntry
  drop_table_validation : (type_id validation_id : ℕ) → WalEntry
  rename_table_validation : (type_id validation_id : ℕ) (new_name : List ℕ) → WalEntry
  create_adt_variant : (type_id : ℕ) (name : List ℕ) → WalEntry
  comment_adt_variant : (type_id variant_id : ℕ) (comment : List ℕ) → WalEntry
  rename_adt_variant : (type_id variant_id : ℕ) (new_name : List ℕ) → WalEntry
  drop_adt_variant : (type_id variant_id : ℕ) → WalEntry
  bind_schemaless_field : (type_id : ℕ) (field_type : TypeId) (field_name : List ℕ) → WalEntry
  unbind_schemaless_field : (type_id : ℕ) (field_type : TypeId) (field_name : List ℕ) → WalEntry
  create_table_trigger : (type_id : ℕ) (kind : TriggerExecKind) (code : List ℕ) → WalEntry
  drop_table_trigger : (type_id : ℕ) (kind : TriggerExecKind) → WalEntry
  create_field_trigger_query :
      (type_id variant_id field_id : ℕ) (kind : TriggerExecKind) (code : List ℕ) → WalEntry
  drop_field_trigger : (type_id variant_id field_id : ℕ) (kind : TriggerExecKind) → WalEntry
  create_field : (type_id variant_id : ℕ) (field_type : TypeId) (field_name : List ℕ) → WalEntry
  set_field_default : (type_id variant_id field_id : ℕ) (default_value : List ℕ) → WalEntry
  set_field_computed : (type_id variant_id field_id : ℕ) (code : List ℕ) → WalEntry
  set_field_check : (type_id variant_id field_id : ℕ) (code : List ℕ) → WalEntry
  set_field_transform : (type_id variant_id field_id : ℕ) (code : List ℕ) → WalEntry
  comment_field : (type_id variant_id field_id : ℕ) (comment : List ℕ) → WalEntry
  rename_field : (type_id variant_id field_id : ℕ) (new_name : List ℕ) → WalEntry
  drop_field : (type_id variant_id field_id : ℕ) → WalEntry
  create_index_unique :
      (type_id variant_id : ℕ) (fields : List ℕ) (none_is_unique : Bool) (name : List ℕ) → WalEntry
  create_index_order :
      (type_id variant_id : ℕ) (fields : List OrderIndexFieldCfg) (name : List ℕ) → WalEntry
  create_index_equal : (type_id variant_id : ℕ) (fields name : List ℕ) → WalEntry
  comment_index : (type_id variant_id index_id : ℕ) (comment : List ℕ) → WalEntry
  rename_index : (type_id variant_id index_id : ℕ) (new_name : List ℕ) → WalEntry
  drop_index : (type_id variant_id index_id : ℕ) → WalEntry
  create_fn : (self_arg returns : TypeId) (by_ref : Bool) (name code : List ℕ) → WalEntry
  comment_fn : (self_arg : TypeId) (name comment : List ℕ) → WalEntry
  rename_fn : (self_arg : TypeId) (old_name new_name : List ℕ) → WalEntry
  drop_fn : (self_arg : TypeId) (name : List ℕ) → WalEntry

-- The trait `WalCode`; its `wal_code_bytes` is in `Payload`.
pub record WalCode {ℓ} (A : Type ℓ) : Type ℓ where
  pub wal_code : A → ℕ

unfoldable pub entry_code : WalEntry → ℕ
entry_code (insert _ _ _) = 0x01
entry_code (update _ _ _ _) = 0x02
entry_code (delete _ _) = 0x03
entry_code commit = 0x05
entry_code rollback = 0x06
entry_code (create_table _ _ _ _) = 0x07
entry_code (drop_table _) = 0x08
entry_code (comment_table _ _) = 0x09
entry_code (rename_table _ _) = 0x0a
entry_code (create_table_validation _ _ _) = 0x0b
entry_code (comment_table_validation _ _ _) = 0x0c
entry_code (drop_table_validation _ _) = 0x0d
entry_code (rename_table_validation _ _ _) = 0x0e
entry_code (create_adt_variant _ _) = 0x0f
entry_code (comment_adt_variant _ _ _) = 0x10
entry_code (rename_adt_variant _ _ _) = 0x11
entry_code (drop_adt_variant _ _) = 0x12
entry_code (bind_schemaless_field _ _ _) = 0x13
entry_code (unbind_schemaless_field _ _ _) = 0x14
entry_code (create_table_trigger _ _ _) = 0x15
entry_code (drop_table_trigger _ _) = 0x16
entry_code (create_field_trigger_query _ _ _ _ _) = 0x17
entry_code (drop_field_trigger _ _ _ _) = 0x18
entry_code (create_field _ _ _ _) = 0x19
entry_code (set_field_default _ _ _ _) = 0x1a
entry_code (set_field_computed _ _ _ _) = 0x1b
entry_code (set_field_check _ _ _ _) = 0x1c
entry_code (set_field_transform _ _ _ _) = 0x1d
entry_code (comment_field _ _ _ _) = 0x1e
entry_code (rename_field _ _ _ _) = 0x1f
entry_code (drop_field _ _ _) = 0x20
entry_code (create_index_unique _ _ _ _ _) = 0x21
entry_code (create_index_order _ _ _ _) = 0x22
entry_code (create_index_equal _ _ _ _) = 0x23
entry_code (comment_index _ _ _ _) = 0x24
entry_code (rename_index _ _ _ _) = 0x25
entry_code (drop_index _ _ _) = 0x26
entry_code (create_fn _ _ _ _ _) = 0x27
entry_code (comment_fn _ _ _) = 0x28
entry_code (rename_fn _ _ _) = 0x29
entry_code (drop_fn _ _) = 0x2a

unfoldable pub table_kind_code : TableKind → ℕ
table_kind_code schemafull = 0x01
table_kind_code schemafull_adt = 0x02
table_kind_code schemaless = 0x03
table_kind_code schemafull_schemaless = 0x04
table_kind_code schemafull_adt_schemaless = 0x05

unfoldable pub store_behavior_code : TableStoreBehavior → ℕ
store_behavior_code directly_storable = 0x01
store_behavior_code field_only = 0x02
store_behavior_code singleton = 0x03

unfoldable pub trigger_kind_code : TriggerExecKind → ℕ
trigger_kind_code before_insert = 0x01
trigger_kind_code before_update = 0x02
trigger_kind_code before_delete = 0x03
trigger_kind_code after_insert = 0x04
trigger_kind_code after_update = 0x05
trigger_kind_code after_delete = 0x06

instance abbrev pub entry_wal_code : WalCode WalEntry
entry_wal_code = record { wal_code = entry_code }

instance abbrev pub table_kind_wal_code : WalCode TableKind
table_kind_wal_code = record { wal_code = table_kind_code }

instance abbrev pub store_behavior_wal_code : WalCode TableStoreBehavior
store_behavior_wal_code = record { wal_code = store_behavior_code }

instance abbrev pub trigger_kind_wal_code : WalCode TriggerExecKind
trigger_kind_wal_code = record { wal_code = trigger_kind_code }
