-- ===== src/Wal/Payload.antt =====
-- The inner `write_entry` of kobzar/src/q_engine/storage/wal.rs: the calls of its argument `write`,
-- in order. The source runs it twice, once to hash the data and once to write it.
use kobzar.Base.{ℕ, ◌*◌, bit_or, Bool, true, false, List, [], ◌∷◌, ◌++◌, map, length, concat}
use kobzar.Base.Bytes.{le_bytes}
use kobzar.Wal.Entry.{
  WalEntry, WalCode, OrderIndexFieldCfg, entry_wal_code, table_kind_wal_code,
  store_behavior_wal_code, trigger_kind_wal_code,
}
use kobzar.Wal.Entry.{
  insert, update, delete, commit, rollback, create_table, drop_table, comment_table, rename_table,
  create_table_validation, comment_table_validation, drop_table_validation, rename_table_validation,
  create_adt_variant, comment_adt_variant, rename_adt_variant, drop_adt_variant,
  bind_schemaless_field, unbind_schemaless_field, create_table_trigger, drop_table_trigger,
  create_field_trigger_query, drop_field_trigger, create_field, set_field_default,
  set_field_computed, set_field_check, set_field_transform, comment_field, rename_field, drop_field,
  create_index_unique, create_index_order, create_index_equal, comment_index, rename_index,
  drop_index, create_fn, comment_fn, rename_fn, drop_fn,
}

-- `wal_code().to_le_bytes()`
abbrev pub wal_code_bytes {ℓ} : {A : Type ℓ} ⦃w : WalCode A⦄ → A → List ℕ
wal_code_bytes ⦃w⦄ a = le_bytes 8 (w.wal_code a)

-- `to_le_bytes` of a u64
abbrev pub id : ℕ → List ℕ
id n = le_bytes 8 n

-- `b as u8`
abbrev pub to_u8 : Bool → ℕ
to_u8 true = 1
to_u8 false = 0

abbrev pub flag : Bool → List ℕ
flag b = le_bytes 1 (to_u8 b)

-- `is_ascending as u8 | (none_is_first as u8) << 1`
abbrev pub order_flags : OrderIndexFieldCfg → ℕ
order_flags c = bit_or (to_u8 c.is_ascending) (to_u8 c.none_is_first * 2)

-- the two writes for a field of an order index
abbrev pub order_field : OrderIndexFieldCfg → List (List ℕ)
order_field c = id c.field_idx ∷ le_bytes 1 (order_flags c) ∷ []

-- The match of the source in three parts: indexes and functions, triggers and fields, the rest.
unfoldable pub index_entry_writes : WalEntry → List (List ℕ)
index_entry_writes (create_index_unique type_id variant_id fields none_is_unique name) =
    id type_id
    ∷ id variant_id
    ∷ id (length fields)
    ∷ (map id fields ++ (flag none_is_unique ∷ name ∷ []))
index_entry_writes (create_index_order type_id variant_id fields name) =
    id type_id
    ∷ id variant_id
    ∷ id (length fields)
    ∷ (concat (map order_field fields) ++ (name ∷ []))
index_entry_writes (create_index_equal type_id variant_id fields name) =
    id type_id ∷ id variant_id ∷ id (length fields) ∷ (map id fields ++ (name ∷ []))
index_entry_writes (comment_index type_id variant_id index_id comment) =
    id type_id ∷ id variant_id ∷ id index_id ∷ comment ∷ []
index_entry_writes (rename_index type_id variant_id index_id new_name) =
    id type_id ∷ id variant_id ∷ id index_id ∷ new_name ∷ []
index_entry_writes (drop_index type_id variant_id index_id) =
    id type_id ∷ id variant_id ∷ id index_id ∷ []
index_entry_writes (create_fn self_arg returns by_ref name code) =
    id self_arg ∷ id returns ∷ flag by_ref ∷ name ∷ code ∷ []
index_entry_writes (comment_fn self_arg name comment) =
    id self_arg ∷ id (length name) ∷ name ∷ comment ∷ []
index_entry_writes (rename_fn self_arg old_name new_name) =
    id self_arg ∷ id (length old_name) ∷ old_name ∷ new_name ∷ []
index_entry_writes (drop_fn self_arg name) = id self_arg ∷ name ∷ []
index_entry_writes _ = []

unfoldable pub field_entry_writes : WalEntry → List (List ℕ)
unfolding index_entry_writes
field_entry_writes (create_table_trigger type_id kind code) =
    id type_id ∷ wal_code_bytes kind ∷ code ∷ []
field_entry_writes (drop_table_trigger type_id kind) = id type_id ∷ wal_code_bytes kind ∷ []
field_entry_writes (create_field_trigger_query type_id variant_id field_id kind code) =
    id type_id ∷ id variant_id ∷ id field_id ∷ wal_code_bytes kind ∷ code ∷ []
field_entry_writes (drop_field_trigger type_id variant_id field_id kind) =
    id type_id ∷ id variant_id ∷ id field_id ∷ wal_code_bytes kind ∷ []
field_entry_writes (create_field type_id variant_id field_type field_name) =
    id type_id ∷ id variant_id ∷ id field_type ∷ field_name ∷ []
field_entry_writes (set_field_default type_id variant_id field_id default_value) =
    id type_id ∷ id variant_id ∷ id field_id ∷ default_value ∷ []
field_entry_writes (set_field_computed type_id variant_id field_id code) =
    id type_id ∷ id variant_id ∷ id field_id ∷ code ∷ []
field_entry_writes (set_field_check type_id variant_id field_id code) =
    id type_id ∷ id variant_id ∷ id field_id ∷ code ∷ []
field_entry_writes (set_field_transform type_id variant_id field_id code) =
    id type_id ∷ id variant_id ∷ id field_id ∷ code ∷ []
field_entry_writes (comment_field type_id variant_id field_id comment) =
    id type_id ∷ id variant_id ∷ id field_id ∷ comment ∷ []
field_entry_writes (rename_field type_id variant_id field_id new_name) =
    id type_id ∷ id variant_id ∷ id field_id ∷ new_name ∷ []
field_entry_writes (drop_field type_id variant_id field_id) =
    id type_id ∷ id variant_id ∷ id field_id ∷ []
field_entry_writes other = index_entry_writes other

unfoldable pub entry_writes : WalEntry → List (List ℕ)
unfolding field_entry_writes
entry_writes (insert storage rec bytes) = id storage ∷ id rec ∷ bytes ∷ []
entry_writes (update storage old_record new_record bytes) =
    id storage ∷ id old_record ∷ id new_record ∷ bytes ∷ []
entry_writes (delete storage rec) = id storage ∷ id rec ∷ []
entry_writes commit = []
entry_writes rollback = []
entry_writes (create_table type_id kind store_behavior name) =
    id type_id ∷ wal_code_bytes kind ∷ wal_code_bytes store_behavior ∷ name ∷ []
entry_writes (drop_table type_id) = id type_id ∷ []
entry_writes (comment_table type_id comment) = id type_id ∷ comment ∷ []
entry_writes (rename_table type_id new_name) = id type_id ∷ new_name ∷ []
entry_writes (create_table_validation type_id name code) =
    id type_id ∷ id (length name) ∷ name ∷ code ∷ []
entry_writes (comment_table_validation type_id validation_id comment) =
    id type_id ∷ id validation_id ∷ comment ∷ []
entry_writes (drop_table_validation type_id validation_id) = id type_id ∷ id validation_id ∷ []
entry_writes (rename_table_validation type_id validation_id new_name) =
    id type_id ∷ id validation_id ∷ new_name ∷ []
entry_writes (create_adt_variant type_id name) = id type_id ∷ name ∷ []
entry_writes (comment_adt_variant type_id variant_id comment) =
    id type_id ∷ id variant_id ∷ comment ∷ []
entry_writes (rename_adt_variant type_id variant_id new_name) =
    id type_id ∷ id variant_id ∷ new_name ∷ []
entry_writes (drop_adt_variant type_id variant_id) = id type_id ∷ id variant_id ∷ []
entry_writes (bind_schemaless_field type_id field_type field_name) =
    id type_id ∷ id field_type ∷ field_name ∷ []
entry_writes (unbind_schemaless_field type_id field_type field_name) =
    id type_id ∷ id field_type ∷ field_name ∷ []
entry_writes other = field_entry_writes other

-- all the bytes written for an entry's data
unfoldable pub payload : WalEntry → List ℕ
unfolding entry_writes
payload e = concat (entry_writes e)
