-- ===== src/Wal/Reader/Bounds.antt =====
-- The entries that a payload determines: ids and lengths that fit a u64, and no `CreateFn`.
use kobzar.Base.{length, All}
use kobzar.Base.Bytes.{IsU64}
use kobzar.Wal.Entry.{WalEntry}
use kobzar.Wal.Entry.{
  insert, update, delete, commit, rollback, create_table, drop_table, comment_table, rename_table,
  create_table_validation, comment_table_validation, drop_table_validation, rename_table_validation,
  create_adt_variant, comment_adt_variant, rename_adt_variant, drop_adt_variant,
  bind_schemaless_field, unbind_schemaless_field, create_table_trigger, drop_table_trigger,
  create_field_trigger_query, drop_field_trigger, create_field, set_field_default,
  set_field_computed, set_field_check, set_field_transform, comment_field, rename_field, drop_field,
  create_index_unique, create_index_order, create_index_equal, comment_index, rename_index,
  drop_index, create_fn, comment_fn, rename_fn, drop_fn,
}

-- Every id and every length that the entry holds is a u64.
abbrev pub Fits : WalEntry → Type 0
Fits (insert storage rec _) = IsU64 storage × IsU64 rec
Fits (update storage old_record new_record _) = IsU64 storage × IsU64 old_record × IsU64 new_record
Fits (delete storage rec) = IsU64 storage × IsU64 rec
Fits commit = Unit {0}
Fits rollback = Unit {0}
Fits (create_table type_id _ _ _) = IsU64 type_id
Fits (drop_table type_id) = IsU64 type_id
Fits (comment_table type_id _) = IsU64 type_id
Fits (rename_table type_id _) = IsU64 type_id
Fits (create_table_validation type_id name _) = IsU64 type_id × IsU64 (length name)
Fits (comment_table_validation type_id validation_id _) = IsU64 type_id × IsU64 validation_id
Fits (drop_table_validation type_id validation_id) = IsU64 type_id × IsU64 validation_id
Fits (rename_table_validation type_id validation_id _) = IsU64 type_id × IsU64 validation_id
Fits (create_adt_variant type_id _) = IsU64 type_id
Fits (comment_adt_variant type_id variant_id _) = IsU64 type_id × IsU64 variant_id
Fits (rename_adt_variant type_id variant_id _) = IsU64 type_id × IsU64 variant_id
Fits (drop_adt_variant type_id variant_id) = IsU64 type_id × IsU64 variant_id
Fits (bind_schemaless_field type_id field_type _) = IsU64 type_id × IsU64 field_type
Fits (unbind_schemaless_field type_id field_type _) = IsU64 type_id × IsU64 field_type
Fits (create_table_trigger type_id _ _) = IsU64 type_id
Fits (drop_table_trigger type_id _) = IsU64 type_id
Fits (create_field_trigger_query type_id variant_id field_id _ _) =
    IsU64 type_id × IsU64 variant_id × IsU64 field_id
Fits (drop_field_trigger type_id variant_id field_id _) =
    IsU64 type_id × IsU64 variant_id × IsU64 field_id
Fits (create_field type_id variant_id field_type _) =
    IsU64 type_id × IsU64 variant_id × IsU64 field_type
Fits (set_field_default type_id variant_id field_id _) =
    IsU64 type_id × IsU64 variant_id × IsU64 field_id
Fits (set_field_computed type_id variant_id field_id _) =
    IsU64 type_id × IsU64 variant_id × IsU64 field_id
Fits (set_field_check type_id variant_id field_id _) =
    IsU64 type_id × IsU64 variant_id × IsU64 field_id
Fits (set_field_transform type_id variant_id field_id _) =
    IsU64 type_id × IsU64 variant_id × IsU64 field_id
Fits (comment_field type_id variant_id field_id _) =
    IsU64 type_id × IsU64 variant_id × IsU64 field_id
Fits (rename_field type_id variant_id field_id _) =
    IsU64 type_id × IsU64 variant_id × IsU64 field_id
Fits (drop_field type_id variant_id field_id) = IsU64 type_id × IsU64 variant_id × IsU64 field_id
Fits (create_index_unique type_id variant_id fields _ _) =
    IsU64 type_id × IsU64 variant_id × IsU64 (length fields) × All IsU64 fields
Fits (create_index_order type_id variant_id fields _) =
    IsU64 type_id × IsU64 variant_id × IsU64 (length fields) × All (λ c. IsU64 c.field_idx) fields
Fits (create_index_equal type_id variant_id fields _) =
    IsU64 type_id × IsU64 variant_id × IsU64 (length fields) × All IsU64 fields
Fits (comment_index type_id variant_id index_id _) =
    IsU64 type_id × IsU64 variant_id × IsU64 index_id
Fits (rename_index type_id variant_id index_id _) =
    IsU64 type_id × IsU64 variant_id × IsU64 index_id
Fits (drop_index type_id variant_id index_id) = IsU64 type_id × IsU64 variant_id × IsU64 index_id
Fits (create_fn self_arg returns _ _ _) = IsU64 self_arg × IsU64 returns
Fits (comment_fn self_arg name _) = IsU64 self_arg × IsU64 (length name)
Fits (rename_fn self_arg old_name _) = IsU64 self_arg × IsU64 (length old_name)
Fits (drop_fn self_arg _) = IsU64 self_arg

-- The entry is no `CreateFn`.
abbrev pub IsDelimited : WalEntry → Type 0
IsDelimited (create_fn _ _ _ _ _) = ⊥
IsDelimited _ = Unit
