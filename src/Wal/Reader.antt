-- ===== src/Wal/Reader.antt =====
-- A reader of log entries, as a description of the payload format that is independent of the writer:
-- `read_payload code bytes` is the entry with that code and payload. It reads no function entry of
-- code 0x27, whose two texts are not told apart.
pub mod Parts
pub mod Bounds
pub mod Laws
use Parts.{
  of_table_kind, of_store_behavior, of_trigger_kind, ids1, flag1, text, id_list, order_list,
}
use kobzar.Base.{ℕ, List, Option, none, some, ◌==◌, if◌then◌else◌}
use kobzar.Wal.Entry.{WalEntry}
use kobzar.Wal.Entry.{
  insert, update, delete, commit, rollback, create_table, drop_table, comment_table, rename_table,
  create_table_validation, comment_table_validation, drop_table_validation, rename_table_validation,
  create_adt_variant, comment_adt_variant, rename_adt_variant, drop_adt_variant,
  bind_schemaless_field, unbind_schemaless_field, create_table_trigger, drop_table_trigger,
  create_field_trigger_query, drop_field_trigger, create_field, set_field_default,
  set_field_computed, set_field_check, set_field_transform, comment_field, rename_field, drop_field,
  create_index_unique, create_index_order, create_index_equal, comment_index, rename_index,
  drop_index, comment_fn, rename_fn, drop_fn,
}

unfoldable pub read_table_payload : ℕ → List ℕ → Option WalEntry
read_table_payload code bytes =
    if code == 0x01
    then (ids1 λ storage. ids1 λ rec. λ bytes. some (insert storage rec bytes)) bytes
    else if code == 0x02
    then (ids1 λ storage. ids1 λ old_record.
          ids1 λ new_record. λ bytes. some (update storage old_record new_record bytes))
        bytes
    else if code == 0x03
    then (ids1 λ storage. ids1 λ rec. λ _. some (delete storage rec)) bytes
    else if code == 0x05
    then some commit
    else if code == 0x06
    then some rollback
    else if code == 0x07
    then (ids1 λ type_id. ids1 λ kind. ids1 λ store_behavior. λ name.
          some (create_table type_id (of_table_kind kind) (of_store_behavior store_behavior) name))
        bytes
    else if code == 0x08
    then (ids1 λ type_id. λ _. some (drop_table type_id)) bytes
    else if code == 0x09
    then (ids1 λ type_id. λ comment. some (comment_table type_id comment)) bytes
    else if code == 0x0a
    then (ids1 λ type_id. λ new_name. some (rename_table type_id new_name)) bytes
    else if code == 0x0b
    then (ids1 λ type_id. text λ name. λ code. some (create_table_validation type_id name code))
        bytes
    else if code == 0x0c
    then (ids1 λ type_id.
          ids1 λ validation_id.
            λ comment. some (comment_table_validation type_id validation_id comment))
        bytes
    else if code == 0x0d
    then (ids1
          λ type_id. ids1 λ validation_id. λ _. some (drop_table_validation type_id validation_id))
        bytes
    else if code == 0x0e
    then (ids1 λ type_id. ids1 λ validation_id.
          λ new_name. some (rename_table_validation type_id validation_id new_name))
        bytes
    else if code == 0x0f
    then (ids1 λ type_id. λ name. some (create_adt_variant type_id name)) bytes
    else if code == 0x10
    then (ids1 λ type_id.
          ids1 λ variant_id. λ comment. some (comment_adt_variant type_id variant_id comment))
        bytes
    else if code == 0x11
    then (ids1 λ type_id.
          ids1 λ variant_id. λ new_name. some (rename_adt_variant type_id variant_id new_name))
        bytes
    else if code == 0x12
    then (ids1 λ type_id. ids1 λ variant_id. λ _. some (drop_adt_variant type_id variant_id)) bytes
    else if code == 0x13
    then (ids1 λ type_id.
          ids1
            λ field_type. λ field_name. some (bind_schemaless_field type_id field_type field_name))
        bytes
    else if code == 0x14
    then (ids1 λ type_id.
          ids1 λ field_type.
            λ field_name. some (unbind_schemaless_field type_id field_type field_name))
        bytes
    else none

unfoldable pub read_field_payload : ℕ → List ℕ → Option WalEntry
unfolding read_table_payload
read_field_payload code bytes =
    if code == 0x15
    then (ids1 λ type_id.
          ids1 λ kind. λ code. some (create_table_trigger type_id (of_trigger_kind kind) code))
        bytes
    else if code == 0x16
    then (ids1
          λ type_id. ids1 λ kind. λ _. some (drop_table_trigger type_id (of_trigger_kind kind)))
        bytes
    else if code == 0x17
    then (ids1 λ type_id. ids1 λ variant_id. ids1 λ field_id. ids1 λ kind. λ code.
          some (create_field_trigger_query type_id variant_id field_id (of_trigger_kind kind) code))
        bytes
    else if code == 0x18
    then (ids1 λ type_id. ids1 λ variant_id. ids1 λ field_id.
          ids1 λ kind.
            λ _. some (drop_field_trigger type_id variant_id field_id (of_trigger_kind kind)))
        bytes
    else if code == 0x19
    then (ids1 λ type_id. ids1 λ variant_id.
          ids1 λ field_type.
            λ field_name. some (create_field type_id variant_id field_type field_name))
        bytes
    else if code == 0x1a
    then (ids1 λ type_id. ids1 λ variant_id. ids1 λ field_id.
          λ default_value. some (set_field_default type_id variant_id field_id default_value))
        bytes
    else if code == 0x1b
    then (ids1 λ type_id. ids1 λ variant_id.
          ids1 λ field_id. λ code. some (set_field_computed type_id variant_id field_id code))
        bytes
    else if code == 0x1c
    then (ids1 λ type_id. ids1 λ variant_id.
          ids1 λ field_id. λ code. some (set_field_check type_id variant_id field_id code))
        bytes
    else if code == 0x1d
    then (ids1 λ type_id. ids1 λ variant_id.
          ids1 λ field_id. λ code. some (set_field_transform type_id variant_id field_id code))
        bytes
    else if code == 0x1e
    then (ids1 λ type_id. ids1 λ variant_id.
          ids1 λ field_id. λ comment. some (comment_field type_id variant_id field_id comment))
        bytes
    else if code == 0x1f
    then (ids1 λ type_id. ids1 λ variant_id.
          ids1 λ field_id. λ new_name. some (rename_field type_id variant_id field_id new_name))
        bytes
    else if code == 0x20
    then (ids1 λ type_id.
          ids1 λ variant_id. ids1 λ field_id. λ _. some (drop_field type_id variant_id field_id))
        bytes
    else read_table_payload code bytes

unfoldable pub read_payload : ℕ → List ℕ → Option WalEntry
unfolding read_field_payload
read_payload code bytes =
    if code == 0x21
    then (ids1 λ type_id. ids1 λ variant_id. id_list λ fields. flag1 λ none_is_unique.
          λ name. some (create_index_unique type_id variant_id fields none_is_unique name))
        bytes
    else if code == 0x22
    then (ids1 λ type_id. ids1 λ variant_id.
          order_list λ fields. λ name. some (create_index_order type_id variant_id fields name))
        bytes
    else if code == 0x23
    then (ids1 λ type_id. ids1 λ variant_id.
          id_list λ fields. λ name. some (create_index_equal type_id variant_id fields name))
        bytes
    else if code == 0x24
    then (ids1 λ type_id. ids1 λ variant_id.
          ids1 λ index_id. λ comment. some (comment_index type_id variant_id index_id comment))
        bytes
    else if code == 0x25
    then (ids1 λ type_id. ids1 λ variant_id.
          ids1 λ index_id. λ new_name. some (rename_index type_id variant_id index_id new_name))
        bytes
    else if code == 0x26
    then (ids1 λ type_id.
          ids1 λ variant_id. ids1 λ index_id. λ _. some (drop_index type_id variant_id index_id))
        bytes
    else if code == 0x28
    then (ids1 λ self_arg. text λ name. λ comment. some (comment_fn self_arg name comment)) bytes
    else if code == 0x29
    then (ids1 λ self_arg. text λ old_name. λ new_name. some (rename_fn self_arg old_name new_name))
        bytes
    else if code == 0x2a
    then (ids1 λ self_arg. λ name. some (drop_fn self_arg name)) bytes
    else read_field_payload code bytes
