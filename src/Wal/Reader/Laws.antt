-- ===== src/Wal/Reader/Laws.antt =====
-- The reader on the payloads of `write_entry`, kobzar/src/q_engine/storage/wal.rs.
use kobzar.Base.{ℕ, ◌≡◌, refl, Bool, List, ◌++◌, append-nil, append_assoc, some}
use kobzar.Wal.Entry.{
  WalEntry, entry_code, table_kind_code, store_behavior_code, trigger_kind_code, TypeId,
}
use kobzar.Wal.Entry.{
  insert, update, delete, commit, rollback, create_table, drop_table, comment_table, rename_table,
  create_table_validation, comment_table_validation, drop_table_validation, rename_table_validation,
  create_adt_variant, comment_adt_variant, rename_adt_variant, drop_adt_variant,
  bind_schemaless_field, unbind_schemaless_field, create_table_trigger, drop_table_trigger,
  create_field_trigger_query, drop_field_trigger, create_field, set_field_default,
  set_field_computed, set_field_check, set_field_transform, comment_field, rename_field, drop_field,
  create_index_unique, create_index_order, create_index_equal, comment_index, rename_index,
  drop_index, create_fn, comment_fn, rename_fn, drop_fn,
}
use kobzar.Wal.Payload.{payload}
use kobzar.Wal.Reader.{read_payload}
use kobzar.Wal.Reader.Bounds.{Fits, IsDelimited}
use kobzar.Wal.Reader.Parts.{
  ids1_lem, flag1_lem, text_lem, id_list_lem, order_list_lem, table_kind_lem, store_behavior_lem,
  trigger_kind_lem,
}

pub payload_read_back :
    (e : WalEntry) → Fits e → IsDelimited e → read_payload (entry_code e) (payload e) ≡ some e
unfolding payload read_payload entry_code
payload_read_back (insert storage rec bytes) fits _ =
    rw (ids1_lem _ _ storage fits.0, ids1_lem _ _ rec fits.1, append-nil bytes)
payload_read_back (update storage old_record new_record bytes) fits _ = rw (
  ids1_lem _ _ storage fits.0,
  ids1_lem _ _ old_record fits.1,
  ids1_lem _ _ new_record fits.2,
  append-nil bytes,
)
payload_read_back (delete storage rec) fits _ =
    rw (ids1_lem _ _ storage fits.0, ids1_lem _ _ rec fits.1)
payload_read_back commit fits _ = refl
payload_read_back rollback fits _ = refl
payload_read_back (create_table type_id kind store_behavior name) fits _ = rw (
  ids1_lem _ _ type_id fits,
  ids1_lem _ _ (table_kind_code kind) (table_kind_lem kind).0,
  (table_kind_lem kind).1,
  ids1_lem _ _ (store_behavior_code store_behavior) (store_behavior_lem store_behavior).0,
  (store_behavior_lem store_behavior).1,
  append-nil name,
)
payload_read_back (drop_table type_id) fits _ = rw (ids1_lem _ _ type_id fits)
payload_read_back (comment_table type_id comment) fits _ =
    rw (ids1_lem _ _ type_id fits, append-nil comment)
payload_read_back (rename_table type_id new_name) fits _ =
    rw (ids1_lem _ _ type_id fits, append-nil new_name)
payload_read_back (create_table_validation type_id name code) fits _ =
    rw (ids1_lem _ _ type_id fits.0, text_lem _ _ name fits.1, append-nil code)
payload_read_back (comment_table_validation type_id validation_id comment) fits _ =
    rw (ids1_lem _ _ type_id fits.0, ids1_lem _ _ validation_id fits.1, append-nil comment)
payload_read_back (drop_table_validation type_id validation_id) fits _ =
    rw (ids1_lem _ _ type_id fits.0, ids1_lem _ _ validation_id fits.1)
payload_read_back (rename_table_validation type_id validation_id new_name) fits _ =
    rw (ids1_lem _ _ type_id fits.0, ids1_lem _ _ validation_id fits.1, append-nil new_name)
payload_read_back (create_adt_variant type_id name) fits _ =
    rw (ids1_lem _ _ type_id fits, append-nil name)
payload_read_back (comment_adt_variant type_id variant_id comment) fits _ =
    rw (ids1_lem _ _ type_id fits.0, ids1_lem _ _ variant_id fits.1, append-nil comment)
payload_read_back (rename_adt_variant type_id variant_id new_name) fits _ =
    rw (ids1_lem _ _ type_id fits.0, ids1_lem _ _ variant_id fits.1, append-nil new_name)
payload_read_back (drop_adt_variant type_id variant_id) fits _ =
    rw (ids1_lem _ _ type_id fits.0, ids1_lem _ _ variant_id fits.1)
payload_read_back (bind_schemaless_field type_id field_type field_name) fits _ =
    rw (ids1_lem _ _ type_id fits.0, ids1_lem _ _ field_type fits.1, append-nil field_name)
payload_read_back (unbind_schemaless_field type_id field_type field_name) fits _ =
    rw (ids1_lem _ _ type_id fits.0, ids1_lem _ _ field_type fits.1, append-nil field_name)
payload_read_back (create_table_trigger type_id kind code) fits _ = rw (
  ids1_lem _ _ type_id fits,
  ids1_lem _ _ (trigger_kind_code kind) (trigger_kind_lem kind).0,
  (trigger_kind_lem kind).1,
  append-nil code,
)
payload_read_back (drop_table_trigger type_id kind) fits _ = rw (
  ids1_lem _ _ type_id fits,
  ids1_lem _ _ (trigger_kind_code kind) (trigger_kind_lem kind).0,
  (trigger_kind_lem kind).1,
)
payload_read_back (create_field_trigger_query type_id variant_id field_id kind code) fits _ = rw (
  ids1_lem _ _ type_id fits.0,
  ids1_lem _ _ variant_id fits.1,
  ids1_lem _ _ field_id fits.2,
  ids1_lem _ _ (trigger_kind_code kind) (trigger_kind_lem kind).0,
  (trigger_kind_lem kind).1,
  append-nil code,
)
payload_read_back (drop_field_trigger type_id variant_id field_id kind) fits _ = rw (
  ids1_lem _ _ type_id fits.0,
  ids1_lem _ _ variant_id fits.1,
  ids1_lem _ _ field_id fits.2,
  ids1_lem _ _ (trigger_kind_code kind) (trigger_kind_lem kind).0,
  (trigger_kind_lem kind).1,
)
payload_read_back (create_field type_id variant_id field_type field_name) fits _ = rw (
  ids1_lem _ _ type_id fits.0,
  ids1_lem _ _ variant_id fits.1,
  ids1_lem _ _ field_type fits.2,
  append-nil field_name,
)
payload_read_back (set_field_default type_id variant_id field_id default_value) fits _ = rw (
  ids1_lem _ _ type_id fits.0,
  ids1_lem _ _ variant_id fits.1,
  ids1_lem _ _ field_id fits.2,
  append-nil default_value,
)
payload_read_back (set_field_computed type_id variant_id field_id code) fits _ = rw (
  ids1_lem _ _ type_id fits.0,
  ids1_lem _ _ variant_id fits.1,
  ids1_lem _ _ field_id fits.2,
  append-nil code,
)
payload_read_back (set_field_check type_id variant_id field_id code) fits _ = rw (
  ids1_lem _ _ type_id fits.0,
  ids1_lem _ _ variant_id fits.1,
  ids1_lem _ _ field_id fits.2,
  append-nil code,
)
payload_read_back (set_field_transform type_id variant_id field_id code) fits _ = rw (
  ids1_lem _ _ type_id fits.0,
  ids1_lem _ _ variant_id fits.1,
  ids1_lem _ _ field_id fits.2,
  append-nil code,
)
payload_read_back (comment_field type_id variant_id field_id comment) fits _ = rw (
  ids1_lem _ _ type_id fits.0,
  ids1_lem _ _ variant_id fits.1,
  ids1_lem _ _ field_id fits.2,
  append-nil comment,
)
payload_read_back (rename_field type_id variant_id field_id new_name) fits _ = rw (
  ids1_lem _ _ type_id fits.0,
  ids1_lem _ _ variant_id fits.1,
  ids1_lem _ _ field_id fits.2,
  append-nil new_name,
)
payload_read_back (drop_field type_id variant_id field_id) fits _ =
    rw (ids1_lem _ _ type_id fits.0, ids1_lem _ _ variant_id fits.1, ids1_lem _ _ field_id fits.2)
payload_read_back (create_index_unique type_id variant_id fields none_is_unique name) fits _ = rw (
  ids1_lem _ _ type_id fits.0,
  ids1_lem _ _ variant_id fits.1,
  id_list_lem _ _ fields fits.2 fits.3,
  flag1_lem _ _ none_is_unique,
  append-nil name,
)
payload_read_back (create_index_order type_id variant_id fields name) fits _ = rw (
  ids1_lem _ _ type_id fits.0,
  ids1_lem _ _ variant_id fits.1,
  order_list_lem _ _ fields fits.2 fits.3,
  append-nil name,
)
payload_read_back (create_index_equal type_id variant_id fields name) fits _ = rw (
  ids1_lem _ _ type_id fits.0,
  ids1_lem _ _ variant_id fits.1,
  id_list_lem _ _ fields fits.2 fits.3,
  append-nil name,
)
payload_read_back (comment_index type_id variant_id index_id comment) fits _ = rw (
  ids1_lem _ _ type_id fits.0,
  ids1_lem _ _ variant_id fits.1,
  ids1_lem _ _ index_id fits.2,
  append-nil comment,
)
payload_read_back (rename_index type_id variant_id index_id new_name) fits _ = rw (
  ids1_lem _ _ type_id fits.0,
  ids1_lem _ _ variant_id fits.1,
  ids1_lem _ _ index_id fits.2,
  append-nil new_name,
)
payload_read_back (drop_index type_id variant_id index_id) fits _ =
    rw (ids1_lem _ _ type_id fits.0, ids1_lem _ _ variant_id fits.1, ids1_lem _ _ index_id fits.2)
payload_read_back (create_fn _ _ _ _ _) fits delimited = absurd delimited
payload_read_back (comment_fn self_arg name comment) fits _ =
    rw (ids1_lem _ _ self_arg fits.0, text_lem _ _ name fits.1, append-nil comment)
payload_read_back (rename_fn self_arg old_name new_name) fits _ =
    rw (ids1_lem _ _ self_arg fits.0, text_lem _ _ old_name fits.1, append-nil new_name)
payload_read_back (drop_fn self_arg name) fits _ = rw (ids1_lem _ _ self_arg fits, append-nil name)

-- Two entries that are no CreateFn, whose numbers fit 64 bits and which have the same code and
-- payload, are the same entry.
payload-injective :
    (e f : WalEntry)
    → Fits e
    → Fits f
    → IsDelimited e
    → IsDelimited f
    → entry_code e ≡ entry_code f
    → payload e ≡ payload f
    → e ≡ f
payload-injective e f he hf de df code bytes =
    cc (payload_read_back e he de, payload_read_back f hf df, code, bytes)

-- Moving bytes from the end of a function's name to the front of its code does not change the
-- payload of a CreateFn.
create_fn_ambiguous :
    (self_arg returns : TypeId) (by_ref : Bool) (name moved code : List ℕ)
    → payload (create_fn self_arg returns by_ref (name ++ moved) code)
      ≡ payload (create_fn self_arg returns by_ref name (moved ++ code))
unfolding payload
create_fn_ambiguous self_arg returns by_ref name moved code = simp append_assoc
