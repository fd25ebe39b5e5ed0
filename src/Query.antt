-- ===== src/Query.antt =====
-- `Query` of kobzar/src/q_engine/query.rs: the queries that contain queries, and the sum of all. A list of what
-- contains queries is a data type of its own.
pub mod Tables
pub mod Fields
pub mod Others
use kobzar.Base.{ℕ, List, Bool, Option}
use kobzar.Engine.Structs.{DataValue}
use kobzar.Wal.Entry.{TypeId}
use Tables.{
  FieldIdx, CreateTableQuery, CommentTableQuery, RenameTableQuery, CreateTableValidationQuery,
  CommentTableValidationQuery, RenameTableValidationQuery, DropTableValidationQuery, DropTableQuery,
  CreateAdtVariantQuery, CommentAdtVariantQuery, RenameAdtVariantQuery, DropAdtVariantQuery,
  BindSchemalessFieldQuery, UnbindSchemalessFieldQuery, CreateTableTriggerQuery,
  DropTableTriggerQuery,
}
use Fields.{
  CreateFieldTriggerQuery, DropFieldTriggerQuery, CreateFieldQuery, SetFieldDefaultQuery,
  SetFieldComputedQuery, SetFieldCheckQuery, SetFieldTransformQuery, CommentFieldQuery,
  RenameFieldQuery, DropFieldQuery,
}
use Others.{
  CreateIndexQuery, CommentIndexQuery, RenameIndexQuery, DropIndexQuery, CreateFnQuery,
  CommentFnQuery, RenameFnQuery, DropFnQuery, StartTransactionQuery, CommitTransactionQuery,
  RollbackTransactionQuery,
}

pub data UpsertKind : Type 0 where
  insert_or_update update_or_fail insert_or_fail : UpsertKind

module _ (Library : Type 0) where
  mutual
    pub data Query : Type 0 where
      upsert : UpsertQuery → Query
      delete : DeleteQuery → Query
      select : SelectQuery → Query
      create_table : CreateTableQuery → Query
      comment_table : CommentTableQuery → Query
      rename_table : RenameTableQuery → Query
      create_table_validation : CreateTableValidationQuery Library → Query
      comment_table_validation : CommentTableValidationQuery → Query
      rename_table_validation : RenameTableValidationQuery → Query
      drop_table_validation : DropTableValidationQuery → Query
      drop_table : DropTableQuery → Query
      create_adt_variant : CreateAdtVariantQuery → Query
      comment_adt_variant : CommentAdtVariantQuery → Query
      rename_adt_variant : RenameAdtVariantQuery → Query
      drop_adt_variant : DropAdtVariantQuery → Query
      bind_schemaless_field : BindSchemalessFieldQuery → Query
      unbind_schemaless_field : UnbindSchemalessFieldQuery → Query
      create_table_trigger : CreateTableTriggerQuery Library → Query
      drop_table_trigger : DropTableTriggerQuery → Query
      create_field_trigger : CreateFieldTriggerQuery Library → Query
      drop_field_trigger : DropFieldTriggerQuery → Query
      create_field : CreateFieldQuery → Query
      set_field_default : SetFieldDefaultQuery → Query
      set_field_computed : SetFieldComputedQuery Library → Query
      set_field_check : SetFieldCheckQuery Library → Query
      set_field_transform : SetFieldTransformQuery Library → Query
      comment_field : CommentFieldQuery → Query
      rename_field : RenameFieldQuery → Query
      drop_field : DropFieldQuery → Query
      create_index : CreateIndexQuery → Query
      comment_index : CommentIndexQuery → Query
      rename_index : RenameIndexQuery → Query
      drop_index : DropIndexQuery → Query
      create_fn : CreateFnQuery → Query
      comment_fn : CommentFnQuery → Query
      rename_fn : RenameFnQuery → Query
      drop_fn : DropFnQuery → Query
      start_transaction : StartTransactionQuery → Query
      commit_transaction : CommitTransactionQuery → Query
      rollback_transaction : RollbackTransactionQuery → Query

    pub data UpsertQuery : Type 0 where
      upsert_query :
          (table : TypeId)
          → (fields : FieldOps) → (kind : UpsertKind) → (returning : Option TypeId) → UpsertQuery

    pub data FieldOps : Type 0 where
      no_ops : FieldOps
      more_ops : FieldOp → FieldOps → FieldOps

    pub data FieldOp : Type 0 where
      field_op : (idx : FieldIdx) → (op : FieldOpType) → FieldOp

    pub data FieldOpType : Type 0 where
      set_constant : DataValue → FieldOpType
      set_from_query : Query → FieldOpType

    pub data DeleteQuery : Type 0 where
      delete_query :
          (table : TypeId) → (conditions : Conditions) → (returning : Option TypeId) → DeleteQuery

    pub data Conditions : Type 0 where
      no_conditions : Conditions
      more_conditions : Condition → Conditions → Conditions

    pub data Condition : Type 0 where
      range :
          (field : FieldIdx)
          → (min : Option (DataValue × Bool)) → (max : Option (DataValue × Bool)) → Condition
      in_query : (field : FieldIdx) → (query : Query) → (is_not : Bool) → Condition

    pub data SelectQuery : Type 0 where
      select_query :
          (table : TypeId) → (fields : List FieldIdx) → (conditions : Conditions) → SelectQuery
