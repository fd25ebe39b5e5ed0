-- ===== src/Query/Tables.antt =====
-- The queries on tables, their validations, variants, bindings and triggers, of
-- kobzar/src/q_engine/query.rs.
use kobzar.Base.{ℕ, List, Option}
use kobzar.Engine.Structs.{SelfStructCall}
use kobzar.Wal.Entry.{TypeId, TableKind, TableStoreBehavior, TriggerExecKind}

abbrev pub FieldIdx : Type 0
FieldIdx = ℕ

pub record CreateTableQuery : Type 0 where
  pub name : List ℕ
  pub table_kind : TableKind
  pub store_behavior : TableStoreBehavior

pub record CommentTableQuery : Type 0 where
  pub table : TypeId
  pub comment : List ℕ

pub record RenameTableQuery : Type 0 where
  pub table : TypeId
  pub new_name : List ℕ

pub record CommentTableValidationQuery : Type 0 where
  pub table : TypeId
  pub validation_idx : FieldIdx
  pub comment : List ℕ

pub record RenameTableValidationQuery : Type 0 where
  pub table : TypeId
  pub validation_idx : FieldIdx
  pub new_name : List ℕ

pub record DropTableValidationQuery : Type 0 where
  pub table : TypeId
  pub validation_idx : FieldIdx

pub record DropTableQuery : Type 0 where
  pub table : TypeId

pub record CreateAdtVariantQuery : Type 0 where
  pub table : TypeId
  pub variant_name : List ℕ

pub record CommentAdtVariantQuery : Type 0 where
  pub table : TypeId
  pub variant_idx : FieldIdx
  pub comment : List ℕ

pub record RenameAdtVariantQuery : Type 0 where
  pub table : TypeId
  pub variant_idx : FieldIdx
  pub new_name : List ℕ

pub record DropAdtVariantQuery : Type 0 where
  pub table : TypeId
  pub variant_idx : FieldIdx

pub record BindSchemalessFieldQuery : Type 0 where
  pub table : TypeId
  pub field_name : List ℕ
  pub field_type : Option TypeId

pub record UnbindSchemalessFieldQuery : Type 0 where
  pub table : TypeId
  pub field_name : List ℕ
  pub field_type : Option TypeId

pub record DropTableTriggerQuery : Type 0 where
  pub table : TypeId
  pub kind : TriggerExecKind

module _ (Library : Type 0) where
  pub record CreateTableValidationQuery : Type 0 where
    pub table : TypeId
    pub name : List ℕ
    pub code : SelfStructCall Library

  pub record CreateTableTriggerQuery : Type 0 where
    pub table : TypeId
    pub kind : TriggerExecKind
    pub code : SelfStructCall Library
