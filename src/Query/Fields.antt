-- ===== src/Query/Fields.antt =====
-- The queries on fields, of kobzar/src/q_engine/query.rs. The index of a variant is missing where the table is
-- no ADT.
use kobzar.Base.{ℕ, List, Option}
use kobzar.Engine.Structs.{DataValue, SelfStructCall, FieldTransformCall, FieldValidationCall}
use kobzar.Wal.Entry.{TypeId, TriggerExecKind}
use kobzar.Query.Tables.{FieldIdx}

pub record DropFieldTriggerQuery : Type 0 where
  pub table : TypeId
  pub variant_idx : Option FieldIdx
  pub field_idx : FieldIdx
  pub kind : TriggerExecKind

pub record CreateFieldQuery : Type 0 where
  pub table : TypeId
  pub variant_idx : Option FieldIdx
  pub field_name : List ℕ
  pub field_type : TypeId

pub record SetFieldDefaultQuery : Type 0 where
  pub table : TypeId
  pub variant_idx : Option FieldIdx
  pub field_idx : FieldIdx
  pub default : Option DataValue

pub record CommentFieldQuery : Type 0 where
  pub table : TypeId
  pub variant_idx : Option FieldIdx
  pub field_idx : FieldIdx
  pub comment : List ℕ

pub record RenameFieldQuery : Type 0 where
  pub table : TypeId
  pub variant_idx : Option FieldIdx
  pub field_idx : FieldIdx
  pub new_name : List ℕ

pub record DropFieldQuery : Type 0 where
  pub table : TypeId
  pub variant_idx : Option FieldIdx
  pub field_idx : FieldIdx

module _ (Library : Type 0) where
  pub record CreateFieldTriggerQuery : Type 0 where
    pub table : TypeId
    pub variant_idx : Option FieldIdx
    pub field_idx : FieldIdx
    pub kind : TriggerExecKind
    pub code : FieldTransformCall Library

  pub record SetFieldComputedQuery : Type 0 where
    pub table : TypeId
    pub variant_idx : Option FieldIdx
    pub field_idx : FieldIdx
    pub code : SelfStructCall Library

  pub record SetFieldCheckQuery : Type 0 where
    pub table : TypeId
    pub variant_idx : Option FieldIdx
    pub field_idx : FieldIdx
    pub code : FieldValidationCall Library

  pub record SetFieldTransformQuery : Type 0 where
    pub table : TypeId
    pub variant_idx : Option FieldIdx
    pub field_idx : FieldIdx
    pub code : FieldTransformCall Library
