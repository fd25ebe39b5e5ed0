-- ===== src/Engine/Structs.antt =====
-- The structures of a schema, kobzar/src/q_engine.rs and ffi.rs. The libraries that code is compiled to are
-- those of the crate libloading, a parameter. Texts are lists of their bytes; a map is an association list.
use kobzar.Base.{ℕ, List, [], Option, none}
use kobzar.Wal.Entry.{TypeId}
use kobzar.Base.Results.{Result, ok}
use kobzar.Engine.Ident.{IdentPath}

-- `ffi::Raw`
pub record Raw : Type 0 where
  pub text : List ℕ

pub record FieldValidationCode : Type 0 where
  pub field_type : TypeId
  pub code : Raw

pub record DataValue : Type 0 where
  pub bytes : List ℕ

module _ (Library : Type 0) where
  pub record SelfStructCall : Type 0 where
    pub lib : Library

  pub record FieldValidationCall : Type 0 where
    pub lib : Library

  -- `FieldValidationCall::call`, a placeholder in the source, which accepts every value
  unfoldable pub call : FieldValidationCall → DataValue → Result (List ℕ) DataValue
  call _ field_value = ok field_value

  pub record FieldTransformCall : Type 0 where
    pub lib : Library

  pub record StructTriggers : Type 0 where
    pub before_insert : Option SelfStructCall
    pub after_insert : Option SelfStructCall
    pub before_update : Option SelfStructCall
    pub after_update : Option SelfStructCall
    pub before_delete : Option SelfStructCall
    pub after_delete : Option SelfStructCall

  pub record FieldCfg : Type 0 where
    pub comment : List ℕ
    pub validation : Option FieldValidationCode
    pub trigger_before_insert : Option FieldTransformCall
    pub trigger_before_update : Option FieldTransformCall
    pub trigger_before_delete : Option FieldTransformCall
    pub trigger_after_insert : Option FieldTransformCall
    pub trigger_after_update : Option FieldTransformCall
    pub trigger_after_delete : Option FieldTransformCall
    pub default_value : Option DataValue

  pub record Field : Type 0 where
    pub name : IdentPath
    pub ty : TypeId
    pub cfg : FieldCfg

  pub record SchemafullTable : Type 0 where
    pub fields : List Field

  pub record AdtTable : Type 0 where
    pub variants : List (List ℕ × List Field)

  pub record SchemalessTable : Type 0 where
    pub fields : List FieldCfg
    pub bound_to_types : List (List ℕ × List TypeId)
    pub field_to_idx : List ((List ℕ × Option TypeId) × ℕ)

  pub record SchemafullSchemalessTable : Type 0 where
    pub fields : List FieldCfg
    pub fixed : List (List ℕ × (TypeId × ℕ))
    pub bound_to_types : List (List ℕ × List TypeId)
    pub bound_to_idx : List ((List ℕ × Option TypeId) × ℕ)

  pub record SchemafullAdtSchemalessTable : Type 0 where
    pub variants : List (List ℕ × List Field)
    pub bound_fields : List FieldCfg
    pub fixed : List (List ℕ × (TypeId × ℕ))
    pub bound_to_types : List (List ℕ × List TypeId)

  pub data StructSpec : Type 0 where
    schemafull_table : SchemafullTable → StructSpec
    adt_table : AdtTable → StructSpec
    schemaless_table : SchemalessTable → StructSpec
    schemafull_schemaless_table : SchemafullSchemalessTable → StructSpec
    schemafull_adt_schemaless_table : SchemafullAdtSchemalessTable → StructSpec

  pub record Struct : Type 0 where
    pub triggers : StructTriggers
    pub comment : List ℕ
    pub spec : StructSpec

  abbrev pub no_triggers : StructTriggers
  no_triggers = record {
    before_insert = none;
    after_insert = none;
    before_update = none;
    after_update = none;
    before_delete = none;
    after_delete = none;
  }

  unfoldable pub new_struct : StructSpec → Struct
  new_struct spec = record { triggers = no_triggers; comment = []; spec = spec }

  pub record GenericInstance : Type 0 where
    pub generic_type : TypeId
    pub type_params : List TypeId

  pub data TypeKind : Type 0 where
    struct : Struct → TypeKind
    tuple : List TypeId → TypeKind
    generic_instance : GenericInstance → TypeKind
