-- ===== src/Query/Others.antt =====
-- The queries on indexes, functions and transactions, of kobzar/src/q_engine/query.rs.
use kobzar.Base.{ℕ, List, Bool, Option}
use kobzar.Engine.Db.{Generation, TransactionIsolation}
use kobzar.Wal.Entry.{TypeId, OrderIndexFieldCfg}
use kobzar.Query.Tables.{FieldIdx}

pub data IndexCfg : Type 0 where
  unique : (fields : List FieldIdx) → (none_is_unique : Bool) → IndexCfg
  order : List OrderIndexFieldCfg → IndexCfg
  equal : (fields : List FieldIdx) → IndexCfg

pub record CreateIndexQuery : Type 0 where
  pub table : TypeId
  pub variant_idx : Option FieldIdx
  pub index_name : List ℕ
  pub cfg : IndexCfg

pub record CommentIndexQuery : Type 0 where
  pub table : TypeId
  pub index_idx : FieldIdx
  pub comment : List ℕ

pub record RenameIndexQuery : Type 0 where
  pub table : TypeId
  pub index_idx : FieldIdx
  pub new_name : List ℕ

pub record DropIndexQuery : Type 0 where
  pub table : TypeId
  pub index_idx : FieldIdx

pub record CreateFnQuery : Type 0 where
  pub name : List ℕ
  pub self_arg : Option (Bool × TypeId)
  pub args : List TypeId
  pub ret : TypeId

pub record CommentFnQuery : Type 0 where
  pub name : List ℕ
  pub self_arg : Option TypeId
  pub comment : List ℕ

pub record RenameFnQuery : Type 0 where
  pub name : List ℕ
  pub self_arg : Option TypeId
  pub new_name : List ℕ

pub record DropFnQuery : Type 0 where
  pub name : List ℕ
  pub self_arg : Option TypeId

pub record StartTransactionQuery : Type 0 where
  pub isolation : TransactionIsolation

pub record CommitTransactionQuery : Type 0 where
  pub generation : Generation

pub record RollbackTransactionQuery : Type 0 where
  pub generation : Generation
