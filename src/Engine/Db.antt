-- ===== src/Engine/Db.antt =====
-- `Db`, `Generation` and the transactions of kobzar/src/q_engine.rs.
pub mod Laws
use kobzar.Base.{
  ℕ, zero, suc, ◌+◌, ◌*◌, ◌/◌, ◌%◌, ◌^◌, ◌<◌, ◌≤◌, ◌≡◌, ◌≢◌, refl, ap, arith, List, [], ◌∷◌, All,
  Bool, true, false, ◌==◌,
}
use kobzar.Base.Bits.{bit_and-shifted}
use kobzar.Base.Bytes.{le_bytes}
use kobzar.Base.Maps.{Distinct}
use kobzar.Dt.{invalid, advance, is_build_in, is_custom, is_derived, is_option, discard_mask}
use kobzar.Engine.Ident.{IdentPath}
use kobzar.Engine.Registry.{Types}
use kobzar.Wal.Entry.{TypeId}

-- `Generation` is a wrapper of a u64.
abbrev pub Generation : Type 0
Generation = ℕ

unfoldable pub advance_generation : Generation → Generation
advance_generation g = (g + 1) % 2 ^ 64

unfoldable pub generation_to_le_bytes : Generation → List ℕ
generation_to_le_bytes g = le_bytes 8 g

pub data TransactionIsolation : Type 0 where
  read_committed guarded_read_committed point_of_time : TransactionIsolation

module _ (Library : Type 0) (same_name : Discrete IdentPath) where
  pub record TransactionLocal : Type 0 where
    pub isolation : TransactionIsolation
    pub types : Types Library same_name

  pub record Db : Type 0 where
    pub name : IdentPath
    pub last_type_id : TypeId
    pub last_generation : Generation
    pub types : Types Library same_name
    pub active_transactions : List (Generation × TransactionLocal)
    pub transaction_nesting : List (Generation × Generation)

  unfoldable pub new : IdentPath → Db
  new name = record {
    name = name;
    last_type_id = invalid;
    last_generation = 0;
    types = record { struct_names_to_id = []; types = [] };
    active_transactions = [];
    transaction_nesting = [];
  }

  unfoldable pub next_type_id : Db → Db × TypeId
  next_type_id db = let next = advance db.last_type_id in (record db { last_type_id = next }, next)

  -- the identifiers of `n` calls, the first call first
  abbrev pub issue : ℕ → Db → List TypeId
  issue zero db = []
  issue (suc n) db = (next_type_id db).1 ∷ issue n (next_type_id db).0
