-- ===== src/Storage.antt =====
-- Records of kobzar/src/q_engine/storage.rs, storage/wal.rs and storage/code.rs that are stored or passed to
-- the storage engine, with the conversions of a record's header.
use kobzar.Base.{ℕ, List, ◌≡◌, refl}
use kobzar.Engine.Db.{Generation}

pub record HeapRecordInlineBlobId : Type 0 where
  pub db : ℕ
  pub datatype : ℕ
  pub offset : ℕ

pub record ChangeOp : Type 0 where
  pub idx : ℕ
  pub value : List ℕ

-- `code::IndexRecord`
pub record IndexRecord : Type 0 where
  pub fingerprint : ℕ
  pub compiled_checksum : ℕ
  pub raw_checksum : ℕ

-- The packed header as it stands in a file, and the header of a record in memory.
pub record RecHeaderStorable : Type 0 where
  pub xmin : Generation
  pub xmax : Generation
  pub next_version : ℕ
  pub prev_version : ℕ
  pub data_ptr : ℕ

pub record RecHeader : Type 0 where
  pub xmin : Generation
  pub xmax : Generation
  pub next_version : ℕ
  pub prev_version : ℕ
  pub data_ptr : ℕ

unfoldable pub of_storable : RecHeaderStorable → RecHeader
of_storable header = record {
  xmin = header.xmin;
  xmax = header.xmax;
  next_version = header.next_version;
  prev_version = header.prev_version;
  data_ptr = header.data_ptr;
}

unfoldable pub to_storable : RecHeader → RecHeaderStorable
to_storable header = record {
  xmin = header.xmin;
  xmax = header.xmax;
  next_version = header.next_version;
  prev_version = header.prev_version;
  data_ptr = header.data_ptr;
}

-- The two conversions undo each other.
of_storable-to_storable : (header : RecHeader) → of_storable (to_storable header) ≡ header
unfolding of_storable to_storable
of_storable-to_storable header = refl

to_storable-of_storable : (header : RecHeaderStorable) → to_storable (of_storable header) ≡ header
unfolding of_storable to_storable
to_storable-of_storable header = refl
