-- ===== src/Wal/Frame.antt =====
-- The outer `write_entry` of kobzar/src/q_engine/storage/wal.rs, which frames an entry in the log
-- file. The hash (blake2) and the buffered file (tokio) are parameters.
pub mod Laws
pub mod Read
use kobzar.Base.{
  ℕ, ◌+◌, ◌-◌, ◌%◌, ◌^◌, List, [], ◌∷◌, ◌++◌, Option, none, some, length, replicate, take, ◌≡◌,
}
use kobzar.Base.Bytes.{le_bytes}
use kobzar.Wal.Entry.{WalEntry, entry_code}
use kobzar.Wal.Payload.{entry_writes}

-- `blake2::Digest` with an output of 32 bytes: hashing by parts is hashing the whole.
pub record Digest : Type 1 where
  pub Hasher : Type 0
  pub new_hasher : Hasher
  pub feed : Hasher → List ℕ → Hasher
  pub finalize : Hasher → List ℕ
  pub feed-append : (h : Hasher) (a b : List ℕ) → feed (feed h a) b ≡ feed h (a ++ b)
  pub length-finalize : (h : Hasher) → length (finalize h) ≡ 32

-- `BufWriter<File>` opened for append. `contents` is the file with what the buffer holds behind it.
-- A write that fails may have written a part of its data.
pub record LogFile : Type 1 where
  pub File : Type 0
  pub IoError : Type 0
  pub contents : File → List ℕ
  pub write_all : File → List ℕ → File × Option IoError
  pub write_all_ok :
      (f : File) (bytes : List ℕ)
      → (write_all f bytes).1 ≡ none
      → contents (write_all f bytes).0 ≡ contents f ++ bytes
  pub write_all_torn :
      (f : File) (bytes : List ℕ)
      → (m : ℕ) × (contents (write_all f bytes).0 ≡ contents f ++ take m bytes)

-- `8 - (size % 8)`
abbrev pub padding : ℕ → ℕ
padding size = 8 - size % 8

module _ (d : Digest) where
  open d use {Hasher, new_hasher, feed, finalize}

  -- The first pass over the entry: `size += data.len(); hasher.update(data)`.
  unfoldable pub measure : ℕ → Hasher → List (List ℕ) → ℕ × Hasher
  measure size hasher [] = (size, hasher)
  measure size hasher (bytes ∷ writes) =
      measure ((size + length bytes) % 2 ^ 64) (feed hasher bytes) writes

  -- The writes of the second part of `write_entry`, in order.
  unfoldable pub frame_writes : ℕ → WalEntry → List (List ℕ)
  unfolding measure
  frame_writes tx entry =
      let kind_code = entry_code entry in
      let hasher = feed (feed new_hasher (le_bytes 8 tx)) (le_bytes 8 kind_code) in
      let (size, hasher') = measure (8 + 32 + 8 + 8) hasher (entry_writes entry) in
      le_bytes 8 size
      ∷ finalize hasher'
      ∷ le_bytes 8 tx
      ∷ le_bytes 8 kind_code
      ∷ (entry_writes entry ++ replicate (padding size) (0 ∷ []))

  module _ (io : LogFile) where
    open io use {File, IoError, write_all}

    -- `write_all(…).await?` for each: the first error ends it.
    unfoldable pub write_each : File → List (List ℕ) → File × Option IoError
    write_each f [] = (f, none)
    write_each f (bytes ∷ writes) =
        let (f', result) = write_all f bytes in
        elim result [ none ↦ write_each f' writes | some e ↦ (f', some e) ]

    unfoldable pub write_entry : File → ℕ → WalEntry → File × Option IoError
    unfolding write_each frame_writes
    write_entry f tx entry = write_each f (frame_writes tx entry)
