-- ===== src/Heap/Trip.antt =====
-- What `HeapWrite` writes is what a new `HeapRead` reads.
use kobzar.Base.{ℕ, ◌+◌, ◌-◌, ◌≡◌, List, ◌++◌, length, take, replicate}
use kobzar.Base.Bytes.{le_bytes}
use kobzar.Heap.Blob.{BlobStorable}
use kobzar.Heap.File.{BufWriter}

-- the part of a file before a write
abbrev front : List ℕ → ℕ → List ℕ
front content at = take at (content ++ replicate (at - length content) 0)

module _ (w : BufWriter) where
  open w use {Buffered, IoError, written, cursor, write_all, write_ok, stream_position, position_ok}

  -- the file holds `before`, then what was written since, and the cursor stands behind it
  abbrev Wrote : List ℕ → List ℕ → Buffered → Type 0
  Wrote before bytes h =
      (after : List ℕ) × (written h ≡ before ++ (bytes ++ after))
      × (cursor h ≡ length before + length bytes)

  -- a record: where it stands, its bitmap and its BLOB
  abbrev blob_bytes : BlobStorable → List ℕ
  blob_bytes blob = le_bytes 8 blob.blob_offset ++ le_bytes 8 blob.blob_size
