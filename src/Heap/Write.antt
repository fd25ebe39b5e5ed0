-- ===== src/Heap/Write.antt =====
-- `HeapWrite` of kobzar/src/q_engine/storage/heap.rs.
use kobzar.Base.{ℕ, ◌%◌, ◌^◌, List}
use kobzar.Base.Bytes.{le_bytes}
use kobzar.Base.Results.{Result, ok, err}
use kobzar.Heap.Blob.{BlobStorable}
use kobzar.Heap.File.{BufWriter}

module _ (w : BufWriter) where
  open w use {Buffered, IoError, write_all, seek, stream_position}

  -- `HeapWrite` is a wrapper of its writer.
  abbrev pub HeapWrite : Type 0
  HeapWrite = Buffered

  abbrev pub Done : Type 0
  Done = HeapWrite × Result IoError (Unit {0})

  abbrev pub and_then : Done → (HeapWrite → Done) → Done
  and_then (h, err e) next = (h, err e)
  and_then (h, ok _) next = next h

  -- `pos as HeapFileOffset`
  abbrev pub as_offset : HeapWrite × Result IoError ℕ → HeapWrite × Result IoError ℕ
  as_offset (h, err e) = (h, err e)
  as_offset (h, ok at) = (h, ok (at % 2 ^ 32))

  unfoldable pub position : HeapWrite → HeapWrite × Result IoError ℕ
  position h = as_offset (stream_position h)

  unfoldable pub move_to : HeapWrite → ℕ → Done
  move_to h offset = seek h offset

  unfoldable pub write_bitmap : HeapWrite → List ℕ → Done
  write_bitmap h bitmap = write_all h bitmap

  unfoldable pub write_adt_variant : HeapWrite → ℕ → Done
  write_adt_variant h variant = write_all h (le_bytes 4 variant)

  unfoldable pub write_blob_storable : HeapWrite → BlobStorable → Done
  write_blob_storable h blob =
      and_then (write_all h (le_bytes 8 blob.blob_offset))
        (λ h'. write_all h' (le_bytes 8 blob.blob_size))

  unfoldable pub write_inline : HeapWrite → List ℕ → Done
  write_inline h buf = write_all h buf

  unfoldable pub store_hash : HeapWrite → ℕ → Done
  store_hash h hash = write_all h (le_bytes 16 hash)

  unfoldable pub store_blob_offset : HeapWrite → ℕ → Done
  store_blob_offset h offset = write_all h (le_bytes 8 offset)
