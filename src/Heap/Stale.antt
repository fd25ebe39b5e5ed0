-- ===== src/Heap/Stale.antt =====
-- Reads past the buffer: a record is read from what the buffer held before the move to it.
use kobzar.Base.{
  ℕ, ◌≤◌, ◌≡◌, ap, sym, ◌∙◌, arith, List, ◌++◌, length, take, min, take-length_append,
  take_append_short,
}
use kobzar.Base.Results.{ok}
use kobzar.Heap.Blob.{BlobStorable, blob_from_bytes}
use kobzar.Heap.File.{RawFile, BufReader}
use kobzar.Heap.Read.{HeapRead, goto_record_at, read_blob_storable}
use kobzar.Heap.Steps.{goto_record_at-Moved, mapped-ok}

-- the first bytes of a stream that starts with known bytes
pub take-stream :
    (xs ys bytes rest : List ℕ) (n : ℕ)
    → length bytes ≡ n
    → n ≤ length xs
    → xs ++ ys ≡ bytes ++ rest
    → bytes ≡ take n xs
take-stream xs ys bytes rest n size h e =
    let small : min n (length xs) ≡ n = omega arith in
    sym (take-length_append bytes rest) ∙ rw (size, ← e) (rw small at (take_append_short xs ys n))

module _ (r : RawFile) (b : BufReader r) where
  open b use {ahead, read_stream}

  -- A reader that holds at least 16 bytes ahead reads the next BLOB header out of these bytes,
  -- whatever record it went to before.
  pub read_blob_storable_stale :
      (h h₁ h₂ : HeapRead r b) (offset : ℕ) (blob : BlobStorable)
      → 16 ≤ length (ahead h.reader)
      → goto_record_at r b h offset ≡ (h₁, ok tt)
      → read_blob_storable r b h₁ ≡ (h₂, ok blob)
      → blob ≡ blob_from_bytes (take 16 (ahead h.reader))
  unfolding read_blob_storable
  read_blob_storable_stale h h₁ h₂ offset blob enough moved was_read =
      let (same_ahead, at, held, started) = goto_record_at-Moved r b h h₁ offset moved in
      let (bytes, read_bytes, same) = mapped-ok r b h₁ h₂ blob_from_bytes blob _ was_read in
      let (size, stream) = read_stream h₁.reader h₂.reader 16 bytes read_bytes in
      rw (← same, ← same_ahead)
        (ap blob_from_bytes
          (take-stream (ahead h₁.reader) _ bytes _ 16 size (rw same_ahead enough) stream))
