-- ===== src/Heap/Read.antt =====
-- `HeapRead` and `BlobFile::read` of kobzar/src/q_engine/storage/heap.rs. Opening the files is I/O.
use kobzar.Base.{ℕ, ◌==◌, List, if◌then◌else◌, length}
use kobzar.Base.Bytes.{of_le}
use kobzar.Base.Results.{Result, ok, err}
use kobzar.Heap.Blob.{BlobStorable, blob_from_bytes}
use kobzar.Heap.File.{RawFile, BufReader}

-- the result of a read, mapped
abbrev pub mapped : {S E A B : Type 0} → (A → B) → S × Result E A → S × Result E B
mapped f (s, err e) = (s, err e)
mapped f (s, ok a) = (s, ok (f a))

module _ (r : RawFile) where
  open r use {State, IoError, unexpected_eof, seek, read_exact}

  -- `cnt == buf.len()`, where a successful `read_exact` answers the count
  abbrev pub whole : {S : Type 0} → ℕ → S × Result IoError (List ℕ) → S × Result IoError (List ℕ)
  whole n (s, err e) = (s, err e)
  whole n (s, ok bytes) = if length bytes == n then (s, ok bytes) else (s, err unexpected_eof)

  -- `BlobFile::read`
  abbrev pub after_seek : ℕ → State × Result IoError (Unit {0}) → State × Result IoError (List ℕ)
  after_seek n (s, err e) = (s, err e)
  after_seek n (s, ok _) = whole n (read_exact s n)

  unfoldable pub blob_read : State → ℕ → ℕ → State × Result IoError (List ℕ)
  blob_read s offset n = after_seek n (seek s offset)

  module _ (b : BufReader r) where
    open b use {Buffered, file, get_mut, read}

    pub record HeapRead : Type 0 where
      pub reader : Buffered
      pub record_start : ℕ

    unfoldable pub new : Buffered → HeapRead
    new reader = record { reader = reader; record_start = 0 }

    abbrev pub through :
        {A : Type 0} → HeapRead → Buffered × Result IoError A → HeapRead × Result IoError A
    through h (b, result) = (record h { reader = b }, result)

    -- an operation on the file below the buffer
    abbrev pub below :
        {A : Type 0} → Buffered → State × Result IoError A → Buffered × Result IoError A
    below b (s, result) = (get_mut b s, result)

    abbrev pub started :
        HeapRead → ℕ → Buffered × Result IoError (Unit {0}) → HeapRead × Result IoError (Unit {0})
    started h offset (b, err e) = (record h { reader = b }, err e)
    started h offset (b, ok _) = (record h { reader = b; record_start = offset }, ok tt)

    unfoldable pub goto_record_at : HeapRead → ℕ → HeapRead × Result IoError (Unit {0})
    goto_record_at h offset = started h offset (below h.reader (seek (file h.reader) offset))

    unfoldable pub read_bitmap : HeapRead → ℕ → HeapRead × Result IoError (List ℕ)
    read_bitmap h n = through h (whole n (below h.reader (read_exact (file h.reader) n)))

    unfoldable pub adt_variant : HeapRead → HeapRead × Result IoError ℕ
    adt_variant h = through h (mapped of_le (read h.reader 4))

    unfoldable pub read_blob_storable : HeapRead → HeapRead × Result IoError BlobStorable
    read_blob_storable h = through h (mapped blob_from_bytes (read h.reader 16))

    unfoldable pub read_inline : HeapRead → ℕ → HeapRead × Result IoError (List ℕ)
    read_inline h n = through h (whole n (below h.reader (read_exact (file h.reader) n)))
