-- ===== src/Heap/Tests.antt =====
-- The heap at a file in memory, whose reader takes in all of it at once.
use kobzar.Base.{ℕ, ◌≡◌, refl, arith, List, [], ◌∷◌, replicate}
use kobzar.Base.Bytes.{of_le}
use kobzar.Base.Results.{ok}
use kobzar.Heap.Blob.{blob_from_bytes, BlobStorable, flagged}
use kobzar.Heap.Memory.{Memory, Unwritten, Ahead, memory, ahead_reader}
use kobzar.Heap.Read.{HeapRead, goto_record_at, read_blob_storable}
use kobzar.Heap.Stale.{read_blob_storable_stale}

-- A record behind three bytes: a bitmap of two bytes and a BLOB of 6 bytes at 5.
abbrev blob : BlobStorable
blob = flagged 5 6

abbrev at_start : Unwritten
at_start = record { bytes = 9 ∷ 9 ∷ 9 ∷ []; pending = 9 ∷ 9 ∷ 9 ∷ []; at = 3 }

abbrev with_bitmap : Unwritten
with_bitmap = record at_start { pending = 9 ∷ 9 ∷ 9 ∷ 1 ∷ 2 ∷ []; at = 5 }

abbrev with_blob : Memory
with_blob = record {
  bytes = 9 ∷ 9 ∷ 9 ∷ 1 ∷ 2 ∷ 5 ∷ 0 ∷ 0 ∷ 0 ∷ 0 ∷ 0 ∷ 0 ∷ 0 ∷ 6 ∷ 0 ∷ 0 ∷ 0 ∷ 0 ∷ 0 ∷ 0 ∷ 0 ∷ [];
  at = 21;
}

-- the record is still in the buffer
abbrev in_buffer : Unwritten
in_buffer = record at_start { pending = with_blob.bytes; at = 21 }

abbrev written_out : Unwritten
written_out = record in_buffer { bytes = with_blob.bytes }

abbrev opened : Ahead
opened = record { inner = record with_blob { at = 0 }; buf = [] }

abbrev reading : ℕ → List ℕ → HeapRead memory ahead_reader
reading at buf = record {
  reader = record { inner = record with_blob { at = at }; buf = buf };
  record_start = 3;
}

-- A reader that has read ahead.
abbrev used : HeapRead memory ahead_reader
used = record {
  reader = record { inner = record { bytes = replicate 40 7; at = 40 }; buf = replicate 16 0 };
  record_start = 0;
}

abbrev moved : HeapRead memory ahead_reader
moved = record {
  reader = record { inner = record { bytes = replicate 40 7; at = 20 }; buf = replicate 16 0 };
  record_start = 20;
}

abbrev stale : HeapRead memory ahead_reader
stale = record {
  reader = record { inner = record { bytes = replicate 40 7; at = 40 }; buf = replicate 20 7 };
  record_start = 20;
}

read_ahead : read_blob_storable memory ahead_reader moved ≡ (stale, ok (flagged 0 0))
unfolding read_blob_storable of_le
read_ahead = refl

read_blob_storable_stale_example :
    ◌≡◌ {A = BlobStorable} (flagged 0 0) (blob_from_bytes (replicate 16 0))
unfolding goto_record_at of_le
read_blob_storable_stale_example =
    read_blob_storable_stale memory ahead_reader used moved stale 20 (flagged 0 0) (omega arith)
      refl read_ahead
