-- ===== src/Wal/Tests/Full.antt =====
-- The log on a disk that runs full.
use kobzar.Base.{
  ℕ, ◌-◌, ◌≡◌, refl, arith, List, [], ◌∷◌, ◌++◌, take, take_all, none, some, length, leb,
  Bool-cases, Option, if◌then◌else◌, inl, inr,
}
use kobzar.Base.Bytes.{le_bytes}
use kobzar.Wal.Frame.{LogFile, write_entry}
use kobzar.Wal.Frame.Laws.{framed, write_entry_torn}
use kobzar.Wal.Tests.{checksum, na_field, na_field-IsWritable}

record Limited : Type 0 where
  bytes : List ℕ
  room : ℕ

-- A write that does not fit writes what fits, and fails.
abbrev limited_write : Limited → List ℕ → Limited × Option (Unit {0})
limited_write f bytes =
    if leb (length bytes) f.room
    then (record { bytes = f.bytes ++ bytes; room = f.room - length bytes }, none)
    else (record { bytes = f.bytes ++ take f.room bytes; room = 0 }, some tt)

limited_write_ok :
    (f : Limited) (bytes : List ℕ)
    → (limited_write f bytes).1 ≡ none
    → (limited_write f bytes).0.bytes ≡ f.bytes ++ bytes
limited_write_ok f bytes e = ground arith

limited_write_torn :
    (f : Limited) (bytes : List ℕ)
    → (m : ℕ) × ((limited_write f bytes).0.bytes ≡ f.bytes ++ take m bytes)
limited_write_torn f bytes = elim (Bool-cases (leb (length bytes) f.room)) [
  | inl fits ↦ (length bytes, rw (fits, take_all bytes (length bytes) (omega arith)) refl)
  | inr full ↦ (f.room, rw full refl)
]

abbrev limited : LogFile
limited = record {
  File = Limited;
  IoError = Unit {0};
  contents = λ f. f.bytes;
  write_all = limited_write;
  write_all_ok = limited_write_ok;
  write_all_torn = limited_write_torn;
}

-- room for the size of the entry and two bytes of its hash
abbrev almost_full : Limited
almost_full = record { bytes = 5 ∷ []; room = 10 }

fails : (write_entry checksum limited almost_full 7 na_field).1 ≡ some tt
unfolding write_entry le_bytes
fails = refl

write_entry_torn_example :
    (m : ℕ) × ((write_entry checksum limited almost_full 7 na_field).0.bytes
      ≡ (5 ∷ []) ++ take m (framed checksum 7 na_field))
write_entry_torn_example =
    write_entry_torn checksum limited almost_full 7 na_field na_field-IsWritable.size_fits
