-- ===== src/Schema/Tests.antt =====
-- The schema file in memory, and two sets of flags.
use kobzar.Base.{
  ℕ, ◌-◌, ◌/◌, ◌%◌, ◌^◌, ◌≡◌, refl, arith, List, ◌∷◌, ◌++◌, take, drop, replicate, bit_and, bit_or,
}
use kobzar.Base.Results.{ok}
use kobzar.Heap.Memory.{Ahead, memory, ahead_reader, ahead_seek}
use kobzar.Schema.{
  header_from_bytes, variant_from_bytes, field_from_bytes, bitor, bitand, complement,
}
use kobzar.Schema.Flags.{flags_cases}
use kobzar.Schema.Read.{goto_record_read, read_adt_variant, read_field, goto_record_read-fields}

flags_cases_example :
    (bitor 29 10 % 8 ≡ 5)
    × (bitor 29 10 / 8 ≡ bit_or 3 1)
    × (bitand 29 10 % 8 ≡ 0)
    × (bitand 29 10 / 8 ≡ bit_and 3 1)
    × (complement 29 % 8 ≡ 7)
    × (complement 29 / 8 ≡ 2 ^ 29 - 1 - 3)
flags_cases_example = flags_cases 29 10 (omega arith) (omega arith)

-- A header at 1, one variant and one field; the reader stands elsewhere and holds other bytes.
abbrev record_bytes : List ℕ
record_bytes = 9 ∷ (replicate 16 1 ++ (replicate 32 2 ++ replicate 80 3))

abbrev reader : Ahead
reader = record { inner = record { bytes = record_bytes; at = 100 }; buf = replicate 20 9 }

abbrev held : ℕ → Ahead
held n = record { inner = record { bytes = record_bytes; at = 129 }; buf = drop n record_bytes }

got_header :
    goto_record_read memory ahead_reader ahead_seek reader 1
    ≡ (held 17, ok (header_from_bytes (replicate 16 1)))
unfolding goto_record_read
got_header = refl

got_variant :
    read_adt_variant memory ahead_reader ahead_seek (held 17)
    ≡ (held 49, ok (variant_from_bytes (replicate 32 2)))
unfolding read_adt_variant
got_variant = refl

got_field :
    read_field memory ahead_reader ahead_seek (held 49)
    ≡ (held 129, ok (field_from_bytes (replicate 80 3)))
unfolding read_field
got_field = refl

goto_record_read-fields_example :
    (header_from_bytes (replicate 16 1) ≡ header_from_bytes (take 16 (drop 1 record_bytes)))
    × (variant_from_bytes (replicate 32 2) ≡ variant_from_bytes (take 32 (drop 17 record_bytes)))
    × (field_from_bytes (replicate 80 3) ≡ field_from_bytes (take 80 (drop 49 record_bytes)))
goto_record_read-fields_example =
    goto_record_read-fields memory ahead_reader ahead_seek reader (held 17) (held 49) (held 129) 1
      (header_from_bytes (replicate 16 1)) (variant_from_bytes (replicate 32 2))
      (field_from_bytes (replicate 80 3)) got_header got_variant got_field
