-- ===== src/Pidx/Tests.antt =====
-- Pages and keys of the primary index on concrete values.
use kobzar.Base.{
  refl, [], ◌∷◌, ℕ, ◌+◌, ◌/◌, ◌%◌, ◌^◌, ◌<◌, ◌≡◌, ◌↔◌, ◌*◌, map, Bool, inl, if◌then◌else◌, arith,
  List, Option, false, replicate, some, none, get_or,
}
use kobzar.Base.Results.{ok}
use kobzar.Cache.Store.{load_from_disk}
use kobzar.Cache.Tests.{one_file}
use kobzar.Pidx.{Page, new}
use kobzar.Pidx.Loads.{load_from_disk-SameIndex}
use kobzar.Pidx.Keys.{
  Key, page_bound, in_page_offset, filename, pidx_keys, bound_keys, page_bound-in_page_offset,
}
use kobzar.Dt.{plain}
use kobzar.Wal.Names.{decimal}
use kobzar.Pidx.Visibility.{Simd, visibility_map}
use kobzar.Pidx.Visibility.Shown.{
  visibility_map-narrow, visibility_map-fallback, visibility_map-lanes8,
}

-- transaction 3 made all records, and transaction 9 deleted them
abbrev deleted : Page
deleted = record new { xmin = replicate 4096 3; xmax = replicate 4096 9 }

abbrev as_u64 : Bool → ℕ
as_u64 b = if b then 18446744073709551615 else 0

-- masks as wide as the vectors
abbrev full : ℕ → Simd
full n = record {
  lanes = n;
  Mask = List Bool;
  mask_size = 8 * n;
  mask = λ bs. bs;
  cast = λ bs. some (map as_u64 bs);
  cast_none = λ m other. absurd (other refl);
  cast_mask = λ bs size len. refl;
}

-- AVX-512: a mask is one byte
abbrev one_byte : Simd
one_byte = record {
  lanes = 8;
  Mask = List Bool;
  mask_size = 1;
  mask = λ bs. bs;
  cast = λ bs. none;
  cast_none = λ m other. refl;
  cast_mask = λ bs size len. absurd (omega arith);
}

visibility_map-narrow_example : visibility_map deleted 5 (full 4) ≡ none
visibility_map-narrow_example = visibility_map-narrow deleted 5 (full 4) (inl refl)

visibility_map-fallback_example :
    (bitmap : List ℕ) × (visibility_map deleted 5 (full 1) ≡ some bitmap)
    × ((get_or bitmap 1 0 / 2 ^ 3) % 2 ≡ 1)
visibility_map-fallback_example =
    visibility_map-fallback deleted 5 (full 1) 11 (omega arith) (omega arith) (omega arith)
      (omega arith)

visibility_map-lanes8_example :
    (bitmap : List ℕ) × (visibility_map deleted 5 (full 8) ≡ some bitmap)
    × ((get_or bitmap 1 0 / 2 ^ 3) % 2 ≡ 0)
visibility_map-lanes8_example = visibility_map-lanes8 deleted 5 (full 8) 11 refl refl (omega arith)

abbrev first : Key
first = record { type_id = 7; item = 4097; db = 0 }

abbrev second : Key
second = record { type_id = 7; item = 8191; db = 0 }

page_bound-in_page_offset_example :
    (page_bound (page_bound first) ≡ page_bound first)
    × (in_page_offset first < 4096)
    × ((page_bound first).item + in_page_offset first ≡ 4097)
    × ((page_bound first ≡ page_bound second)
        ↔ ((◌≡◌ {A = ℕ} 7 7 × ◌≡◌ {A = ℕ} 0 0) × ◌≡◌ {A = ℕ} 1 1))
    × ((filename (page_bound first) ≡ filename second) ↔ (◌≡◌ {A = ℕ} 7 7 × ◌≡◌ {A = ℕ} 0 0))
page_bound-in_page_offset_example =
    page_bound-in_page_offset first second (omega arith) (omega arith) (omega arith) (omega arith)

-- the type is written in decimal
file_of_first :
    pidx_keys.filename (record { type_id = plain 7; item = 0; db = 1 })
    ≡ b'p' ∷ b'i' ∷ b'd' ∷ b'x' ∷ b'-' ∷ b'1' ∷ b'-' ∷ b'2' ∷ b'3' ∷ b'0' ∷ b'5' ∷ b'8' ∷ b'4'
      ∷ b'3' ∷ b'0' ∷ b'0' ∷ b'9' ∷ b'2' ∷ b'1' ∷ b'3' ∷ b'6' ∷ b'9' ∷ b'3' ∷ b'9' ∷ b'5' ∷ b'9'
      ∷ b'.' ∷ b'i' ∷ b'd' ∷ b'x' ∷ []
unfolding filename decimal
file_of_first = refl

-- an item of the next page of the same index
abbrev on_next_page : Key
on_next_page = record { type_id = 7; item = 8192; db = 0 }

-- the bytes of a page, as the numbers of the transactions
abbrev page_of : List ℕ → Page
page_of bytes = record new { xmin = bytes }

abbrev index_file : Option (List ℕ)
index_file = some (1 ∷ 2 ∷ 3 ∷ 4 ∷ [])

load_run :
    (key : Key)
    → load_from_disk bound_keys Page one_file 2 page_of index_file key false
      ≡ (index_file, ok (page_of (1 ∷ 2 ∷ [])))
unfolding load_from_disk
load_run key = refl

load_from_disk-SameIndex_example : page_of (1 ∷ 2 ∷ []) ≡ page_of (1 ∷ 2 ∷ [])
load_from_disk-SameIndex_example =
    load_from_disk-SameIndex one_file 2 page_of index_file first on_next_page false false
      (refl, refl) (load_run (page_bound first)) (load_run (page_bound on_next_page))
