-- ===== src/Heap/Blob.antt =====
-- `BlobStorable`: an offset with flags in its high bits, and a size.
use kobzar.Base.{
  ℕ, ◌+◌, ◌-◌, ◌*◌, ◌/◌, ◌%◌, ◌^◌, ◌<◌, ◌≡◌, arith, List, Option, none, some, Bool, not, ◌==◌,
  if◌then◌else◌, bit_and, take, drop,
}
use kobzar.Base.Bits.{bit_and-shifted, bit_and-filled, bit_and-none}
use kobzar.Base.Bytes.{of_le}

pub record BlobStorable : Type 0 where
  pub blob_offset : ℕ
  pub blob_size : ℕ

abbrev pub flag_index_blob : ℕ
flag_index_blob = 2 ^ 63

abbrev pub flag_record_inline : ℕ
flag_record_inline = 2 ^ 62

unfoldable pub is_inline : BlobStorable → Bool
is_inline b = not (bit_and b.blob_offset flag_record_inline == 0)

unfoldable pub inline_offset : BlobStorable → Option ℕ
inline_offset b =
    if is_inline b then some (bit_and b.blob_offset (2 ^ 64 - 1 - flag_record_inline)) else none

unfoldable pub is_index_blob : BlobStorable → Bool
is_index_blob b = not (bit_and b.blob_offset flag_index_blob == 0)

unfoldable pub index_blob_offset : BlobStorable → Option ℕ
index_blob_offset b =
    if is_index_blob b then some (bit_and b.blob_offset (2 ^ 64 - 1 - flag_index_blob)) else none

-- the 16 bytes of `repr(C)`
abbrev pub blob_from_bytes : List ℕ → BlobStorable
blob_from_bytes bytes = record {
  blob_offset = of_le (take 8 bytes);
  blob_size = of_le (drop 8 bytes);
}

abbrev pub flagged : ℕ → ℕ → BlobStorable
flagged flags size = record { blob_offset = flags; blob_size = size }

-- an offset below the two flags `high`
flag_bits :
    (high offset x : ℕ)
    → offset < 2 ^ 62
    → x ≡ high * 2 ^ 62 + offset
    → (bit_and x flag_record_inline ≡ bit_and high 1 * 2 ^ 62)
      × (bit_and x flag_index_blob ≡ bit_and high 2 * 2 ^ 62)
      × (bit_and x (2 ^ 64 - 1 - flag_record_inline) ≡ bit_and high 2 * 2 ^ 62 + offset)
      × (bit_and x (2 ^ 64 - 1 - flag_index_blob) ≡ x % 2 ^ 63)
flag_bits high offset x h e =
    let d : x / 2 ^ 62 ≡ high = omega arith in
    let one : bit_and x flag_record_inline ≡ bit_and (x / 2 ^ 62) 1 * 2 ^ 62 =
      bit_and-shifted 62 x 1 in
    let two : bit_and x flag_index_blob ≡ bit_and (x / 2 ^ 62) 2 * 2 ^ 62 =
      bit_and-shifted 62 x 2 in
    let low : bit_and x (2 ^ 64 - 1 - flag_record_inline) + x / 2 ^ 62 * 2 ^ 62
        ≡ bit_and (x / 2 ^ 62) 2 * 2 ^ 62 + x =
      bit_and-filled 62 x 2 in
    let below : bit_and x (2 ^ 64 - 1 - flag_index_blob) + x / 2 ^ 63 * 2 ^ 63
        ≡ bit_and (x / 2 ^ 63) 0 * 2 ^ 63 + x =
      bit_and-filled 63 x 0 in
    (rw d at one, rw d at two, omega (arith, rw d at low), omega (arith, bit_and-none (x / 2 ^ 63)))

-- For an offset below 2 ^ 62, inline_offset and index_blob_offset give it back exactly under
-- their own flag and none without a flag or under the other one; where both flags are set,
-- inline_offset keeps the flag of the index.
blob_offset_cases :
    (offset size : ℕ)
    → offset < 2 ^ 62
    → (inline_offset (flagged (flag_record_inline + offset) size) ≡ some offset)
      × (index_blob_offset (flagged (flag_record_inline + offset) size) ≡ none)
      × (inline_offset (flagged (flag_index_blob + offset) size) ≡ none)
      × (index_blob_offset (flagged (flag_index_blob + offset) size) ≡ some offset)
      × (inline_offset (flagged offset size) ≡ none)
      × (index_blob_offset (flagged offset size) ≡ none)
      × (inline_offset (flagged (flag_index_blob + flag_record_inline + offset) size)
          ≡ some (flag_index_blob + offset))
unfolding is_inline inline_offset is_index_blob index_blob_offset
blob_offset_cases offset size h =
    let inline = flag_bits 1 offset (flag_record_inline + offset) h (omega arith) in
    let index = flag_bits 2 offset (flag_index_blob + offset) h (omega arith) in
    let plain = flag_bits 0 offset offset h (omega arith) in
    let both = flag_bits 3 offset (flag_index_blob + flag_record_inline + offset) h (omega arith) in
    (
      ground (arith, inline),
      ground (arith, inline),
      ground (arith, index),
      ground (arith, index),
      ground (arith, plain),
      ground (arith, plain),
      ground (arith, both),
    )
