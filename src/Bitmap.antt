-- ===== src/Bitmap.antt =====
-- `BitmapEdit` of kobzar/src/q_engine/storage.rs: edits of a bitmap that are applied to a buffer of u64
-- words. `none` is an index out of range, which panics. A shift takes its amount modulo the width, as in
-- a release build.
pub mod Laws
mod Tests
use kobzar.Base.{
  ℕ, zero, suc, ◌+◌, ◌-◌, ◌*◌, ◌/◌, ◌%◌, ◌^◌, List, [], ◌∷◌, Option, none, some, ◌>>=◌, Bool, true,
  false, ltb, if◌then◌else◌, get_or, set as set_nth, length, replicate, bit_and, bit_or,
}

pub record BitmapEdit : Type 0 where
  pub bitmap : List ℕ
  pub mask : List ℕ

unfoldable pub new : ℕ → BitmapEdit
new bits = let len = bits / 64 + 1 in record { bitmap = replicate len 0; mask = replicate len 0 }

-- `!m`
abbrev pub not_u64 : ℕ → ℕ
not_u64 m = 2 ^ 64 - 1 - m

-- `((1 << size) - 1) << bit`
abbrev pub bit_mask : ℕ → ℕ → ℕ
bit_mask size bit = (2 ^ (size % 64) - 1) * 2 ^ (bit % 64) % 2 ^ 64

unfoldable pub set_inner : BitmapEdit → ℕ → ℕ → ℕ → ℕ → Option BitmapEdit
set_inner e word bit size value =
    let cleared = bit_and (get_or e.bitmap word 0) (not_u64 (bit_mask size bit)) in
    let written = bit_or cleared (value * 2 ^ (bit % 64) % 2 ^ 64) in
    if ltb word (length e.bitmap)
    then some (record e { bitmap = set_nth e.bitmap word written })
    else none

-- `size` and `value` are u8s.
unfoldable pub set : BitmapEdit → ℕ → ℕ → ℕ → Option BitmapEdit
set e offset size value =
    let word = offset / 64 in
    let bit = offset % 64 in
    let high = value / 2 ^ ((64 - bit) % 8) in
    let low = bit_and value (2 ^ ((64 - bit) % 8) - 1) in
    let both = set_inner e (word + 1) 0 ((size + bit) % 2 ^ 8 - 64) high >>= λ e'.
    set_inner e' word bit (64 - bit) low in
    let one = set_inner e word bit size value in if ltb 64 ((size + bit) % 2 ^ 8) then both else one

-- the loop of `apply_to` over the words
unfoldable pub apply_words : List ℕ → List ℕ → List ℕ → Option (List ℕ)
apply_words [] masks buf = some buf
apply_words (word ∷ words) [] buf = none
apply_words (word ∷ words) (m ∷ masks) [] = none
apply_words (word ∷ words) (m ∷ masks) (b ∷ buf) =
    apply_words words masks buf >>= λ rest. some (bit_or (bit_and b (not_u64 m)) word ∷ rest)

unfoldable pub apply_to : BitmapEdit → List ℕ → Option (List ℕ)
apply_to e buf = apply_words e.bitmap e.mask buf
