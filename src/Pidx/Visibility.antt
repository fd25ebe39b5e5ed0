-- ===== src/Pidx/Visibility.antt =====
-- `VisibilityMapCalc` of kobzar/src/q_engine/storage/pidx.rs, for each number of lanes of the vectors.
-- A vector of lanes is the part of the array that it covers; `none` is a panic. What pulp's processors have
-- is a parameter: the number of lanes, the masks, and the cast of a mask to an array.
pub mod Bytes
pub mod Collect
pub mod Shown
use kobzar.Base.{
  ℕ, zero, suc, ◌+◌, ◌-◌, ◌*◌, ◌/◌, ◌%◌, ◌^◌, ◌<◌, ◌≤◌, ◌≡◌, ◌≢◌, refl, arith, map, length, ◌++◌,
  List, [], ◌∷◌, Bool, true, false, ◌&&◌, ltb, leb, if◌then◌else◌, ◌==◌, get_or, set, replicate,
  Option, none, some, ◌>>=◌, bit_and, bit_or,
}
use kobzar.Pidx.{Page, page_size_recs, page_size_bitmap}

-- The vectors of u64 of one processor. `mask` is the mask that comparisons and `and_m64s` make for these
-- lanes, `mask_size` the number of bytes of a mask, and `cast` is `bytemuck::cast` of a mask to `[u64; lanes]`,
-- which panics where the sizes differ. A mask of that size has all bits of a lane set or none; a smaller one,
-- such as the one byte of AVX-512, has a bit for a lane.
pub record Simd : Type 1 where
  pub lanes : ℕ
  pub Mask : Type 0
  pub mask_size : ℕ
  pub mask : List Bool → Mask
  pub cast : Mask → Option (List ℕ)
  pub cast_none : (m : Mask) → mask_size ≢ 8 * lanes → cast m ≡ none
  pub cast_mask :
      (bs : List Bool)
      → mask_size ≡ 8 * lanes
      → length bs ≡ lanes
      → cast (mask bs) ≡ some (map (λ b. if b then 18446744073709551615 else 0) bs)

-- `max >= x` and `min < x`
abbrev pub in_range : ℕ → ℕ → ℕ → Bool
in_range max min x = leb x max && ltb min x

module _ (page : Page) (x : ℕ) where
  -- `1 << (i % 8)` or 0, for the record `i`
  abbrev pub record_bit : ℕ → ℕ
  record_bit i = if in_range (get_or page.xmax i 0) (get_or page.xmin i 0) x then 2 ^ (i % 8) else 0

  -- the fallback loop from record `i` on
  unfoldable pub fallback_loop : ℕ → ℕ → List ℕ → List ℕ
  fallback_loop zero i bitmap = bitmap
  fallback_loop (suc n) i bitmap =
      fallback_loop n (i + 1) (set bitmap (i / 8) (bit_or (get_or bitmap (i / 8) 0) (record_bit i)))

  unfoldable pub fallback : List ℕ
  fallback = fallback_loop page_size_recs 0 (replicate page_size_bitmap 0)

  module _ (simd : Simd) where
    open simd use {lanes, mask, cast}

    -- The `n` lanes of `and(…)` from record `i` on. The variable `xmax` of the source holds `page.xmin`, and
    -- `xmin` holds `page.xmax`.
    abbrev pub compared : ℕ → ℕ → List Bool
    compared zero i = []
    compared (suc n) i =
        in_range (get_or page.xmin i 0) (get_or page.xmax i 0) x ∷ compared n (i + 1)

    -- the elements of `n` vectors from the vector `v` on
    unfoldable pub elements : ℕ → ℕ → Option (List ℕ)
    elements zero v = some []
    elements (suc n) v = cast (mask (compared lanes (lanes * v))) >>= λ first.
        elements n (v + 1) >>= λ rest. some (first ++ rest)

    -- `elements[k] as u8`
    abbrev pub element : List ℕ → ℕ → ℕ
    element es k = get_or es k 0 % 256

    -- the byte that eight elements are combined to
    abbrev pub lanes_byte : List ℕ → ℕ
    lanes_byte es =
        bit_or
          (bit_or
            (bit_or
              (bit_or
                (bit_or
                  (bit_or (bit_or (bit_and (element es 0) 1) (bit_and (element es 1) 2))
                    (bit_and (element es 2) 4))
                  (bit_and (element es 3) 8))
                (bit_and (element es 4) 16))
              (bit_and (element es 5) 32))
            (bit_and (element es 6) 64))
          (bit_and (element es 7) 128)

    -- Eight lanes: `map[i] = …` for `n` bytes from `i` on.
    unfoldable pub lanes8_from : ℕ → ℕ → Option (List ℕ)
    lanes8_from zero i = some []
    lanes8_from (suc n) i =
        elements 1 i >>= λ es. lanes8_from n (i + 1) >>= λ rest. some (lanes_byte es ∷ rest)

    -- 4 or 2 lanes: a round combines `8 / lanes` vectors from the vector `i` on, of which there are `vectors`,
    -- and goes on at the vector `i + 1`.
    unfoldable pub rounds : ℕ → ℕ → ℕ → List ℕ → Option (List ℕ)
    rounds vectors zero i bitmap = some bitmap
    rounds vectors (suc n) i bitmap =
        let per_byte = 8 / lanes in
        if ltb (i + (per_byte - 1)) vectors
        then (elements per_byte i >>= λ es.
            rounds vectors n (i + 1) (set bitmap (i / per_byte) (lanes_byte es)))
        else none

    unfoldable pub visibility_map : Option (List ℕ)
    visibility_map =
        if lanes == 8
        then lanes8_from page_size_bitmap 0
        else if lanes == 4
        then rounds (page_size_recs / 4) (page_size_bitmap * 2) 0 (replicate page_size_bitmap 0)
        else if lanes == 2
        then rounds (page_size_recs / 2) (page_size_bitmap * 4) 0 (replicate page_size_bitmap 0)
        else some fallback
