-- ===== src/Pidx/Visibility/Shown.antt =====
-- `visibility_map` of kobzar/src/q_engine/storage/pidx.rs, bit by bit.
use kobzar.Base.{
  ℕ, zero, suc, ◌+◌, ◌-◌, ◌*◌, ◌/◌, ◌%◌, ◌^◌, ◌<◌, ◌≤◌, ◌≡◌, ◌≢◌, refl, arith, List, [], ◌∷◌, ◌++◌,
  map, Bool, false, ◌&&◌, ltb, leb, if◌then◌else◌, ◌==◌, get_or, none, some, bit_or, length,
  Bool-cases, Option-cases, ◌⊎◌, ap, ap₂, ◌∙◌, inl, inr, ltb→lt,
}
use kobzar.Pidx.{Page, page_size_recs, page_size_bitmap}
use kobzar.Pidx.Visibility.{
  Simd, in_range, fallback, compared, elements, lanes_byte, lanes8_from, rounds, visibility_map,
}
use kobzar.Pidx.Visibility.Bytes.{to_u8, byte, byte_at, bit-byte_at, masked_first, masked}
use kobzar.Pidx.Visibility.Collect.{visible, fallback-byte_at}

module _ (page : Page) (x : ℕ) (simd : Simd) where
  open simd use {lanes, mask_size, mask, cast, cast_none, cast_mask}

  -- Fewer than eight lanes: a round behind the last whole byte panics.
  rounds_panic :
      (vectors n i : ℕ) (bitmap : List ℕ)
      → i < vectors
      → i + n ≡ vectors
      → 2 ≤ 8 / lanes
      → rounds page x simd vectors n i bitmap ≡ none
  unfolding rounds
  rounds_panic vectors zero i bitmap lt total narrow = absurd (omega arith)
  rounds_panic vectors (suc n) i bitmap lt total narrow =
      elim (Bool-cases (ltb (i + (8 / lanes - 1)) vectors)) [
        | inr f ↦ rw f refl
        | inl t ↦
            let inside = ltb→lt (i + (8 / lanes - 1)) vectors t in
            elim (Option-cases (elements page x simd (8 / lanes) i)) [
              | inl failed ↦ rw (t, failed) refl
              | inr (es, cast_to) ↦
                  rw (t, cast_to)
                    (rounds_panic vectors n (i + 1) _ (omega arith) (omega arith) narrow)
            ]
      ]

  -- With 4 or 2 lanes, visibility_map panics for every page and transaction, whatever the masks.
  pub visibility_map-narrow : (lanes ≡ 4) ⊎ (lanes ≡ 2) → visibility_map page x simd ≡ none
  unfolding visibility_map
  visibility_map-narrow (inl four) =
      rw four (rounds_panic 1024 1024 0 _ (omega arith) (omega arith) (rw four (omega arith)))
  visibility_map-narrow (inr two) =
      rw two (rounds_panic 2048 2048 0 _ (omega arith) (omega arith) (rw two (omega arith)))

module _ (page : Page) (x : ℕ) where
  -- `xmax < x` and `x <= xmin`, which the vectors compare
  abbrev pub swapped : ℕ → Bool
  swapped i = in_range (get_or page.xmin i 0) (get_or page.xmax i 0) x

  abbrev as_u64 : Bool → ℕ
  as_u64 b = if b then 18446744073709551615 else 0

  compared-eight :
      (simd : Simd) (i : ℕ)
      → compared page x simd 8 i
        ≡ swapped (i + 0)
          ∷ swapped (i + 1)
          ∷ swapped (i + 2)
          ∷ swapped (i + 3)
          ∷ swapped (i + 4)
          ∷ swapped (i + 5)
          ∷ swapped (i + 6)
          ∷ swapped (i + 7)
          ∷ []
  compared-eight simd i =
      let q0 : i + 0 ≡ i = omega arith in
      let q1 : i + 1 + 1 ≡ i + 2 = omega arith in
      let q2 : i + 2 + 1 ≡ i + 3 = omega arith in
      let q3 : i + 3 + 1 ≡ i + 4 = omega arith in
      let q4 : i + 4 + 1 ≡ i + 5 = omega arith in
      let q5 : i + 5 + 1 ≡ i + 6 = omega arith in
      let q6 : i + 6 + 1 ≡ i + 7 = omega arith in rw (q0, q1, q2, q3, q4, q5, q6) refl

  -- the byte for eight truth values
  lanes_byte-byte :
      (simd : Simd) (a b c d e f g h : Bool)
      → lanes_byte page x simd (map as_u64 (a ∷ b ∷ c ∷ d ∷ e ∷ f ∷ g ∷ h ∷ []) ++ [])
        ≡ byte a b c d e f g h
  lanes_byte-byte simd a b c d e f g h =
      ap₂ bit_or
        (ap₂ bit_or
          (ap₂ bit_or
            (ap₂ bit_or
              (ap₂ bit_or
                (ap₂ bit_or (ap₂ bit_or (masked_first a) (masked 2 b refl refl))
                  (masked 4 c refl refl))
                (masked 8 d refl refl))
              (masked 16 e refl refl))
            (masked 32 f refl refl))
          (masked 64 g refl refl))
        (masked 128 h refl refl)

  lanes_byte-byte_at :
      (simd : Simd) (j : ℕ)
      → lanes_byte page x simd (map as_u64 (compared page x simd 8 (8 * j)) ++ [])
        ≡ byte_at swapped j
  lanes_byte-byte_at simd j =
      ap (λ bs. lanes_byte page x simd (map as_u64 bs ++ [])) (compared-eight simd (8 * j))
      ∙ lanes_byte-byte simd _ _ _ _ _ _ _ _

  -- the bytes of `n` rounds from `i` on
  abbrev bytes_from : ℕ → ℕ → List ℕ
  bytes_from zero i = []
  bytes_from (suc n) i = byte_at swapped i ∷ bytes_from n (i + 1)

  get_or-bytes_from : (n i j : ℕ) → j < n → get_or (bytes_from n i) j 0 ≡ byte_at swapped (i + j)
  get_or-bytes_from zero i j lt = absurd (omega arith)
  get_or-bytes_from (suc n) i zero lt = let q : i + 0 ≡ i = omega arith in rw q refl
  get_or-bytes_from (suc n) i (suc j) lt =
      let q : i + suc j ≡ i + 1 + j = omega arith in
      rw q (get_or-bytes_from n (i + 1) j (omega arith))

  length-compared : (simd : Simd) (n i : ℕ) → length (compared page x simd n i) ≡ n
  length-compared simd zero i = refl
  length-compared simd (suc n) i = ap suc (length-compared simd n (i + 1))

  elements-full :
      (simd : Simd) (v : ℕ)
      → simd.lanes ≡ 8
      → simd.mask_size ≡ 64
      → elements page x simd 1 v ≡ some (map as_u64 (compared page x simd 8 (8 * v)) ++ [])
  unfolding elements
  elements-full simd v eight full =
      let made =
        simd.cast_mask (compared page x simd simd.lanes (simd.lanes * v)) (omega arith)
          (length-compared simd simd.lanes (simd.lanes * v)) in
      let same : compared page x simd simd.lanes (simd.lanes * v) ≡ compared page x simd 8 (8 * v) =
        ap (λ l. compared page x simd l (l * v)) eight in
      rw made (ap (λ bs. some (map as_u64 bs ++ [])) same)

  lanes8_from-some :
      (simd : Simd) (n i : ℕ)
      → simd.lanes ≡ 8
      → simd.mask_size ≡ 64
      → lanes8_from page x simd n i ≡ some (bytes_from n i)
  unfolding lanes8_from
  lanes8_from-some simd zero i eight full = refl
  lanes8_from-some simd (suc n) i eight full =
      rw (elements-full simd i eight full, lanes8_from-some simd n (i + 1) eight full)
        (ap (λ b. some (b ∷ bytes_from n (i + 1))) (lanes_byte-byte_at simd i))

  -- With neither 8 nor 4 nor 2 lanes, the visibility map has the bit of a record of the page set
  -- exactly where xmin is less than the transaction and xmax is not.
  pub visibility_map-fallback :
      (simd : Simd) (i : ℕ)
      → simd.lanes ≢ 8
      → simd.lanes ≢ 4
      → simd.lanes ≢ 2
      → i < page_size_recs
      → (bitmap : List ℕ) × (visibility_map page x simd ≡ some bitmap)
        × ((get_or bitmap (i / 8) 0 / 2 ^ (i % 8)) % 2
            ≡ to_u8 (leb x (get_or page.xmax i 0) && ltb (get_or page.xmin i 0) x))
  unfolding visibility_map
  visibility_map-fallback simd i n₈ n₄ n₂ lt =
      let f₈ : (simd.lanes == 8) ≡ false = ground arith in
      let f₄ : (simd.lanes == 4) ≡ false = ground arith in
      let f₂ : (simd.lanes == 2) ≡ false = ground arith in
      (
        fallback page x,
        rw (f₈, f₄, f₂) refl,
        rw (fallback-byte_at page x (i / 8) (omega arith)) (bit-byte_at (visible page x) i),
      )

  visibility_map-eight :
      (simd : Simd)
      → simd.lanes ≡ 8
      → visibility_map page x simd ≡ lanes8_from page x simd page_size_bitmap 0
  unfolding visibility_map
  visibility_map-eight simd eight = rw eight refl

  -- With 8 lanes and masks of 64 bytes, the visibility map has the bit of a record of the page
  -- set exactly where xmax is less than the transaction and xmin is not: the two are swapped.
  pub visibility_map-lanes8 :
      (simd : Simd) (i : ℕ)
      → simd.lanes ≡ 8
      → simd.mask_size ≡ 64
      → i < page_size_recs
      → (bitmap : List ℕ) × (visibility_map page x simd ≡ some bitmap)
        × ((get_or bitmap (i / 8) 0 / 2 ^ (i % 8)) % 2
            ≡ to_u8 (leb x (get_or page.xmin i 0) && ltb (get_or page.xmax i 0) x))
  visibility_map-lanes8 simd i eight full lt = (
    bytes_from page_size_bitmap 0,
    visibility_map-eight simd eight ∙ lanes8_from-some simd 512 0 eight full,
    rw (get_or-bytes_from 512 0 (i / 8) (omega arith), q) (bit-byte_at swapped i),
  )
    where
      q : 0 + i / 8 ≡ i / 8
      q = omega arith
