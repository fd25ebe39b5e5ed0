-- ===== src/Pidx/Visibility/Collect.antt =====
-- The bytes that the fallback loop of `visibility_map` collects, kobzar/src/q_engine/storage/pidx.rs.
use kobzar.Base.{
  ℕ, zero, suc, ◌+◌, ◌-◌, ◌*◌, ◌/◌, ◌%◌, ◌^◌, ◌<◌, ◌≤◌, ◌≡◌, ◌≢◌, refl, arith, List, Bool, false,
  if◌then◌else◌, ◌==◌, get_or, replicate, bit_or, length, length-set, length-replicate, ◌⊎◌, ap,
  ◌∙◌, inl, inr, ==_iff,
}
use kobzar.Pidx.{Page, page_size_bitmap}
use kobzar.Pidx.Visibility.{in_range, record_bit, fallback_loop, fallback}
use kobzar.Pidx.Visibility.Bytes.{byte_at, get_or-replicate, get_or-set_or}

module _ (page : Page) (x : ℕ) where
  -- `xmin < x` and `x <= xmax`
  abbrev pub visible : ℕ → Bool
  visible i = in_range (get_or page.xmax i 0) (get_or page.xmin i 0) x

  -- what `n` rounds from record `i` on collect in the byte `j`
  abbrev collect : ℕ → ℕ → ℕ → ℕ → ℕ
  collect zero i j acc = acc
  collect (suc n) i j acc =
      collect n (i + 1) j (if (i / 8) == j then bit_or acc (record_bit page x i) else acc)

  fallback_loop-collect :
      (n i j : ℕ) (bitmap : List ℕ)
      → j < length bitmap
      → get_or (fallback_loop page x n i bitmap) j 0 ≡ collect n i j (get_or bitmap j 0)
  unfolding fallback_loop
  fallback_loop-collect zero i j bitmap lt = refl
  fallback_loop-collect (suc n) i j bitmap lt =
      fallback_loop-collect n (i + 1) j _ (rw length-set lt)
      ∙ ap (collect n (i + 1) j) (get_or-set_or (i / 8) (record_bit page x i) j bitmap lt)

  collect-outside : (n i j acc : ℕ) → (i + n ≤ 8 * j) ⊎ (8 * j + 8 ≤ i) → collect n i j acc ≡ acc
  collect-outside zero i j acc out = refl
  collect-outside (suc n) i j acc out =
      let no : ((i / 8) == j) ≡ false = elim out [
        | inl l ↦ let n : i / 8 ≢ j = omega arith in ground arith
        | inr r ↦ let n : i / 8 ≢ j = omega arith in ground arith
      ] in
      rw no (
        collect-outside n (i + 1) j acc
          (elim out [ inl l ↦ inl (omega arith) | inr r ↦ inr (omega arith) ]))

  collect-split :
      (a b n i j acc : ℕ) → n ≡ a + b → collect n i j acc ≡ collect b (i + a) j (collect a i j acc)
  collect-split zero b n i j acc e =
      let p : n ≡ b = omega arith in let q : i + 0 ≡ i = omega arith in rw (p, q) refl
  collect-split (suc a) b zero i j acc e = absurd (omega arith)
  collect-split (suc a) b (suc n) i j acc e =
      let q : i + suc a ≡ i + 1 + a = omega arith in
      rw q (collect-split a b n (i + 1) j _ (omega arith))

  collect-step :
      (n i j acc k : ℕ)
      → i ≡ 8 * j + k
      → k < 8
      → collect (suc n) i j acc
        ≡ collect n (8 * j + (k + 1)) j (bit_or acc (if visible (8 * j + k) then 2 ^ k else 0))
  collect-step n i j acc k e lt =
      let p : (8 * j + k) / 8 ≡ j = omega arith in
      let q : (8 * j + k) % 8 ≡ k = omega arith in
      let r : 8 * j + k + 1 ≡ 8 * j + (k + 1) = omega arith in
      rw (e, p, q, r, (==_iff j j).1 refl) refl

  collect-eight : (j : ℕ) → collect 8 (8 * j) j 0 ≡ byte_at visible j
  collect-eight j =
      collect-step 7 (8 * j) j 0 0 (omega arith) (omega arith)
      ∙ collect-step 6 (8 * j + 1) j _ 1 refl (omega arith)
      ∙ collect-step 5 (8 * j + 2) j _ 2 refl (omega arith)
      ∙ collect-step 4 (8 * j + 3) j _ 3 refl (omega arith)
      ∙ collect-step 3 (8 * j + 4) j _ 4 refl (omega arith)
      ∙ collect-step 2 (8 * j + 5) j _ 5 refl (omega arith)
      ∙ collect-step 1 (8 * j + 6) j _ 6 refl (omega arith)
      ∙ collect-step 0 (8 * j + 7) j _ 7 refl (omega arith)

  pub fallback-byte_at :
      (j : ℕ) → j < page_size_bitmap → get_or (fallback page x) j 0 ≡ byte_at visible j
  unfolding fallback
  fallback-byte_at j lt =
      fallback_loop-collect 4096 0 j (replicate 512 0) (rw length-replicate lt)
      ∙ ap (collect 4096 0 j) (get_or-replicate 512 j)
      ∙ collect-split (8 * j) (4096 - 8 * j) 4096 0 j 0 (omega arith)
      ∙ collect-split 8 (4088 - 8 * j) (4096 - 8 * j) (0 + 8 * j) j _ (omega arith)
      ∙ collect-outside (4088 - 8 * j) (0 + 8 * j + 8) j _ (inr (omega arith))
      ∙ ap (collect 8 (0 + 8 * j) j) (collect-outside (8 * j) 0 j 0 (inl (omega arith)))
      ∙ (let q : 0 + 8 * j ≡ 8 * j = omega arith in rw q (collect-eight j))
