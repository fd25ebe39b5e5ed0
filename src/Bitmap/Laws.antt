-- ===== src/Bitmap/Laws.antt =====
-- `apply_to` after calls of `set`, kobzar/src/q_engine/storage.rs.
use kobzar.Base.{
  ℕ, ◌+◌, ◌-◌, ◌/◌, ◌%◌, ◌^◌, ◌≡◌, ◌≤◌, refl, arith, List, [], ◌∷◌, Option, none, some, ◌>>=◌, ltb,
  Bool-cases, Option-cases, inl, inr, length, replicate, bit_and, bit_or, length-set,
  length-replicate,
}
use kobzar.Bitmap.{BitmapEdit, new, set_inner, set, apply_words, apply_to}

-- one call of `set`: offset, size and value
abbrev pub Edit : Type 0
Edit = ℕ × ℕ × ℕ

abbrev pub run : BitmapEdit → List Edit → Option BitmapEdit
run e [] = some e
run e ((offset, size, value) ∷ edits) = set e offset size value >>= λ e'. run e' edits

-- as long as it was made, and with an empty mask
abbrev IsUnmasked : ℕ → BitmapEdit → Type 0
IsUnmasked n e = (length e.bitmap ≡ n) × (e.mask ≡ replicate n 0)

some_injective : {a b : BitmapEdit} → Path (Option BitmapEdit) (some a) (some b) → a ≡ b
some_injective h = cc (h)

none-ne_some : {a : BitmapEdit} → Path (Option BitmapEdit) none (some a) → ⊥
none-ne_some h = cc (h)

set_inner-IsUnmasked :
    (n : ℕ) (e : BitmapEdit) (word bit size value : ℕ) {e' : BitmapEdit}
    → set_inner e word bit size value ≡ some e'
    → IsUnmasked n e
    → IsUnmasked n e'
unfolding set_inner
set_inner-IsUnmasked n e word bit size value {e'} h (l, m) =
    elim (Bool-cases (ltb word (length e.bitmap))) [
      | inl t ↦ let same = some_injective (rw t at h) in rw (← same) (rw length-set l, m)
      | inr f ↦ absurd (none-ne_some (rw f at h))
    ]

-- the first call of `set_inner` for a value that crosses a word
abbrev high_part : BitmapEdit → ℕ → ℕ → ℕ → Option BitmapEdit
high_part e offset size value =
    set_inner e (offset / 64 + 1) 0 ((size + offset % 64) % 2 ^ 8 - 64)
      (value / 2 ^ ((64 - offset % 64) % 8))

set-IsUnmasked :
    (n : ℕ) (e : BitmapEdit) (offset size value : ℕ) {e' : BitmapEdit}
    → set e offset size value ≡ some e'
    → IsUnmasked n e
    → IsUnmasked n e'
unfolding set
set-IsUnmasked n e offset size value {e'} h u =
    elim (Bool-cases (ltb 64 ((size + offset % 64) % 2 ^ 8))) [
      | inr f ↦ set_inner-IsUnmasked n e _ _ _ _ (rw f at h) u
      | inl t ↦ elim (Option-cases (high_part e offset size value)) [
        | inl o ↦ absurd (none-ne_some (rw o at (rw t at h)))
        | inr (e₁, o) ↦
            set_inner-IsUnmasked n e₁ _ _ _ _ (rw o at (rw t at h))
              (set_inner-IsUnmasked n e _ _ _ _ o u)
      ]
    ]

-- each word of the edit is added to the buffer's word
abbrev pub or_words : List ℕ → List ℕ → List ℕ
or_words [] buf = buf
or_words (word ∷ words) [] = []
or_words (word ∷ words) (b ∷ buf) = bit_or (bit_and b (2 ^ 64 - 1)) word ∷ or_words words buf

apply_words-unmasked :
    (words buf : List ℕ)
    → length words ≤ length buf
    → apply_words words (replicate (length words) 0) buf ≡ some (or_words words buf)
unfolding apply_words
apply_words-unmasked [] buf le = refl
apply_words-unmasked (word ∷ words) [] le = absurd (omega arith)
apply_words-unmasked (word ∷ words) (b ∷ buf) le =
    rw (apply_words-unmasked words buf (omega arith)) refl

run-IsUnmasked :
    (n : ℕ) (e : BitmapEdit) (edits : List Edit) {e' : BitmapEdit}
    → run e edits ≡ some e'
    → IsUnmasked n e
    → IsUnmasked n e'
run-IsUnmasked n e [] h u = let same = some_injective h in rw (← same) u
run-IsUnmasked n e ((offset, size, value) ∷ edits) h u =
    elim (Option-cases (set e offset size value)) [
      | inl o ↦ absurd (none-ne_some (rw o at h))
      | inr (e₁, o) ↦
          run-IsUnmasked n e₁ edits (rw o at h) (set-IsUnmasked n e offset size value o u)
    ]

-- After any calls of set that do not panic, applying the edit to a buffer that is long enough
-- succeeds and combines each word of the edit with the whole old word by or, since the mask stays
-- empty: no bit of the buffer is cleared.
pub apply_to-run :
    (bits : ℕ) (edits : List Edit) (buf : List ℕ) {e : BitmapEdit}
    → run (new bits) edits ≡ some e
    → bits / 64 + 1 ≤ length buf
    → apply_to e buf ≡ some (or_words e.bitmap buf)
unfolding apply_to new
apply_to-run bits edits buf {e} h le =
    let (l, m) =
      run-IsUnmasked (bits / 64 + 1) (new bits) edits h
        (length-replicate (bits / 64 + 1) 0, refl) in
    rw (m, ← l) (apply_words-unmasked e.bitmap buf (omega arith))
