-- ===== src/Dt/Unique.antt =====
-- The display of an identifier, and the digits of a number, tell it apart from the others.
use kobzar.Base.{
  ℕ, zero, suc, ◌+◌, ◌-◌, ◌*◌, ◌/◌, ◌%◌, ◌^◌, ◌≤◌, ◌<◌, ◌≡◌, refl, ap, sym, ◌∙◌, inl, inr, arith,
  List, [], ◌∷◌, ◌++◌, append_assoc, All, Bool, true, false, Bool-cases, ◌==◌, ltb, if◌then◌else◌,
  bit_and,
}
use mathlib.Core.Path.{subst, ap₂}
use kobzar.Base.Bits.{bit_and-shifted, bit_and-filled, bit_and-none, bit_and-one}
use kobzar.Dt.{
  is_build_in, is_custom, is_derived, is_option, discard_mask, type_kind_mask, option_bit,
  flag_mask,
}
use kobzar.Dt.Display.{display, letter}
use kobzar.Wal.Entry.{TypeId}
use kobzar.Wal.Names.{decimal, show_u64, file_name}
use kobzar.Wal.Names.Laws.{file_name-injective, decimal_head}
use native.Mathlib.Nat.{pow-suc}

-- Where the first parts have a property that what follows them lacks, both lists are split alike.
pub split_unique {κ} :
    (P : ℕ → Type κ) (xs ys : List ℕ) (c d : ℕ) (r s : List ℕ)
    → All P xs
    → All P ys
    → (P c → ⊥)
    → (P d → ⊥)
    → xs ++ (c ∷ r) ≡ ys ++ (d ∷ s)
    → (xs ≡ ys) × (c ∷ r ≡ d ∷ s)
split_unique P [] [] c d r s _ _ nc nd e = (refl, e)
split_unique P [] (y ∷ ys) c d r s _ (p, ps) nc nd e =
    let same : y ≡ c = cc e in absurd (nc (subst P same p))
split_unique P (x ∷ xs) [] c d r s (p, ps) _ nc nd e =
    let same : x ≡ d = cc e in absurd (nd (subst P same p))
split_unique P (x ∷ xs) (y ∷ ys) c d r s (p, ps) (q, qs) nc nd e =
    let same : x ≡ y = cc e in
    let rest : xs ++ (c ∷ r) ≡ ys ++ (d ∷ s) = cc e in
    let (first, second) = split_unique P xs ys c d r s ps qs nc nd rest in
    (ap₂ (λ z zs. z ∷ zs) same first, second)

abbrev pub IsDigit : ℕ → Type 0
IsDigit c = (b'0' ≤ c) × (c ≤ b'9')

All-append : (xs ys : List ℕ) → All IsDigit xs → All IsDigit ys → All IsDigit (xs ++ ys)
All-append [] ys _ qs = qs
All-append (x ∷ xs) ys (p, ps) qs = (p, All-append xs ys ps qs)

decimal-IsDigit : (fuel n : ℕ) → n < 10 ^ suc fuel → All IsDigit (decimal fuel n)
unfolding decimal
decimal-IsDigit zero n h = ((omega arith, omega arith), tt)
decimal-IsDigit (suc fuel) n h = elim (Bool-cases (ltb n 10)) [
  | inl small ↦ rw small (ground arith)
  | inr large ↦ rw large (
      All-append (decimal fuel (n / 10)) ((b'0' + n % 10) ∷ [])
        (decimal-IsDigit fuel (n / 10) (omega (arith, pow-suc 10 fuel)))
        ((omega arith, omega arith), tt))
]

pub show_u64-IsDigit : (n : ℕ) → n < 2 ^ 64 → All IsDigit (show_u64 n)
show_u64-IsDigit n h = decimal-IsDigit 19 n (omega arith)

pub show_u64-injective : (a b : ℕ) → a < 2 ^ 64 → b < 2 ^ 64 → show_u64 a ≡ show_u64 b → a ≡ b
unfolding file_name
show_u64-injective a b ha hb e = file_name-injective a b ha hb (rw e refl)

-- the letters of the flags, from the three highest bits
abbrev letters : ℕ → List ℕ
letters high =
    letter (bit_and high 3 == 1) b'B'
    ++ (letter (bit_and high 3 == 2) b'C'
        ++ (letter (bit_and high 3 == 3) b'D' ++ letter (ltb 3 high) b'O'))

flags_lem :
    (t : TypeId)
    → t < 2 ^ 64
    → (is_build_in t ≡ (bit_and (t / 2 ^ 61) 3 == 1))
      × (is_custom t ≡ (bit_and (t / 2 ^ 61) 3 == 2))
      × (is_derived t ≡ (bit_and (t / 2 ^ 61) 3 == 3))
      × (is_option t ≡ ltb 3 (t / 2 ^ 61))
      × (discard_mask t ≡ t % 2 ^ 61)
unfolding is_build_in is_custom is_derived is_option discard_mask
flags_lem t h =
    let kind : bit_and t type_kind_mask ≡ bit_and (t / 2 ^ 61) 3 * 2 ^ 61 =
      bit_and-shifted 61 t 3 in
    let option : bit_and t option_bit ≡ bit_and (t / 2 ^ 63) 1 * 2 ^ 63 = bit_and-shifted 63 t 1 in
    let low : bit_and t (2 ^ 64 - 1 - flag_mask) + t / 2 ^ 61 * 2 ^ 61
        ≡ bit_and (t / 2 ^ 61) 0 * 2 ^ 61 + t =
      bit_and-filled 61 t 0 in
    (
      rw kind (ground arith),
      rw kind (ground arith),
      rw kind (ground arith),
      rw (option, bit_and-one (t / 2 ^ 63)) (ground arith),
      omega (arith, low, bit_and-none (t / 2 ^ 61)),
    )

display_lem : (t : TypeId) → t < 2 ^ 64 → display t ≡ letters (t / 2 ^ 61) ++ show_u64 (t % 2 ^ 61)
unfolding display
display_lem t h =
    let (built_in, custom, derived, option, number) = flags_lem t h in
    rw (built_in, custom, derived, option, number) (simp append_assoc)

abbrev value : ℕ → ℕ
value c = if c == b'O' then 4 else c - b'A'

abbrev decoded : List ℕ → ℕ
decoded [] = 0
decoded (c ∷ cs) = value c + decoded cs

decoded-letters : (high : ℕ) → high < 8 → decoded (letters high) ≡ high
decoded-letters zero h = refl
decoded-letters (suc zero) h = refl
decoded-letters (suc (suc zero)) h = refl
decoded-letters (suc (suc (suc zero))) h = refl
decoded-letters (suc (suc (suc (suc zero)))) h = refl
decoded-letters (suc (suc (suc (suc (suc zero))))) h = refl
decoded-letters (suc (suc (suc (suc (suc (suc zero)))))) h = refl
decoded-letters (suc (suc (suc (suc (suc (suc (suc zero))))))) h = refl
decoded-letters (suc (suc (suc (suc (suc (suc (suc (suc n)))))))) h = absurd (omega arith)

abbrev IsLetter : ℕ → Type 0
IsLetter c = b'9' < c

letter-IsLetter : (flag : Bool) (c : ℕ) → IsLetter c → All IsLetter (letter flag c)
letter-IsLetter true c h = (h, tt)
letter-IsLetter false c h = tt

letters-IsLetter : (high : ℕ) → high < 8 → All IsLetter (letters high)
letters-IsLetter zero h = omega arith
letters-IsLetter (suc zero) h = omega arith
letters-IsLetter (suc (suc zero)) h = omega arith
letters-IsLetter (suc (suc (suc zero))) h = omega arith
letters-IsLetter (suc (suc (suc (suc zero)))) h = omega arith
letters-IsLetter (suc (suc (suc (suc (suc zero))))) h = omega arith
letters-IsLetter (suc (suc (suc (suc (suc (suc zero)))))) h = omega arith
letters-IsLetter (suc (suc (suc (suc (suc (suc (suc zero))))))) h = omega arith
letters-IsLetter (suc (suc (suc (suc (suc (suc (suc (suc n)))))))) h = absurd (omega arith)

-- a text of digits that is not empty
show_u64-head : (n : ℕ) → n < 2 ^ 64 → (c : ℕ) × (cs : List ℕ) × (show_u64 n ≡ c ∷ cs) × (c ≤ b'9')
show_u64-head n h =
    let (c, cs, e, _) = decimal_head 19 n in
    let digits : All IsDigit (c ∷ cs) = subst (All IsDigit) e (show_u64-IsDigit n h) in
    (c, cs, e, digits.0.1)

-- Two identifiers of types that fit 64 bits and are displayed by the same text are the same.
pub display-injective : (t u : TypeId) → t < 2 ^ 64 → u < 2 ^ 64 → display t ≡ display u → t ≡ u
display-injective t u ht hu e =
    let (c, cs, shown_t, digit_t) = show_u64-head (t % 2 ^ 61) (omega arith) in
    let (d, ds, shown_u, digit_u) = show_u64-head (u % 2 ^ 61) (omega arith) in
    let both : letters (t / 2 ^ 61) ++ (c ∷ cs) ≡ letters (u / 2 ^ 61) ++ (d ∷ ds) =
      ap (λ x. letters (t / 2 ^ 61) ++ x) (sym shown_t)
      ∙ sym (display_lem t ht)
      ∙ e
      ∙ display_lem u hu
      ∙ ap (λ x. letters (u / 2 ^ 61) ++ x) shown_u in
    let (high, low) =
      split_unique IsLetter (letters (t / 2 ^ 61)) (letters (u / 2 ^ 61)) c d cs ds
        (letters-IsLetter (t / 2 ^ 61) (omega arith)) (letters-IsLetter (u / 2 ^ 61) (omega arith))
        (λ p. omega arith) (λ p. omega arith) both in
    let same_low =
      show_u64-injective (t % 2 ^ 61) (u % 2 ^ 61) (omega arith) (omega arith)
        (shown_t ∙ low ∙ sym shown_u) in
    let same_high : t / 2 ^ 61 ≡ u / 2 ^ 61 =
      sym (decoded-letters (t / 2 ^ 61) (omega arith))
      ∙ ap decoded high
      ∙ decoded-letters (u / 2 ^ 61) (omega arith) in
    omega arith
