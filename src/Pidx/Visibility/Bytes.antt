-- ===== src/Pidx/Visibility/Bytes.antt =====
-- The bits of a byte that is collected from eight truth values.
use kobzar.Base.{
  ℕ, zero, suc, ◌+◌, ◌*◌, ◌/◌, ◌%◌, ◌^◌, ◌<◌, ◌≡◌, refl, arith, List, [], ◌∷◌, Bool, true, false,
  ◌&&◌, if◌then◌else◌, ◌==◌, get_or, set, replicate, bit_and, bit_or, length, ap, ◌∙◌, ℕ_discrete,
  get_or-set_self, get_or-set_ne, ==_iff,
}

-- whether a test holds for both truth values
abbrev pub every : (Bool → Bool) → Bool
every f = f true && f false

every-lem : (f : Bool → Bool) → every f ≡ true → (b : Bool) → f b ≡ true
every-lem f h true = ground arith
every-lem f h false = ground arith

abbrev pub to_u8 : Bool → ℕ
to_u8 true = 1
to_u8 false = 0

-- the byte that the fallback loop collects for eight records
abbrev pub byte : Bool → Bool → Bool → Bool → Bool → Bool → Bool → Bool → ℕ
byte a b c d e f g h =
    bit_or
      (bit_or
        (bit_or
          (bit_or
            (bit_or
              (bit_or (bit_or (bit_or 0 (if a then 1 else 0)) (if b then 2 else 0))
                (if c then 4 else 0))
              (if d then 8 else 0))
            (if e then 16 else 0))
          (if f then 32 else 0))
        (if g then 64 else 0))
      (if h then 128 else 0)

abbrev pub bit_is : ℕ → Bool → Bool → Bool → Bool → Bool → Bool → Bool → Bool → Bool
bit_is k a b c d e f g h =
    (byte a b c d e f g h / 2 ^ k) % 2
    == to_u8 (get_or (a ∷ b ∷ c ∷ d ∷ e ∷ f ∷ g ∷ h ∷ []) k false)

abbrev pub all_bits_are : ℕ → Bool
all_bits_are k = every (λ a. every (λ b. every (λ c.
    every (λ d. every (λ e. every (λ f. every (λ g. every (λ h. bit_is k a b c d e f g h))))))))

all_bits_are-true : (k : ℕ) → k < 8 → all_bits_are k ≡ true
all_bits_are-true zero lt = refl
all_bits_are-true (suc zero) lt = refl
all_bits_are-true (suc (suc zero)) lt = refl
all_bits_are-true (suc (suc (suc zero))) lt = refl
all_bits_are-true (suc (suc (suc (suc zero)))) lt = refl
all_bits_are-true (suc (suc (suc (suc (suc zero))))) lt = refl
all_bits_are-true (suc (suc (suc (suc (suc (suc zero)))))) lt = refl
all_bits_are-true (suc (suc (suc (suc (suc (suc (suc zero))))))) lt = refl
all_bits_are-true (suc (suc (suc (suc (suc (suc (suc (suc k)))))))) lt = absurd (omega arith)

bit-byte :
    (k : ℕ) (a b c d e f g h : Bool)
    → k < 8
    → (byte a b c d e f g h / 2 ^ k) % 2
      ≡ to_u8 (get_or (a ∷ b ∷ c ∷ d ∷ e ∷ f ∷ g ∷ h ∷ []) k false)
bit-byte k a b c d e f g h lt =
    let t₀ = all_bits_are-true k lt in
    let t₁ =
      every-lem
        (λ a'. every (λ b'. every (λ c'. every (λ d'.
          every
            (λ e'. every (λ f'. every (λ g'. every (λ h'. bit_is k a' b' c' d' e' f' g' h'))))))))
        t₀ a in
    let t₂ =
      every-lem
        (λ b'. every (λ c'. every (λ d'.
          every (λ e'. every (λ f'. every (λ g'. every (λ h'. bit_is k a b' c' d' e' f' g' h')))))))
        t₁ b in
    let t₃ =
      every-lem
        (λ c'. every (λ d'.
          every (λ e'. every (λ f'. every (λ g'. every (λ h'. bit_is k a b c' d' e' f' g' h'))))))
        t₂ c in
    let t₄ =
      every-lem
        (λ d'.
          every (λ e'. every (λ f'. every (λ g'. every (λ h'. bit_is k a b c d' e' f' g' h')))))
        t₃ d in
    let t₅ =
      every-lem (λ e'. every (λ f'. every (λ g'. every (λ h'. bit_is k a b c d e' f' g' h')))) t₄
        e in
    let t₆ = every-lem (λ f'. every (λ g'. every (λ h'. bit_is k a b c d e f' g' h'))) t₅ f in
    let t₇ = every-lem (λ g'. every (λ h'. bit_is k a b c d e f g' h')) t₆ g in
    let t₈ = every-lem (λ h'. bit_is k a b c d e f g h') t₇ h in
    (==_iff ((byte a b c d e f g h / 2 ^ k) % 2)
        (to_u8 (get_or (a ∷ b ∷ c ∷ d ∷ e ∷ f ∷ g ∷ h ∷ []) k false))).0
      t₈

pub masked_first :
    (c : Bool)
    → bit_and ((if c then 18446744073709551615 else 0) % 256) 1 ≡ bit_or 0 (if c then 1 else 0)
masked_first true = refl
masked_first false = refl

pub masked :
    (m : ℕ) (c : Bool)
    → bit_and 255 m ≡ m
    → bit_and 0 m ≡ 0
    → bit_and ((if c then 18446744073709551615 else 0) % 256) m ≡ (if c then m else 0)
masked m true on off = on
masked m false on off = off

-- the eight truth values from `8 * j` on
pick :
    (f : ℕ → Bool) (j k : ℕ)
    → k < 8
    → get_or
        (f (8 * j + 0)
          ∷ f (8 * j + 1)
          ∷ f (8 * j + 2)
          ∷ f (8 * j + 3)
          ∷ f (8 * j + 4)
          ∷ f (8 * j + 5)
          ∷ f (8 * j + 6)
          ∷ f (8 * j + 7)
          ∷ [])
        k
        false
      ≡ f (8 * j + k)
pick f j zero lt = refl
pick f j (suc zero) lt = refl
pick f j (suc (suc zero)) lt = refl
pick f j (suc (suc (suc zero))) lt = refl
pick f j (suc (suc (suc (suc zero)))) lt = refl
pick f j (suc (suc (suc (suc (suc zero))))) lt = refl
pick f j (suc (suc (suc (suc (suc (suc zero)))))) lt = refl
pick f j (suc (suc (suc (suc (suc (suc (suc zero))))))) lt = refl
pick f j (suc (suc (suc (suc (suc (suc (suc (suc k)))))))) lt = absurd (omega arith)

abbrev pub byte_at : (ℕ → Bool) → ℕ → ℕ
byte_at f j =
    byte (f (8 * j + 0)) (f (8 * j + 1)) (f (8 * j + 2)) (f (8 * j + 3)) (f (8 * j + 4))
      (f (8 * j + 5)) (f (8 * j + 6)) (f (8 * j + 7))

pub bit-byte_at : (f : ℕ → Bool) (i : ℕ) → (byte_at f (i / 8) / 2 ^ (i % 8)) % 2 ≡ to_u8 (f i)
bit-byte_at f i =
    let whole : 8 * (i / 8) + i % 8 ≡ i = omega arith in
    bit-byte (i % 8) _ _ _ _ _ _ _ _ (omega arith)
    ∙ ap to_u8 (pick f (i / 8) (i % 8) (omega arith) ∙ ap f whole)

pub get_or-replicate : (n j : ℕ) → get_or {A = ℕ} (replicate n 0) j 0 ≡ 0
get_or-replicate zero j = refl
get_or-replicate (suc n) zero = refl
get_or-replicate (suc n) (suc j) = get_or-replicate n j

-- `map[at] |= b`, read at `j`
pub get_or-set_or :
    (at b j : ℕ) (bitmap : List ℕ)
    → j < length bitmap
    → get_or (set bitmap at (bit_or (get_or bitmap at 0) b)) j 0
      ≡ (if at == j then bit_or (get_or bitmap j 0) b else get_or bitmap j 0)
get_or-set_or at b j bitmap lt = elim (ℕ_discrete at j) [
  | yes p ↦ rw (p, (==_iff j j).1 refl) (get_or-set_self bitmap j _ 0 lt)
  | no n ↦ let f : (at == j) ≡ false = ground arith in rw f (get_or-set_ne bitmap at j _ 0 n)
]
