-- ===== src/Schema/Flags.antt =====
-- The operators of `FieldFlags` on the sub-byte length and on the flags above it.
use kobzar.Base.{ℕ, ◌+◌, ◌-◌, ◌*◌, ◌/◌, ◌%◌, ◌^◌, ◌<◌, ◌≡◌, arith, bit_and, bit_or}
use kobzar.Base.Bits.{bit_and-shifted, bit_and-filled, bit_and-none, bit_or-halves}
use kobzar.Schema.{FieldFlags, without_subbyte, bitor, bitand, complement}

without_subbyte_lem : (f : FieldFlags) → f < 2 ^ 32 → without_subbyte f ≡ f / 8 * 8
unfolding without_subbyte
without_subbyte_lem f h =
    let shifted : bit_and f ((2 ^ 29 - 1) * 2 ^ 3) ≡ bit_and (f / 2 ^ 3) (2 ^ 29 - 1) * 2 ^ 3 =
      bit_and-shifted 3 f (2 ^ 29 - 1) in
    let filled : bit_and (f / 8) (0 * 2 ^ 29 + (2 ^ 29 - 1)) + f / 8 / 2 ^ 29 * 2 ^ 29
        ≡ bit_and (f / 8 / 2 ^ 29) 0 * 2 ^ 29 + f / 8 =
      bit_and-filled 29 (f / 8) 0 in
    omega (arith, shifted, filled, bit_and-none (f / 8 / 2 ^ 29))

bit_or-shifted3 : (f m : ℕ) → bit_or f (m * 8) ≡ bit_or (f / 8) m * 8 + f % 8
bit_or-shifted3 f m =
    let e₁ : m * 8 / 2 ≡ m * 4 = omega arith in
    let e₂ : m * 4 / 2 ≡ m * 2 = omega arith in
    let e₃ : m * 2 / 2 ≡ m = omega arith in
    let e₄ : f / 2 / 2 / 2 ≡ f / 8 = omega arith in
    let s₁ = rw e₁ at (bit_or-halves f (m * 8)) in
    let s₂ = rw e₂ at (bit_or-halves (f / 2) (m * 4)) in
    let s₃ = rw (e₃, e₄) at (bit_or-halves (f / 2 / 2) (m * 2)) in omega (arith, s₁, s₂, s₃)

-- On flags of 32 bits, `|` keeps the sub-byte length of its left side and joins the flags above
-- it, `&` clears the sub-byte length and meets the flags, and `!` sets the sub-byte length to 7
-- and complements the flags.
pub flags_cases :
    (f rhs : FieldFlags)
    → f < 2 ^ 32
    → rhs < 2 ^ 32
    → (bitor f rhs % 8 ≡ f % 8)
      × (bitor f rhs / 8 ≡ bit_or (f / 8) (rhs / 8))
      × (bitand f rhs % 8 ≡ 0)
      × (bitand f rhs / 8 ≡ bit_and (f / 8) (rhs / 8))
      × (complement f % 8 ≡ 7)
      × (complement f / 8 ≡ 2 ^ 29 - 1 - f / 8)
unfolding bitor bitand complement
flags_cases f rhs h k =
    let low : without_subbyte rhs ≡ rhs / 8 * 8 = without_subbyte_lem rhs k in
    let own : without_subbyte f ≡ f / 8 * 8 = without_subbyte_lem f h in
    let both : bit_and f (rhs / 8 * 2 ^ 3) ≡ bit_and (f / 2 ^ 3) (rhs / 8) * 2 ^ 3 =
      bit_and-shifted 3 f (rhs / 8) in
    rw (low, own, both, bit_or-shifted3 f (rhs / 8))
      (omega arith, omega arith, omega arith, omega arith, omega arith, omega arith)
