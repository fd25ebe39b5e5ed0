-- ===== src/Base/Bits.antt =====
-- `&` and `|` of integers: digit by digit, and with the masks that the code uses.
use Prim.Native.Nat.{
  ℕ, zero, suc, ◌+◌, ◌-◌, ◌*◌, ◌/◌, ◌%◌, ◌^◌, ◌≤◌, min, max, digits, bit_and, bit_or,
  bit_and-bitwise, bit_or-bitwise,
}
use mathlib.Core.Path.{◌≡◌, refl, sym, ap, ◌∙◌}
use native.Mathlib.Omega.{arith}
use native.Mathlib.Nat.{pow-suc, pow-succ', one-le-pow, mul_assoc, div-div-eq-div-mul}

module _ (z : ℕ → ℕ) (f : ℕ → ℕ → ℕ) where
  -- The fuel does not matter where it is enough.
  digits_enough : (b a p q : ℕ) → a ≤ p → a ≤ q → digits z f p a b ≡ digits z f q a b
  digits_enough b zero zero zero _ _ = refl
  digits_enough b zero zero (suc q) _ _ = refl
  digits_enough b zero (suc p) zero _ _ = refl
  digits_enough b zero (suc p) (suc q) _ _ = refl
  digits_enough b (suc a) zero q hp _ = absurd (omega arith)
  digits_enough b (suc a) (suc p) zero _ hq = absurd (omega arith)
  digits_enough b (suc a) (suc p) (suc q) hp hq =
      ap (λ d. d * 2 + f (suc a % 2) (b % 2))
        (digits_enough (b / 2) (suc a / 2) p q (omega arith) (omega arith))

pub bit_and-halves : (a b : ℕ) → bit_and a b ≡ bit_and (a / 2) (b / 2) * 2 + min (a % 2) (b % 2)
bit_and-halves zero b = omega (arith, bit_and-bitwise 0 b, bit_and-bitwise 0 (b / 2))
bit_and-halves (suc a) b = omega (
  arith,
  bit_and-bitwise (suc a) b,
  bit_and-bitwise (suc a / 2) (b / 2),
  digits_enough (λ _. 0) min (b / 2) (suc a / 2) a (suc a / 2) (omega arith) (omega arith),
)

pub bit_or-halves : (a b : ℕ) → bit_or a b ≡ bit_or (a / 2) (b / 2) * 2 + max (a % 2) (b % 2)
bit_or-halves zero b = omega (arith, bit_or-bitwise 0 b, bit_or-bitwise 0 (b / 2))
bit_or-halves (suc a) b = omega (
  arith,
  bit_or-bitwise (suc a) b,
  bit_or-bitwise (suc a / 2) (b / 2),
  digits_enough (λ c. c) max (b / 2) (suc a / 2) a (suc a / 2) (omega arith) (omega arith),
)

zero-bit_and : (b : ℕ) → bit_and 0 b ≡ 0
zero-bit_and b = bit_and-bitwise 0 b

bit_and-none_fuel : (n a : ℕ) → a ≤ n → bit_and a 0 ≡ 0
bit_and-none_fuel zero a le = let e : a ≡ 0 = omega arith in rw e (zero-bit_and 0)
bit_and-none_fuel (suc n) zero le = zero-bit_and 0
bit_and-none_fuel (suc n) (suc a) le =
    omega (arith, bit_and-halves (suc a) 0, bit_and-none_fuel n (suc a / 2) (omega arith))

pub bit_and-none : (a : ℕ) → bit_and a 0 ≡ 0
bit_and-none a = bit_and-none_fuel a a (omega arith)

twice : (q k : ℕ) → q * 2 ^ suc k ≡ q * 2 ^ k * 2
twice q k = ap (λ p. q * p) (pow-suc 2 k) ∙ sym (mul_assoc q (2 ^ k) 2)

halved : (a k : ℕ) → a / 2 ^ suc k ≡ a / 2 / 2 ^ k
halved a k = ap (λ p. a / p) (pow-succ' 2 k) ∙ sym (div-div-eq-div-mul a 2 (2 ^ k))

-- A mask of `k` zeros below `m`.
pub bit_and-shifted : (k a m : ℕ) → bit_and a (m * 2 ^ k) ≡ bit_and (a / 2 ^ k) m * 2 ^ k
bit_and-shifted zero a m =
    let e : m * 1 ≡ m = omega arith in let d : a / 1 ≡ a = omega arith in rw (e, d) (omega arith)
bit_and-shifted (suc k) a m =
    let half : m * 2 ^ suc k / 2 ≡ m * 2 ^ k = omega (arith, twice m k) in
    let ih = bit_and-shifted k (a / 2) m in
    rw (halved a k) (
      omega (
        arith,
        bit_and-halves a (m * 2 ^ suc k),
        ap (λ n. bit_and (a / 2) n) half,
        ih,
        twice m k,
        twice (bit_and (a / 2 / 2 ^ k) m) k,
      ))

-- A mask of `k` ones below `m`.
pub bit_and-filled :
    (k a m : ℕ)
    → bit_and a (m * 2 ^ k + (2 ^ k - 1)) + a / 2 ^ k * 2 ^ k ≡ bit_and (a / 2 ^ k) m * 2 ^ k + a
bit_and-filled zero a m =
    let e : m * 1 + 0 ≡ m = omega arith in
    let d : a / 1 ≡ a = omega arith in rw (e, d) (omega arith)
bit_and-filled (suc k) a m =
    let pos = one-le-pow k 2 (omega arith) in
    let half : (m * 2 ^ suc k + (2 ^ suc k - 1)) / 2 ≡ m * 2 ^ k + (2 ^ k - 1) =
      omega (arith, twice m k, pow-suc 2 k, pos) in
    let ih = bit_and-filled k (a / 2) m in
    rw (halved a k) (
      omega (
        arith,
        bit_and-halves a (m * 2 ^ suc k + (2 ^ suc k - 1)),
        ap (λ n. bit_and (a / 2) n) half,
        ih,
        pos,
        pow-suc 2 k,
        twice m k,
        twice (a / 2 / 2 ^ k) k,
        twice (bit_and (a / 2 / 2 ^ k) m) k,
      ))

pub bit_and-one : (a : ℕ) → bit_and a 1 ≡ a % 2
bit_and-one a = omega (arith, bit_and-filled 1 a 0, bit_and-none (a / 2))
