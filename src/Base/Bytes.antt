-- ===== src/Base/Bytes.antt =====
-- Little-endian bytes: `to_le_bytes` of the fixed-width integers, and what they stand for.
use Prim.Native.Nat.{ℕ, zero, suc, ◌+◌, ◌*◌, ◌/◌, ◌%◌, ◌^◌, ◌<◌}
use mathlib.Core.Path.{◌≡◌, refl, ap}
use mathlib.Core.List.{List, [], ◌∷◌, ◌++◌}
use mathlib.Core.Option.{Option, none, some}
use native.Mathlib.Omega.{arith}
use native.Mathlib.Nat.{pow-suc}
use kobzar.Base.Bools.{leb, if◌then◌else◌, le→leb}
use kobzar.Base.Lists.{length, take, drop, length-append, take-length_append, drop-length_append}

-- `n.to_le_bytes()` of an integer of `k` bytes.
unfoldable pub le_bytes : ℕ → ℕ → List ℕ
le_bytes zero n = []
le_bytes (suc k) n = n % 256 ∷ le_bytes k (n / 256)

-- the number that little-endian bytes stand for
unfoldable pub of_le : List ℕ → ℕ
of_le [] = 0
of_le (b ∷ bs) = b + 256 * of_le bs

pub length-le_bytes : (k n : ℕ) → length (le_bytes k n) ≡ k
unfolding le_bytes
length-le_bytes zero n = refl
length-le_bytes (suc k) n = ap suc (length-le_bytes k (n / 256))

pub of_le-le_bytes : (k n : ℕ) → n < 256 ^ k → of_le (le_bytes k n) ≡ n
unfolding le_bytes of_le
of_le-le_bytes zero n h = omega arith
of_le-le_bytes (suc k) n h =
    omega (arith, pow-suc 256 k, of_le-le_bytes k (n / 256) (omega (arith, pow-suc 256 k)))

abbrev pub IsU64 : ℕ → Type 0
IsU64 n = n < 2 ^ 64

-- reads an integer of `k` bytes off the front
pub read_le : ℕ → List ℕ → Option (ℕ × List ℕ)
read_le k bs = if leb k (length bs) then some (of_le (take k bs), drop k bs) else none

pub read_le-append :
    (k : ℕ) (xs rest : List ℕ) → length xs ≡ k → read_le k (xs ++ rest) ≡ some (of_le xs, rest)
unfolding read_le
read_le-append k xs rest e = rw (
  ← e,
  le→leb (length xs) (length (xs ++ rest)) (rw length-append (omega arith)),
  take-length_append xs rest,
  drop-length_append xs rest,
)

pub read_le-le_bytes :
    (k n : ℕ) (rest : List ℕ) → n < 256 ^ k → read_le k (le_bytes k n ++ rest) ≡ some (n, rest)
read_le-le_bytes k n rest h =
    rw (read_le-append k (le_bytes k n) rest (length-le_bytes k n), of_le-le_bytes k n h)
