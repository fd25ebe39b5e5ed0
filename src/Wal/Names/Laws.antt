-- ===== src/Wal/Names/Laws.antt =====
-- The names of WAL files of kobzar/src/q_engine/storage/wal.rs, formatted and parsed.
use kobzar.Base.{
  ℕ, zero, suc, ◌+◌, ◌-◌, ◌/◌, ◌%◌, ◌^◌, ◌≤◌, ◌<◌, ◌≡◌, refl, arith, List, [], ◌∷◌, ◌++◌, some,
  true, ltb, length, length-append, append_assoc, append-nil, le→leb, take-length_append,
  drop-length_append, Bool-cases, inl, inr,
}
use kobzar.Base.Bytes.{IsU64}
use native.Mathlib.Nat.{pow-suc}
use kobzar.Wal.Names.{
  decimal, show_u64, parse_digits, parse_u64, strip_suffix, same_text, wal_ext, file_name, file_lsn,
}

-- Digits behind others: the parser goes on with the number read so far.
parse_digits-decimal :
    (fuel n : ℕ) (more : List ℕ)
    → n < 10 ^ suc fuel
    → n < 2 ^ 64
    → parse_digits 0 (decimal fuel n ++ more) ≡ parse_digits n more
unfolding decimal
parse_digits-decimal zero n more h u = unfold parse_digits in ground arith
parse_digits-decimal (suc fuel) n more h u = elim (Bool-cases (ltb n 10)) [
  | inl small ↦ rw small (unfold parse_digits in ground arith)
  | inr large ↦
      rw
        (
          large,
          append_assoc,
          parse_digits-decimal fuel (n / 10) (((b'0' + n % 10) ∷ []) ++ more)
              (omega (arith, pow-suc 10 fuel)) (omega arith),
        )
        (unfold parse_digits in ground arith)
]

same_text_refl : (s : List ℕ) → same_text s s ≡ true
unfolding same_text
same_text_refl [] = refl
same_text_refl (c ∷ cs) = ground (arith, same_text_refl cs)

pub strip_suffix-append : (s p : List ℕ) → strip_suffix p (s ++ p) ≡ some s
unfolding strip_suffix
strip_suffix-append s p =
    let n : length (s ++ p) - length p ≡ length s = omega (arith, length-append s p) in
    rw (
      n,
      drop-length_append s p,
      same_text_refl p,
      take-length_append s p,
      le→leb (length p) (length (s ++ p)) (omega (arith, length-append s p)),
    )

parse_u64-digit : (c : ℕ) (cs : List ℕ) → b'0' ≤ c → parse_u64 (c ∷ cs) ≡ parse_digits 0 (c ∷ cs)
unfolding parse_u64
parse_u64-digit c [] h = ground arith
parse_u64-digit c (d ∷ cs) h = ground arith

pub decimal_head : (fuel n : ℕ) → (c : ℕ) × (cs : List ℕ) × (decimal fuel n ≡ c ∷ cs) × (b'0' ≤ c)
unfolding decimal
decimal_head zero n = (b'0' + n % 10, [], refl, omega arith)
decimal_head (suc fuel) n = elim (Bool-cases (ltb n 10)) [
  | inl small ↦ (b'0' + n, [], rw small, omega arith)
  | inr large ↦
      let (c, cs, e, h) = decimal_head fuel (n / 10) in
      (c, cs ++ ((b'0' + n % 10) ∷ []), rw (large, e), h)
]

parse_u64-decimal : (fuel n : ℕ) → parse_u64 (decimal fuel n) ≡ parse_digits 0 (decimal fuel n)
parse_u64-decimal fuel n = let (c, cs, e, h) = decimal_head fuel n in rw e (parse_u64-digit c cs h)

-- The name of the WAL file of a 64-bit LSN is read back as that LSN.
pub file_lsn-file_name : (lsn : ℕ) → IsU64 lsn → file_lsn (file_name lsn) ≡ some lsn
unfolding file_lsn file_name
file_lsn-file_name lsn h =
    rw
      (
        strip_suffix-append (show_u64 lsn) wal_ext,
        parse_u64-decimal 19 lsn,
        ← append-nil (show_u64 lsn),
        parse_digits-decimal 19 lsn [] (omega arith) h,
      )
      (unfold parse_digits in refl)

-- Two LSNs have the same file name only if they are equal.
pub file_name-injective : (a b : ℕ) → IsU64 a → IsU64 b → file_name a ≡ file_name b → a ≡ b
file_name-injective a b ha hb h = cc (file_lsn-file_name a ha, file_lsn-file_name b hb)
