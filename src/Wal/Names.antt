-- ===== src/Wal/Names.antt =====
-- The names of WAL files, `main_<lsn>.wal`: `format!` and the parsing in `WalFileLsnStream::next` of
-- kobzar/src/q_engine/storage/wal.rs. A name is the list of its characters' codes.
pub mod Laws
use kobzar.Base.{
  ℕ, zero, suc, ◌+◌, ◌-◌, ◌*◌, ◌/◌, ◌%◌, ◌^◌, List, [], ◌∷◌, ◌++◌, Option, none, some, ◌>>=◌, Bool,
  true, false, ◌&&◌, ltb, leb, ◌==◌, if◌then◌else◌, length, take, drop,
}

abbrev pub Name : Type 0
Name = List ℕ

-- The decimal digits of a number below 10 ^ (fuel + 1), most significant first.
unfoldable pub decimal : ℕ → ℕ → List ℕ
decimal zero n = (b'0' + n % 10) ∷ []
decimal (suc fuel) n =
    let more = decimal fuel (n / 10) ++ ((b'0' + n % 10) ∷ []) in
    if ltb n 10 then (b'0' + n) ∷ [] else more

-- `to_string` of a u64, which has 20 digits at most
abbrev pub show_u64 : ℕ → List ℕ
show_u64 n = decimal 19 n

-- the rounds of `parse::<u64>`: each digit in turn, with a check for overflow
unfoldable pub parse_digits : ℕ → List ℕ → Option ℕ
parse_digits acc [] = some acc
parse_digits acc (c ∷ cs) =
    let acc' = acc * 10 + (c - b'0') in
    let rest = parse_digits acc' cs in
    if leb b'0' c && leb c b'9' && ltb acc' (2 ^ 64) then rest else none

-- `str::parse::<u64>`: an optional `+`, then at least one digit
unfoldable pub parse_u64 : List ℕ → Option ℕ
unfolding parse_digits
parse_u64 [] = none
parse_u64 (c ∷ []) = if c == b'+' then none else parse_digits 0 (c ∷ [])
parse_u64 (c ∷ d ∷ cs) = if c == b'+' then parse_digits 0 (d ∷ cs) else parse_digits 0 (c ∷ d ∷ cs)

unfoldable pub strip_prefix : List ℕ → List ℕ → Option (List ℕ)
strip_prefix [] s = some s
strip_prefix (p ∷ ps) [] = none
strip_prefix (p ∷ ps) (c ∷ cs) = if p == c then strip_prefix ps cs else none

unfoldable pub same_text : List ℕ → List ℕ → Bool
same_text [] [] = true
same_text [] (c ∷ cs) = false
same_text (p ∷ ps) [] = false
same_text (p ∷ ps) (c ∷ cs) = p == c && same_text ps cs

unfoldable pub strip_suffix : List ℕ → List ℕ → Option (List ℕ)
unfolding same_text
strip_suffix p s =
    let n = length s - length p in
    if leb (length p) (length s) && same_text p (drop n s) then some (take n s) else none

-- "main_" and ".wal"
abbrev pub main_ : List ℕ
main_ = b'm' ∷ b'a' ∷ b'i' ∷ b'n' ∷ b'_' ∷ []

abbrev pub wal_ext : List ℕ
wal_ext = b'.' ∷ b'w' ∷ b'a' ∷ b'l' ∷ []

-- `format!("main_{}.wal", lsn)`
unfoldable pub file_name : ℕ → Name
file_name lsn = main_ ++ (show_u64 lsn ++ wal_ext)

-- `name.strip_prefix("main_").and_then(|s| s.strip_suffix(".wal"))`, then `parse::<u64>()`
unfoldable pub file_lsn : Name → Option ℕ
unfolding strip_prefix strip_suffix parse_u64
file_lsn name =
    strip_prefix main_ name >>= λ s. strip_suffix wal_ext s >>= λ lsn_str. parse_u64 lsn_str
