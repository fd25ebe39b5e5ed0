-- ===== src/Engine/Db/Laws.antt =====
-- The identifiers that `Db::next_type_id` of kobzar/src/q_engine.rs issues.
use kobzar.Base.{ℕ, zero, suc, ◌+◌, ◌/◌, ◌^◌, ◌<◌, ◌≡◌, ◌≢◌, refl, ◌∙◌, arith, All, false, bit_and}
use kobzar.Base.Bits.{bit_and-shifted}
use kobzar.Base.Maps.{Distinct, All-map_fun}
use kobzar.Dt.{
  invalid, advance, is_build_in, is_custom, is_derived, is_option, type_kind_mask, option_bit,
}
use kobzar.Engine.Db.{Db, new, next_type_id, issue}
use kobzar.Engine.Ident.{IdentPath}
use kobzar.Wal.Entry.{TypeId}

-- no flag of a kind of types, nor of an option
abbrev pub IsUnflagged : TypeId → Type 0
IsUnflagged t =
    (is_build_in t ≡ false)
    × (is_custom t ≡ false)
    × (is_derived t ≡ false)
    × (is_option t ≡ false)
    × (t ≢ invalid)

small-IsUnflagged : (t : TypeId) → 0 < t → t < 2 ^ 61 → IsUnflagged t
unfolding is_build_in is_custom is_derived is_option
small-IsUnflagged t pos lt =
    let none_61 : t / 2 ^ 61 ≡ 0 = omega arith in
    let none_63 : t / 2 ^ 63 ≡ 0 = omega arith in
    let kind : bit_and t type_kind_mask ≡ 0 = bit_and-shifted 61 t 3 ∙ rw none_61 refl in
    let option : bit_and t option_bit ≡ 0 = bit_and-shifted 63 t 1 ∙ rw none_63 refl in
    rw (kind, option) (refl, refl, refl, refl, omega arith)

module _ (Library : Type 0) (same_name : Discrete IdentPath) where
  issue_from :
      (n : ℕ) (db : Db Library same_name)
      → db.last_type_id + n < 2 ^ 61
      → All (λ t. (db.last_type_id < t) × IsUnflagged t) (issue Library same_name n db)
        × Distinct (issue Library same_name n db)
  unfolding next_type_id advance
  issue_from zero db h = (tt, tt)
  issue_from (suc n) db h =
      let (rest, distinct) = issue_from n (next_type_id Library same_name db).0 (omega arith) in
      (
        (
          (omega arith, small-IsUnflagged _ (omega arith) (omega arith)),
          All-map_fun (λ t (lt, u). (omega arith, u)) (issue Library same_name n _) rest,
        ),
        (All-map_fun (λ t (lt, u) e. omega arith) (issue Library same_name n _) rest, distinct),
      )

  -- The first n type identifiers that a new database issues, with n below 2 ^ 61, are distinct,
  -- are not the invalid one and carry no flag: neither built-in nor custom nor derived nor
  -- optional.
  issue-new :
      (n : ℕ) (name : IdentPath)
      → n < 2 ^ 61
      → All IsUnflagged (issue Library same_name n (new Library same_name name))
        × Distinct (issue Library same_name n (new Library same_name name))
  unfolding new
  issue-new n name h =
      let (all, distinct) = issue_from n (new Library same_name name) (omega arith) in
      (All-map_fun (λ t (_, u). u) (issue Library same_name n _) all, distinct)
