-- ===== src/Btree/Loops.antt =====
-- The loops to the neighbors and the tests of a page end.
use kobzar.Base.{
  ℕ, zero, suc, ◌+◌, ◌≤◌, ◌<◌, ◌≡◌, ◌≢◌, inl, inr, List, [], ◌∷◌, Option-cases, length, get_elem?,
  arith,
}
use kobzar.Base.Elements.{get_elem?-lt}
use kobzar.Base.Results.{ok, err}
use kobzar.Btree.{IdxPage, Key, SearchCfg}
use kobzar.Btree.Search.{out_of_fuel, keys, padded, walk_left, walk_right}

-- The fuel of the loop to the right is enough, and where it ends is an index of the keys.
pub walk_right_total :
    (E : Type 0) (fuel : ℕ) (ks : List Key) (value : Key) (i : ℕ)
    → 0 < fuel
    → length ks ≤ fuel + i
    → walk_right {E = E} fuel ks value i ≢ err out_of_fuel
unfolding walk_right
walk_right_total E zero ks value i h enough = absurd (omega arith)
walk_right_total E (suc fuel) ks value i h enough =
    ground (arith, walk_right_total E fuel ks value (i + 1))

pub walk_right-lt :
    (E : Type 0) (fuel : ℕ) (ks : List Key) (value : Key) (i end : ℕ)
    → walk_right {E = E} fuel ks value i ≡ ok end
    → end < length ks
unfolding walk_right
walk_right-lt E zero ks value i end e = cc
walk_right-lt E (suc fuel) ks value i end e = elim (Option-cases (get_elem? ks i)) [
  | inl out ↦ ground arith
  | inr (x, at) ↦ ground (arith, get_elem?-lt ks i at, walk_right-lt E fuel ks value (i + 1) end)
]

pub walk_left_total :
    (E : Type 0) (ks : List Key) (value : Key) (i : ℕ)
    → walk_left {E = E} ks value i ≢ err out_of_fuel
unfolding walk_left
walk_left_total E ks value zero e = ground arith
walk_left_total E ks value (suc i) e = ground (arith, walk_left_total E ks value i)

pub walk_left-inhabited :
    (E : Type 0) (ks : List Key) (value : Key) (i start : ℕ)
    → walk_left {E = E} ks value i ≡ ok start
    → 0 < length ks
unfolding walk_left
walk_left-inhabited E [] value zero start e = ground arith
walk_left-inhabited E [] value (suc i) start e = ground arith
walk_left-inhabited E (k ∷ ks) value i start e = omega arith

pub keys_total :
    (E : Type 0) (cfg : SearchCfg) (page : IdxPage) → keys {E = E} cfg page ≢ err out_of_fuel
unfolding keys
keys_total E cfg page e = ground arith

pub padded_total : (E : Type 0) (value : List ℕ) → padded {E = E} value ≢ err out_of_fuel
unfolding padded
padded_total E value e = ground arith
