-- ===== src/Dt/Tests.antt =====
-- Identifiers of types on concrete values.
use kobzar.Base.{◌≡◌, refl, arith, map}
use kobzar.Base.Results.{ok, err}
use kobzar.Dt.{plain, is_build_in}
use kobzar.Dt.Consts.{i64_opt}
use kobzar.Dt.Derived.{derived_types}
use kobzar.Dt.Repr.{normal, try_from, match_arm}
use kobzar.Dt.Unique.{display-injective}

display-injective_example : plain 7 ≡ 2305843009213693959
display-injective_example =
    display-injective (plain 7) 2305843009213693959 (omega arith) (omega arith) refl

-- the constants of the second block are refused
derived_refused : map try_from derived_types ≡ map err derived_types
unfolding try_from match_arm is_build_in
derived_refused = refl

-- an optional number has one more bit
optional_number : try_from i64_opt ≡ ok (normal 8 1)
unfolding try_from match_arm is_build_in
optional_number = refl
