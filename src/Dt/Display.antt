-- ===== src/Dt/Display.antt =====
-- `Display` of `TypeId`, kobzar/src/q_engine/dt.rs: a letter for each flag, then the number without flags.
use kobzar.Base.{ℕ, List, [], ◌∷◌, ◌++◌, Bool, if◌then◌else◌}
use kobzar.Dt.{is_build_in, is_custom, is_derived, is_option, discard_mask}
use kobzar.Wal.Entry.{TypeId}
use kobzar.Wal.Names.{show_u64}

abbrev pub letter : Bool → ℕ → List ℕ
letter flag c = if flag then c ∷ [] else []

unfoldable pub display : TypeId → List ℕ
display t =
    letter (is_build_in t) b'B'
    ++ (letter (is_custom t) b'C'
        ++ (letter (is_derived t) b'D' ++ (letter (is_option t) b'O' ++ show_u64 (discard_mask t))))
