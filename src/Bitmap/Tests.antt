-- ===== src/Bitmap/Tests.antt =====
-- Edits of a bitmap on concrete values.
use kobzar.Base.{◌+◌, ◌^◌, ◌≡◌, refl, arith, List, [], ◌∷◌, some}
use kobzar.Bitmap.{BitmapEdit, new, set_inner, set, apply_to}
use kobzar.Bitmap.Laws.{Edit, run, apply_to-run}

-- a value across two words, and four bits that are to be cleared
abbrev edits : List Edit
edits = (62, 4, 5) ∷ (0, 4, 0) ∷ []

abbrev edited : BitmapEdit
edited = record { bitmap = 2 ^ 62 ∷ 1 ∷ []; mask = 0 ∷ 0 ∷ [] }

run-edits : run (new 64) edits ≡ some edited
unfolding new set_inner set
run-edits = refl

-- the four bits are still set
apply_to-run_example : apply_to edited (15 ∷ 8 ∷ []) ≡ some ((2 ^ 62 + 15) ∷ 9 ∷ [])
apply_to-run_example = apply_to-run 64 edits (15 ∷ 8 ∷ []) run-edits (omega arith)
