-- ===== src/Layout/Tests.antt =====
-- Layouts on concrete fields.
use kobzar.Base.{◌*◌, ◌-◌, ◌≤◌, ◌<◌, arith, List, [], ◌∷◌}
use kobzar.Layout.{FieldLayout, required_buf_capacity}
use kobzar.Layout.Laws.{layout_of, required_buf_capacity-layout_of}

-- an optional u64, a bool and an enum of 256 elements
abbrev fields : List FieldLayout
fields =
    record { data_size = 8; bits = 1 }
    ∷ record { data_size = 0; bits = 1 }
    ∷ record { data_size = 0; bits = 7 }
    ∷ []

required_buf_capacity-layout_of_example :
    (8 ≤ required_buf_capacity (layout_of fields))
    × (9 ≤ 8 * (required_buf_capacity (layout_of fields) - 8))
    × (8 * (required_buf_capacity (layout_of fields) - 8) < 17)
required_buf_capacity-layout_of_example =
    required_buf_capacity-layout_of fields (omega arith, omega arith)
