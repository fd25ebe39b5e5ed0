-- ===== src/Layout/Laws.antt =====
-- Capacities and unions of layouts, kobzar/src/q_engine/storage/layout.rs.
use kobzar.Base.{ℕ, ◌+◌, ◌-◌, ◌*◌, ◌/◌, ◌^◌, ◌≤◌, ◌<◌, ◌≡◌, ◌∙◌, arith, max, List, [], ◌∷◌}
use kobzar.Layout.{FieldLayout, LayoutCalc, new, required_buf_capacity, union, add}
use mathlib.Core.List.{foldl}

abbrev pub data_sum : List FieldLayout → ℕ
data_sum [] = 0
data_sum (f ∷ fs) = f.data_size + data_sum fs

abbrev pub bits_sum : List FieldLayout → ℕ
bits_sum [] = 0
bits_sum (f ∷ fs) = f.bits + bits_sum fs

-- The sums of the layout stay below the range of a u64, the rounding included.
abbrev pub IsSmall : ℕ → ℕ → Type 0
IsSmall data_size bits = (bits + 7 < 2 ^ 64) × (data_size + (bits + 7) / 8 < 2 ^ 64)

-- the layout of a record with the fields
abbrev pub layout_of : List FieldLayout → LayoutCalc
layout_of fs = foldl add new fs

foldl-add-data :
    (fs : List FieldLayout) (c : LayoutCalc)
    → c.total_data_size + data_sum fs < 2 ^ 64
    → (foldl add c fs).total_data_size ≡ c.total_data_size + data_sum fs
unfolding add
foldl-add-data [] c h = omega arith
foldl-add-data (f ∷ fs) c h = foldl-add-data fs (add c f) (omega arith) ∙ omega arith

foldl-add-bits :
    (fs : List FieldLayout) (c : LayoutCalc)
    → c.total_bits + bits_sum fs < 2 ^ 64
    → (foldl add c fs).total_bits ≡ c.total_bits + bits_sum fs
unfolding add
foldl-add-bits [] c h = omega arith
foldl-add-bits (f ∷ fs) c h = foldl-add-bits fs (add c f) (omega arith) ∙ omega arith

-- The buffer for a record holds the data of its fields and one bit for each bit of theirs,
-- rounded up to a whole byte, where the sums fit 64 bits with the rounding.
pub required_buf_capacity-layout_of :
    (fs : List FieldLayout)
    → IsSmall (data_sum fs) (bits_sum fs)
    → (data_sum fs ≤ required_buf_capacity (layout_of fs))
      × (bits_sum fs ≤ 8 * (required_buf_capacity (layout_of fs) - data_sum fs))
      × (8 * (required_buf_capacity (layout_of fs) - data_sum fs) < bits_sum fs + 8)
unfolding required_buf_capacity new
required_buf_capacity-layout_of fs (b, d) =
    omega (arith, foldl-add-data fs new (omega arith), foldl-add-bits fs new (omega arith))

layout_ext :
    {m n p q : ℕ}
    → m ≡ n
    → p ≡ q
    → Path LayoutCalc
        (record { total_data_size = m; total_bits = p })
        (record { total_data_size = n; total_bits = q })
layout_ext e f = λ i. record { total_data_size = e i; total_bits = f i }

-- union is commutative, associative and idempotent, and the buffer for a union is at least as
-- large as the buffers for both layouts, where the capacities fit 64 bits.
required_buf_capacity-union :
    (c d e : LayoutCalc)
    → IsSmall c.total_data_size c.total_bits
    → IsSmall d.total_data_size d.total_bits
    → IsSmall (max c.total_data_size d.total_data_size) (max c.total_bits d.total_bits)
    → (union c d ≡ union d c)
      × (union c (union d e) ≡ union (union c d) e)
      × (union c c ≡ c)
      × (required_buf_capacity c ≤ required_buf_capacity (union c d))
      × (required_buf_capacity d ≤ required_buf_capacity (union c d))
unfolding required_buf_capacity union
required_buf_capacity-union c d e p q r = (
  layout_ext (omega arith) (omega arith),
  layout_ext (omega arith) (omega arith),
  layout_ext (omega arith) (omega arith),
  omega arith,
  omega arith,
)
