-- ===== src/Cache/Ring/Score.antt =====
-- `CacheMeta::eviction_score` of kobzar/src/q_engine/storage/idx_common.rs.
use kobzar.Base.{ℕ, ◌+◌, ◌/◌, ◌%◌, ◌^◌, ◌<◌, ◌≤◌, ◌≡◌, arith, [], ◌∷◌}
use kobzar.Cache.Ring.{CacheMeta, new, rotate_to_normalize, age, score_from, eviction_score}

-- the wrapped sum that the loop computes when all four terms are `x`
abbrev score_of : ℕ → ℕ
score_of x = (((x + x / 2) % 2 ^ 64 + x / 4) % 2 ^ 64 + x / 8) % 2 ^ 64

score_four : (x : ℕ) → x < 2 ^ 64 → score_from 0 0 (x ∷ x ∷ x ∷ x ∷ []) ≡ score_of x
unfolding score_from
score_four x h = let e : (0 + x / 1) % 2 ^ 64 ≡ x = omega arith in rw e

score_of_mono : (x y : ℕ) → x < y → y < 2 ^ 64 → 2 ^ 64 ≤ x + 2 ^ 60 → score_of x < score_of y
score_of_mono x y lt small near = omega arith

score-new :
    (m : CacheMeta) (now a : ℕ)
    → m.last_accessed ≡ new a
    → (eviction_score m now).0 ≡ score_of (age now a)
unfolding eviction_score rotate_to_normalize new
score-new m now a e = rw (e, score_four (age now a) (omega arith))

-- Of two pages created in different generations before the current one and not accessed since,
-- the older one has the smaller score, where both generations lie within 2 ^ 60 of the current
-- one.
pub older-lower_score :
    (m n : CacheMeta) (now a b : ℕ)
    → m.last_accessed ≡ new a
    → n.last_accessed ≡ new b
    → a < b
    → b < now
    → now < 2 ^ 64
    → now ≤ a + 2 ^ 60
    → (eviction_score m now).0 < (eviction_score n now).0
older-lower_score m n now a b ea eb ab bn nn near =
    rw (score-new m now a ea, score-new n now b eb)
      (score_of_mono (age now a) (age now b) (omega arith) (omega arith) (omega arith))
