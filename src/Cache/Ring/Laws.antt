-- ===== src/Cache/Ring/Laws.antt =====
-- The invariant of `RingInline` and its contents, kobzar/src/q_engine/storage/idx_common.rs.
use kobzar.Base.{
  ℕ, zero, suc, ◌*◌, ◌%◌, ◌<◌, ◌≡◌, refl, arith, ap, ◌∙◌, List, [], ◌∷◌, ◌++◌, length, drop,
  replicate, length-set,
}
use kobzar.Cache.Ring.{RingInline, new, push, nth, rotate_left, rotate_to_normalize}
use mathlib.Core.List.{foldl}

pub record IsValid (r : RingInline) : Type 0 where
  pub four : length r.last_accessed ≡ 4
  pub start_in : r.start < 4

pub new-IsValid : (x : ℕ) → IsValid (new x)
unfolding new
new-IsValid x = omega arith

pub push-IsValid : {r : RingInline} (g : ℕ) → IsValid r → IsValid (push r g)
unfolding push
push-IsValid {r} g v = omega (arith, length-set r.last_accessed r.start g)

-- the four accesses, oldest first
abbrev pub window : RingInline → List ℕ
window r = nth r 0 ∷ nth r 1 ∷ nth r 2 ∷ nth r 3 ∷ []

-- A property of valid rings holds if it holds of the four starts, at any four values.
ring_cases {ℓ} :
    (P : RingInline → Type ℓ)
    → ((a b c d : ℕ) (s : ℕ) → s < 4 → P (record { last_accessed = a ∷ b ∷ c ∷ d ∷ []; start = s }))
    → (xs : List ℕ) (s : ℕ) → IsValid (record { last_accessed = xs; start = s })
    → P (record { last_accessed = xs; start = s })
ring_cases P h (a ∷ b ∷ c ∷ d ∷ []) s v = h a b c d s v.start_in
ring_cases P h [] s v = absurd (omega arith)
ring_cases P h (a ∷ []) s v = absurd (omega arith)
ring_cases P h (a ∷ b ∷ []) s v = absurd (omega arith)
ring_cases P h (a ∷ b ∷ c ∷ []) s v = absurd (omega arith)
ring_cases P h (a ∷ b ∷ c ∷ d ∷ e ∷ xs) s v = absurd (omega arith)

start_cases {ℓ} : (P : ℕ → Type ℓ) → P 0 → P 1 → P 2 → P 3 → (s : ℕ) → s < 4 → P s
start_cases P p₀ p₁ p₂ p₃ zero h = p₀
start_cases P p₀ p₁ p₂ p₃ (suc zero) h = p₁
start_cases P p₀ p₁ p₂ p₃ (suc (suc zero)) h = p₂
start_cases P p₀ p₁ p₂ p₃ (suc (suc (suc zero))) h = p₃
start_cases P p₀ p₁ p₂ p₃ (suc (suc (suc (suc s)))) h = absurd (omega arith)

-- An access drops the oldest of the four and is the newest.
pub window-push :
    (r : RingInline) (g : ℕ) → IsValid r → window (push r g) ≡ drop 1 (window r) ++ (g ∷ [])
unfolding push nth
window-push r g v =
    ring_cases (λ q. window (push q g) ≡ drop 1 (window q) ++ (g ∷ []))
      (λ a b c d. start_cases _ refl refl refl refl) r.last_accessed r.start v

-- rotate_to_normalize of a valid ring rotates the accesses in their order by twice the start
-- modulo four, so that an odd start swaps the older two with the newer two.
pub window-rotate_to_normalize :
    (r : RingInline)
    → IsValid r
    → window (rotate_to_normalize r) ≡ rotate_left (2 * r.start % 4) (window r)
unfolding rotate_to_normalize nth
window-rotate_to_normalize r v =
    ring_cases (λ q. window (rotate_to_normalize q) ≡ rotate_left (2 * q.start % 4) (window q))
      (λ a b c d. start_cases _ refl refl refl refl) r.last_accessed r.start v

pub rotate_to_normalize-IsValid : (r : RingInline) → IsValid r → IsValid (rotate_to_normalize r)
unfolding rotate_to_normalize
rotate_to_normalize-IsValid r v =
    ring_cases (λ q. IsValid (rotate_to_normalize q))
      (λ a b c d. start_cases _ (omega arith) (omega arith) (omega arith) (omega arith))
      r.last_accessed r.start v

foldl-push-window :
    (gs : List ℕ) (r : RingInline)
    → IsValid r
    → window (foldl push r gs) ≡ drop (length gs) (window r ++ gs)
foldl-push-window [] r v = refl
foldl-push-window (g ∷ gs) r v =
    foldl-push-window gs (push r g) (push-IsValid g v)
    ∙ ap (λ w. drop (length gs) (w ++ gs)) (window-push r g v)

-- A page created in one generation and then accessed in the given generations remembers the last
-- four of all of them, the oldest first.
pub window-push_all :
    (x : ℕ) (gs : List ℕ) → window (foldl push (new x) gs) ≡ drop (length gs) (replicate 4 x ++ gs)
window-push_all x gs = foldl-push-window gs (new x) (new-IsValid x) ∙ unfold new nth in refl
