-- ===== src/Engine/Ident/Laws.antt =====
-- `IdentPath::new` of kobzar/src/q_engine.rs against a grammar of identifiers.
use kobzar.Base.{
  ℕ, ◌+◌, ◌≡◌, ◌≢◌, ◌≤◌, ◌↔◌, ◌⊎◌, inl, inr, refl, ap, arith, List, [], ◌∷◌, ◌++◌, true, false,
  ◌==◌, All, Bool-cases,
}
use kobzar.Base.Results.{ok}
use kobzar.Engine.Ident.{
  IdentPath, CharClass, last, push_invalid, is_word, invalid_from, checked, new,
}

module _ (k : CharClass) where
  open k use {is_numeric, colon_is_none}

  abbrev pub IsWord : List ℕ → Type 0
  IsWord cs = All (λ c. is_word k c ≡ true) cs

  -- What the loop lets pass after `n` colons.
  abbrev IsClean : ℕ → List ℕ → Type 0
  IsClean n [] = Unit
  IsClean n (c ∷ cs) =
      ((is_word k c ≡ true) × ((n ≡ 0) ⊎ (n ≡ 2)) × IsClean n cs)
      ⊎ ((c ≡ b':') × IsClean (n + 1) cs)

  colon_is_no_word : is_word k b':' ≡ false
  colon_is_no_word = rw colon_is_none refl

  push_invalid-ne_nil : (invalid : List ℕ) (c : ℕ) → push_invalid invalid c ≢ []
  push_invalid-ne_nil [] c e = ground arith
  push_invalid-ne_nil (d ∷ ds) c e = ground arith

  invalid_from-ne_nil :
      (cs : List ℕ) (n : ℕ) (invalid : List ℕ) → invalid ≢ [] → invalid_from k n invalid cs ≢ []
  unfolding invalid_from
  invalid_from-ne_nil [] n invalid ne e = ne e
  invalid_from-ne_nil (c ∷ cs) n invalid ne e = ground (
    arith,
    invalid_from-ne_nil cs n (push_invalid invalid c) (push_invalid-ne_nil invalid c),
    invalid_from-ne_nil cs n invalid ne,
    invalid_from-ne_nil cs (n + 1) invalid ne,
  )

  invalid_from-IsClean : (cs : List ℕ) (n : ℕ) → invalid_from k n [] cs ≡ [] → IsClean n cs
  unfolding invalid_from
  invalid_from-IsClean [] n e = tt
  invalid_from-IsClean (c ∷ cs) n e = ground (
    arith,
    invalid_from-IsClean cs n,
    invalid_from-IsClean cs (n + 1),
    invalid_from-ne_nil cs n (c ∷ []),
  )

  invalid_from_of_IsClean : (cs : List ℕ) (n : ℕ) → IsClean n cs → invalid_from k n [] cs ≡ []
  unfolding invalid_from
  invalid_from_of_IsClean [] n h = refl
  invalid_from_of_IsClean (c ∷ cs) n (inl (w, two, h)) = elim two [
    | inl z ↦ rw (w, z) (invalid_from_of_IsClean cs 0 (rw z at h))
    | inr t ↦ rw (w, t) (invalid_from_of_IsClean cs 2 (rw t at h))
  ]
  invalid_from_of_IsClean (c ∷ cs) n (inr (e, h)) =
      rw (e, colon_is_no_word) (invalid_from_of_IsClean cs (n + 1) h)

  -- A colon after the second leaves only colons.
  last_of_colons : (cs : List ℕ) (c n : ℕ) → 3 ≤ n → IsClean n (c ∷ cs) → last c cs ≡ b':'
  last_of_colons cs c n three (inl (_, inl z, _)) = absurd (omega arith)
  last_of_colons cs c n three (inl (_, inr t, _)) = absurd (omega arith)
  last_of_colons [] c n three (inr (e, _)) = e
  last_of_colons (d ∷ ds) c n three (inr (e, h)) = last_of_colons ds d (n + 1) (omega arith) h

  IsWord-after_two : (cs : List ℕ) (c : ℕ) → IsClean 2 (c ∷ cs) → last c cs ≢ b':' → IsWord (c ∷ cs)
  IsWord-after_two [] c (inl (w, _, _)) ne = (w, tt)
  IsWord-after_two (d ∷ ds) c (inl (w, _, h)) ne = (w, IsWord-after_two ds d h ne)
  IsWord-after_two [] c (inr (e, _)) ne = absurd (ne e)
  IsWord-after_two (d ∷ ds) c (inr (e, h)) ne = absurd (ne (last_of_colons ds d 3 (omega arith) h))

  -- the rest of an identifier behind its first character: a word, or two words around `::`
  abbrev pub IsPath : ℕ → List ℕ → Type 0
  IsPath first rest =
      IsWord (first ∷ rest)
      ⊎ ((a : List ℕ) × (d : ℕ) × (b : List ℕ) × (rest ≡ a ++ (b':' ∷ b':' ∷ d ∷ b))
          × IsWord (first ∷ a)
          × IsWord (d ∷ b))

  IsPath-of_IsClean :
      (cs : List ℕ) (c : ℕ) → is_word k c ≡ true → IsClean 0 cs → last c cs ≢ b':' → IsPath c cs
  IsPath-of_IsClean [] c w h ne = inl (w, tt)
  IsPath-of_IsClean (x ∷ cs) c w (inl (v, _, h)) ne = elim (IsPath-of_IsClean cs x v h ne) [
    | inl ws ↦ inl (w, ws)
    | inr (a, d, b, e, wa, wb) ↦ inr (x ∷ a, d, b, ap (λ r. x ∷ r) e, (w, wa), wb)
  ]
  IsPath-of_IsClean (x ∷ []) c w (inr (e, h)) ne = absurd (ne e)
  IsPath-of_IsClean (x ∷ y ∷ cs) c w (inr (e, inl (_, inl z, _))) ne = absurd (omega arith)
  IsPath-of_IsClean (x ∷ y ∷ cs) c w (inr (e, inl (_, inr t, _))) ne = absurd (omega arith)
  IsPath-of_IsClean (x ∷ y ∷ []) c w (inr (e, inr (f, h))) ne = absurd (ne f)
  IsPath-of_IsClean (x ∷ y ∷ d ∷ b) c w (inr (e, inr (f, h))) ne =
      inr ([], d, b, rw (e, f) refl, (w, tt), IsWord-after_two b d h ne)

  IsClean-of_word : (cs : List ℕ) (n : ℕ) → (n ≡ 0) ⊎ (n ≡ 2) → IsWord cs → IsClean n cs
  IsClean-of_word [] n two _ = tt
  IsClean-of_word (c ∷ cs) n two (w, ws) = inl (w, two, IsClean-of_word cs n two ws)

  IsClean-of_two_words : (a b : List ℕ) → IsWord a → IsWord b → IsClean 0 (a ++ (b':' ∷ b':' ∷ b))
  IsClean-of_two_words [] b _ wb = inr (refl, inr (refl, IsClean-of_word b 2 (inr refl) wb))
  IsClean-of_two_words (c ∷ a) b (w, wa) wb = inl (w, inl refl, IsClean-of_two_words a b wa wb)

  word-ne_colon : (c : ℕ) → is_word k c ≡ true → c ≢ b':'
  word-ne_colon c w e = ground (arith, colon_is_no_word)

  last_of_word : (cs : List ℕ) (c : ℕ) → IsWord (c ∷ cs) → last c cs ≢ b':'
  last_of_word [] c (w, _) = word-ne_colon c w
  last_of_word (d ∷ ds) c (_, ws) = last_of_word ds d ws

  last_of_two_words :
      (a : List ℕ) (c d : ℕ) (b : List ℕ)
      → IsWord (d ∷ b)
      → last c (a ++ (b':' ∷ b':' ∷ d ∷ b)) ≢ b':'
  last_of_two_words [] c d b w = last_of_word b d w
  last_of_two_words (x ∷ a) c d b w = last_of_two_words a x d b w

  checked-ok :
      (ident invalid : List ℕ) {p : IdentPath} → checked k ident invalid ≡ ok p → invalid ≡ []
  checked-ok ident [] e = refl
  checked-ok ident (c ∷ cs) e = cc (e)

  -- what the tests of `new` leave
  abbrev Passes : ℕ → List ℕ → Type 0
  Passes first rest =
      (is_numeric first ≡ false)
      × (first ≢ b':')
      × (last first rest ≢ b':')
      × (invalid_from k 0 [] (first ∷ rest) ≡ [])

  new-Passes :
      (first : ℕ) (rest : List ℕ) {p : IdentPath} → new k (first ∷ rest) ≡ ok p → Passes first rest
  unfolding new
  new-Passes first rest e = elim (Bool-cases (is_numeric first)) [
    | inl t ↦ absurd (cc (rw t at e))
    | inr f ↦ elim (Bool-cases (first == b':')) [
      | inl t ↦ absurd (cc (rw (f, t) at e))
      | inr g ↦ elim (Bool-cases (last first rest == b':')) [
        | inl t ↦ absurd (cc (rw (f, g, t) at e))
        | inr h ↦ (
          f,
          ground arith,
          ground arith,
          checked-ok (first ∷ rest) (invalid_from k 0 [] (first ∷ rest)) (rw (f, g, h) at e),
        )
      ]
    ]
  ]

  new_of_Passes :
      (first : ℕ) (rest : List ℕ)
      → Passes first rest
      → new k (first ∷ rest) ≡ ok (record { path = first ∷ rest })
  unfolding new
  new_of_Passes first rest (f, g, h, clean) =
      let g' : (first == b':') ≡ false = ground arith in
      let h' : (last first rest == b':') ≡ false = ground arith in rw (f, g', h', clean) refl

  Passes-of_path :
      (first : ℕ) (rest : List ℕ) → is_numeric first ≡ false → IsPath first rest → Passes first rest
  Passes-of_path first rest f (inl w) = (
    f,
    word-ne_colon first w.0,
    last_of_word rest first w,
    invalid_from_of_IsClean (first ∷ rest) 0 (IsClean-of_word (first ∷ rest) 0 (inl refl) w),
  )
  Passes-of_path first rest f (inr (a, d, b, e, wa, wb)) = rw e (
    f,
    word-ne_colon first wa.0,
    last_of_two_words a first d b wb,
    invalid_from_of_IsClean (first ∷ (a ++ (b':' ∷ b':' ∷ d ∷ b))) 0
        (IsClean-of_two_words (first ∷ a) (d ∷ b) wa wb),
  )

  IsPath-of_Passes : (first : ℕ) (rest : List ℕ) → Passes first rest → IsPath first rest
  IsPath-of_Passes first rest (f, g, h, clean) =
      elim (invalid_from-IsClean (first ∷ rest) 0 clean) [
        | inl (w, _, c) ↦ IsPath-of_IsClean rest first w c h
        | inr (e, _) ↦ absurd (g e)
      ]

  -- IdentPath::new accepts a text that is not empty exactly if its first character is not numeric
  -- and it is one word, or two words around one `::`; a word is a list of letters, digits and
  -- underscores with at least one of them.
  pub new-ok_iff :
      (first : ℕ) (rest : List ℕ)
      → (new k (first ∷ rest) ≡ ok (record { path = first ∷ rest }))
        ↔ ((is_numeric first ≡ false) × IsPath first rest)
  new-ok_iff first rest = (
    λ e. let p = new-Passes first rest e in (p.0, IsPath-of_Passes first rest p),
    λ (f, h). new_of_Passes first rest (Passes-of_path first rest f h),
  )
