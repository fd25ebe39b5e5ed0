-- ===== src/Engine/Ident.antt =====
-- `IdentPath` of kobzar/src/q_engine.rs. A text is the list of its characters' codes. The classes of
-- characters are those of the standard library's Unicode tables, a parameter.
pub mod Laws
use kobzar.Base.{
  ℕ, zero, suc, ◌+◌, ◌≡◌, List, [], ◌∷◌, ◌++◌, Option, none, some, Bool, true, false, ◌&&◌, ◌||◌,
  not, ◌==◌, if◌then◌else◌,
}
use kobzar.Base.Results.{Result, ok, err}

pub record IdentPath : Type 0 where
  pub path : List ℕ

-- `char::is_numeric` and `char::is_alphanumeric`
pub record CharClass : Type 0 where
  pub is_numeric : ℕ → Bool
  pub is_alphanumeric : ℕ → Bool
  pub colon_is_none : is_alphanumeric b':' ≡ false

pub data IdentError : Type 0 where
  empty : IdentError
  invalid_chars : (ident chars : List ℕ) → IdentError
  cannot_start_with_digit : (ident : List ℕ) → IdentError
  cannot_start_with_colon : (ident : List ℕ) → IdentError
  cannot_end_with_colon : (ident : List ℕ) → IdentError

-- `chars().last()` of a text with the first character `c`
abbrev pub last : ℕ → List ℕ → ℕ
last c [] = c
last c (d ∷ cs) = last d cs

abbrev pub contains : List ℕ → ℕ → Bool
contains [] c = false
contains (d ∷ ds) c = d == c || contains ds c

abbrev pub push_invalid : List ℕ → ℕ → List ℕ
push_invalid invalid c = if contains invalid c then invalid else invalid ++ (c ∷ [])

module _ (k : CharClass) where
  open k use {is_numeric, is_alphanumeric}

  abbrev pub is_word : ℕ → Bool
  is_word c = is_alphanumeric c || c == b'_'

  -- the loop over the characters, with the colons and the invalid characters so far
  unfoldable pub invalid_from : ℕ → List ℕ → List ℕ → List ℕ
  invalid_from colon invalid [] = invalid
  invalid_from colon invalid (c ∷ cs) =
      let pushed = invalid_from colon (push_invalid invalid c) cs in
      let kept = invalid_from colon invalid cs in
      let counted = invalid_from (colon + 1) invalid cs in
      if is_word c
      then if not (colon == 2) && not (colon == 0) then pushed else kept
      else if c == b':'
      then counted
      else pushed

  abbrev pub checked : List ℕ → List ℕ → Result IdentError IdentPath
  checked ident [] = ok (record { path = ident })
  checked ident (c ∷ cs) = err (invalid_chars ident (c ∷ cs))

  unfoldable pub new : List ℕ → Result IdentError IdentPath
  new [] = err empty
  new (first ∷ rest) =
      let ident = first ∷ rest in
      if is_numeric first
      then err (cannot_start_with_digit ident)
      else if first == b':'
      then err (cannot_start_with_colon ident)
      else if last first rest == b':'
      then err (cannot_end_with_colon ident)
      else checked ident (invalid_from 0 [] ident)
