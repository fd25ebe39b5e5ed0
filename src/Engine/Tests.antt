-- ===== src/Engine/Tests.antt =====
-- Identifiers, the registry and the identifiers of types on concrete values.
use kobzar.Base.{
  ℕ, ◌≡◌, ◌≢◌, ◌↔◌, ◌⊎◌, refl, ap, List, [], ◌∷◌, none, some, Bool, false, ◌&&◌, ◌||◌, leb,
  ℕ_discrete, arith,
}
use kobzar.Base.Maps
use kobzar.Base.Maps.{Distinct}
use kobzar.Base.Results.{ok, err}
use kobzar.Engine.Db.{Db, new, next_type_id}
use kobzar.Engine.History.{
  History, created, registered, exchanged, IsConsistent, History-IsConsistent,
}
use kobzar.Engine.Ident.{IdentPath, CharClass}
use kobzar.Engine.Ident
use kobzar.Engine.Ident.Laws.{IsPath, new-ok_iff}
use kobzar.Engine.Registry.{
  name_taken, GetStructError, Types, add_struct, struct_ref, replaced, refused, replace_struct,
}
use kobzar.Engine.Registry.Laws.{SameBut, add_struct_cases, replace_struct_cases}
use kobzar.Engine.Structs.{Struct, struct, new_struct, schemafull_table}
use kobzar.Wal.Entry.{TypeId}

-- the letters and digits of ASCII
abbrev ascii : CharClass
ascii = record {
  is_numeric = λ c. leb b'0' c && leb c b'9';
  is_alphanumeric =
      λ c. (leb b'0' c && leb c b'9') || (leb b'A' c && leb c b'Z') || (leb b'a' c && leb c b'z');
  colon_is_none = refl;
}

-- `a::b`
new-ok_iff_example :
    (Ident.new ascii (b'a' ∷ b':' ∷ b':' ∷ b'b' ∷ [])
      ≡ ok (record { path = b'a' ∷ b':' ∷ b':' ∷ b'b' ∷ [] }))
    ↔ (◌≡◌ {A = Bool} false false × IsPath ascii b'a' (b':' ∷ b':' ∷ b'b' ∷ []))
new-ok_iff_example = new-ok_iff ascii b'a' (b':' ∷ b':' ∷ b'b' ∷ [])

-- `a::b::c` is refused for its last character
three_segments :
    Ident.new ascii (b'a' ∷ b':' ∷ b':' ∷ b'b' ∷ b':' ∷ b':' ∷ b'c' ∷ [])
    ≡ err (Ident.invalid_chars (b'a' ∷ b':' ∷ b':' ∷ b'b' ∷ b':' ∷ b':' ∷ b'c' ∷ []) (b'c' ∷ []))
unfolding Ident.new Ident.invalid_from
three_segments = refl

same_codes : Discrete (List ℕ)
same_codes [] [] = yes refl
same_codes [] (y ∷ ys) = no (λ e. cc (e))
same_codes (x ∷ xs) [] = no (λ e. cc (e))
same_codes (x ∷ xs) (y ∷ ys) = elim (ℕ_discrete x y) [
  | no n ↦ no (λ e. n (cc (e)))
  | yes p ↦ elim (same_codes xs ys) [ no n ↦ no (λ e. n (cc (e))) | yes q ↦ yes (λ i. p i ∷ q i) ]
]

same_ident : Discrete IdentPath
unfolding same_codes
same_ident a b = elim (same_codes a.path b.path) [
  | no n ↦ no (λ e. n (ap (λ (p : IdentPath). p.path) e))
  | yes p ↦ yes (λ i. record { path = p i })
]

abbrev user : IdentPath
user = record { path = b'u' ∷ [] }

abbrev order : IdentPath
order = record { path = b'o' ∷ [] }

-- no code is compiled
abbrev table : Struct (Unit {0})
table = new_struct (Unit {0}) (schemafull_table (record { fields = [] }))

abbrev registry : Types (Unit {0}) same_ident
registry = record { struct_names_to_id = (user, 1) ∷ []; types = (1, struct table) ∷ [] }

add_struct_cases_example :
    ((old : TypeId) × (Maps.get same_ident order registry.struct_names_to_id ≡ some old)
      × (add_struct (Unit {0}) same_ident registry order table 2
          ≡ (registry, err (name_taken order))))
    ⊎ ((t' : Types (Unit {0}) same_ident) × (Maps.get same_ident order registry.struct_names_to_id
          ≡ none)
        × (add_struct (Unit {0}) same_ident registry order table 2 ≡ (t', ok tt))
        × (Maps.get same_ident order t'.struct_names_to_id ≡ some 2)
        × (struct_ref (Unit {0}) same_ident t' 2 ≡ ok table)
        × SameBut (Unit {0}) same_ident 2 registry t'
        × ((n : IdentPath)
            → n ≢ order
            → Maps.get same_ident n t'.struct_names_to_id
              ≡ Maps.get same_ident n registry.struct_names_to_id))
add_struct_cases_example = add_struct_cases (Unit {0}) same_ident registry order table 2

replace_struct_cases_example :
    ((old : Struct (Unit {0})) × (t' : Types (Unit {0}) same_ident) × (struct_ref
          (Unit {0})
          same_ident
          registry
          1
        ≡ ok old)
      × (replace_struct (Unit {0}) same_ident registry 1 table ≡ (t', replaced old))
      × (struct_ref (Unit {0}) same_ident t' 1 ≡ ok table)
      × SameBut (Unit {0}) same_ident 1 registry t'
      × (t'.struct_names_to_id ≡ registry.struct_names_to_id)
      × (replace_struct (Unit {0}) same_ident t' 1 old ≡ (registry, replaced table)))
    ⊎ ((e : GetStructError) × (struct_ref (Unit {0}) same_ident registry 1 ≡ err e)
        × (replace_struct (Unit {0}) same_ident registry 1 table ≡ (registry, refused table e)))
replace_struct_cases_example = replace_struct_cases (Unit {0}) same_ident registry 1 table

-- Two structures are added, the second one under a name that is taken, and the first one is replaced.
abbrev after_three : Db (Unit {0}) same_ident
after_three =
    let db = new (Unit {0}) same_ident user in
    let issued = next_type_id (Unit {0}) same_ident db in
    let db₁ = record issued.0 {
      types = (add_struct (Unit {0}) same_ident db.types order table issued.1).0;
    } in
    let issued₁ = next_type_id (Unit {0}) same_ident db₁ in
    let db₂ = record issued₁.0 {
      types = (add_struct (Unit {0}) same_ident db₁.types order table issued₁.1).0;
    } in
    record db₂ { types = (replace_struct (Unit {0}) same_ident db₂.types 1 table).0 }

three_calls : History (Unit {0}) same_ident 2 after_three
three_calls = exchanged (registered (registered (created user) order table) order table) 1 table

History-IsConsistent_example :
    IsConsistent (Unit {0}) same_ident after_three.last_type_id after_three.types
    × (after_three.last_type_id ≡ 2)
History-IsConsistent_example = History-IsConsistent (Unit {0}) same_ident three_calls (omega arith)
