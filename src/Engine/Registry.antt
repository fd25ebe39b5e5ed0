-- ===== src/Engine/Registry.antt =====
-- `Types` of kobzar/src/q_engine.rs. A reference into the map is the value that stands there.
pub mod Laws
use kobzar.Base.{ℕ, List, [], ◌∷◌, Option, none, some, Bool, true, false, if◌then◌else◌}
use kobzar.Base.Maps
use kobzar.Base.Results.{Result, ok, err}
use kobzar.Wal.Entry.{TypeId}
use kobzar.Engine.Ident.{IdentPath}
use kobzar.Engine.Structs.{Struct, TypeKind, struct, tuple, generic_instance}
use native.Mathlib.Decide.{ℕ_discrete}

pub data RegisterStructError : Type 0 where
  name_taken : (name : IdentPath) → RegisterStructError

pub data GetStructError : Type 0 where
  not_found : TypeId → GetStructError
  not_struct : TypeId → GetStructError

-- equality of names, which `HashMap` asks for
module _ (Library : Type 0) (same_name : Discrete IdentPath) where
  pub record Types : Type 0 where
    pub struct_names_to_id : List (IdentPath × TypeId)
    pub types : List (TypeId × TypeKind Library)

  unfoldable pub ensure_free_name : Types → IdentPath → Result RegisterStructError IdentPath
  ensure_free_name t name = elim (Maps.get same_name name t.struct_names_to_id) [
    | some _ ↦ err (name_taken name)
    | none ↦ ok name
  ]

  unfoldable pub add_struct :
      Types → IdentPath → Struct Library → TypeId → Types × Result RegisterStructError (Unit {0})
  add_struct t name struc type_id = elim (ensure_free_name t name) [
    | err e ↦ (t, err e)
    | ok free ↦ (
      record t {
        struct_names_to_id = Maps.insert same_name free type_id t.struct_names_to_id;
        types = Maps.insert ℕ_discrete type_id (struct struc) t.types;
      },
      ok tt,
    )
  ]

  abbrev pub as_struct : TypeId → Option (TypeKind Library) → Result GetStructError (Struct Library)
  as_struct id (some (struct struc)) = ok struc
  as_struct id (some _) = err (not_struct id)
  as_struct id none = err (not_found id)

  unfoldable pub struct_ref : Types → TypeId → Result GetStructError (Struct Library)
  struct_ref t id = as_struct id (Maps.get ℕ_discrete id t.types)

  -- a write through the reference that `struct_mut` lends out
  unfoldable pub struct_mut :
      Types → TypeId → (Struct Library → Struct Library) → Types × Result GetStructError (Unit {0})
  struct_mut t id write = elim (as_struct id (Maps.get ℕ_discrete id t.types)) [
    | err e ↦ (t, err e)
    | ok struc ↦
        (record t { types = Maps.modify ℕ_discrete id (λ _. struct (write struc)) t.types }, ok tt)
  ]

  abbrev pub is_struct : TypeKind Library → Bool
  is_struct (struct _) = true
  is_struct _ = false

  abbrev pub try_into_struct : TypeKind Library → Option (Struct Library)
  try_into_struct (struct struc) = some struc
  try_into_struct _ = none

  -- The result of a replacement; `panics` is the panic of `expect`.
  pub data Replaced : Type 0 where
    replaced : (old : Struct Library) → Replaced
    refused : (new : Struct Library) (error : GetStructError) → Replaced
    panics : Replaced

  abbrev pub taken_out : Option (Struct Library) → Replaced
  taken_out (some old) = replaced old
  taken_out none = panics

  abbrev pub replace_entry :
      Types → TypeId → Struct Library → Option (TypeKind Library) → Types × Replaced
  replace_entry t id new none = (t, refused new (not_found id))
  replace_entry t id new (some kind) =
      if is_struct kind
      then (
        record t { types = Maps.modify ℕ_discrete id (λ _. struct new) t.types },
        taken_out (try_into_struct kind),
      )
      else (t, refused new (not_struct id))

  unfoldable pub replace_struct : Types → TypeId → Struct Library → Types × Replaced
  replace_struct t id new = replace_entry t id new (Maps.get ℕ_discrete id t.types)
