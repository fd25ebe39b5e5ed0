-- ===== src/Engine/Registry/Laws.antt =====
-- What the operations of `Types` promise, kobzar/src/q_engine.rs.
use kobzar.Base.{◌≡◌, ◌≢◌, ◌⊎◌, inl, inr, refl, none, some, Option-cases}
use kobzar.Base.Maps
use kobzar.Base.Results.{ok, err}
use kobzar.Wal.Entry.{TypeId}
use kobzar.Engine.Ident.{IdentPath}
use kobzar.Engine.Structs.{Struct, struct, tuple, generic_instance}
use kobzar.Engine.Registry.{
  name_taken, GetStructError, not_found, not_struct, Types, ensure_free_name, add_struct,
  struct_ref, replaced, refused, replace_struct,
}
use native.Mathlib.Decide.{ℕ_discrete}

module _ (Library : Type 0) (same_name : Discrete IdentPath) where
  abbrev pub Registry : Type 0
  Registry = Types Library same_name

  -- The entries of the types, structures and others, differ at `id` only.
  abbrev pub SameBut : TypeId → Registry → Registry → Type 0
  SameBut id t t' =
      (j : TypeId) → j ≢ id → Maps.get ℕ_discrete j t'.types ≡ Maps.get ℕ_discrete j t.types

  -- add_struct of a taken name fails and changes nothing; of a free name it maps the name to the
  -- identifier and the identifier to the structure, and changes no other name and no other type.
  pub add_struct_cases :
      (t : Registry) (name : IdentPath) (struc : Struct Library) (id : TypeId)
      → ((old : TypeId) × (Maps.get same_name name t.struct_names_to_id ≡ some old)
          × (add_struct Library same_name t name struc id ≡ (t, err (name_taken name))))
        ⊎ ((t' : Registry) × (Maps.get same_name name t.struct_names_to_id ≡ none)
            × (add_struct Library same_name t name struc id ≡ (t', ok tt))
            × (Maps.get same_name name t'.struct_names_to_id ≡ some id)
            × (struct_ref Library same_name t' id ≡ ok struc)
            × SameBut id t t'
            × ((n : IdentPath)
                → n ≢ name
                → Maps.get same_name n t'.struct_names_to_id
                  ≡ Maps.get same_name n t.struct_names_to_id))
  unfolding add_struct ensure_free_name struct_ref
  add_struct_cases t name struc id =
      elim (Option-cases (Maps.get same_name name t.struct_names_to_id)) [
        | inr (old, e) ↦ inl (old, e, rw (e, add_struct) refl)
        | inl e ↦ inr (
          record t {
            struct_names_to_id = Maps.insert same_name name id t.struct_names_to_id;
            types = Maps.insert ℕ_discrete id (struct struc) t.types;
          },
          e,
          rw (e, add_struct) refl,
          Maps.get-insert_self same_name name id t.struct_names_to_id,
          rw (Maps.get-insert_self ℕ_discrete id (struct struc) t.types) refl,
          (λ j ne. Maps.get-insert_ne ℕ_discrete id (struct struc) t.types j ne),
          λ n ne. Maps.get-insert_ne same_name name id t.struct_names_to_id n ne,
        )
      ]

  -- replace_struct of a structure puts the new one there, changes no other type and no name,
  -- answers the old one, and replacing back restores the registry; otherwise it changes nothing
  -- and hands the new structure back with the error of struct_ref.
  pub replace_struct_cases :
      (t : Registry) (id : TypeId) (new : Struct Library)
      → ((old : Struct Library) × (t' : Registry) × (struct_ref Library same_name t id ≡ ok old)
          × (replace_struct Library same_name t id new ≡ (t', replaced old))
          × (struct_ref Library same_name t' id ≡ ok new)
          × SameBut id t t'
          × (t'.struct_names_to_id ≡ t.struct_names_to_id)
          × (replace_struct Library same_name t' id old ≡ (t, replaced new)))
        ⊎ ((e : GetStructError) × (struct_ref Library same_name t id ≡ err e)
            × (replace_struct Library same_name t id new ≡ (t, refused new e)))
  unfolding replace_struct struct_ref
  replace_struct_cases t id new = elim (Option-cases (Maps.get ℕ_discrete id t.types)) [
    | inl e ↦ inr (not_found id, rw e refl, rw e refl)
    | inr (tuple tys, e) ↦ inr (not_struct id, rw e refl, rw e refl)
    | inr (generic_instance g, e) ↦ inr (not_struct id, rw e refl, rw e refl)
    | inr (struct old, e) ↦
        let there = Maps.get-modify_self ℕ_discrete id (λ _. struct new) t.types (struct old) e in
        inl (
          old,
          record t { types = Maps.modify ℕ_discrete id (λ _. struct new) t.types },
          rw e refl,
          rw e refl,
          rw there refl,
          (λ j ne. Maps.get-modify_ne ℕ_discrete id (λ _. struct new) t.types j ne),
          refl,
          rw (there, Maps.modify-modify ℕ_discrete id (struct old) (struct new) t.types e) refl,
        )
  ]
