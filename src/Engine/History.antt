-- ===== src/Engine/History.antt =====
-- The histories of a `Db` and its `Types`, kobzar/src/q_engine.rs: each structure is added under an
-- identifier that `next_type_id` issues.
use kobzar.Base.{
  ℕ, suc, ◌+◌, ◌%◌, ◌^◌, ◌≤◌, ◌<◌, ◌≡◌, ◌≢◌, refl, arith, List, [], ◌∷◌, ◌++◌, map, All, some, none,
  Option-cases, inl, inr,
}
use kobzar.Base.Maps
use kobzar.Base.Maps.{Distinct, keys, All-map_fun, All-append, Distinct-append_one}
use kobzar.Dt.{advance}
use kobzar.Engine.Db.{Db, new, next_type_id}
use kobzar.Engine.Ident.{IdentPath}
use kobzar.Engine.Registry.{Types, add_struct, ensure_free_name, struct_mut, replace_struct}
use kobzar.Engine.Structs.{Struct, TypeKind, struct, tuple, generic_instance}
use kobzar.Wal.Entry.{TypeId}
use mathlib.Core.List.{map-append}
use native.Mathlib.Decide.{ℕ_discrete}

module _ (Library : Type 0) (same_name : Discrete IdentPath) where
  abbrev Names : Type 0
  Names = List (IdentPath × TypeId)

  abbrev Kinds : Type 0
  Kinds = List (TypeId × TypeKind Library)

  -- The databases after `n` calls of `add_struct`.
  pub data History : ℕ → Db Library same_name → Type 0 where
    created : (name : IdentPath) → History 0 (new Library same_name name)
    registered :
        {n : ℕ} {db : Db Library same_name}
        → History n db
        → (name : IdentPath) (struc : Struct Library)
        → History (suc n) (record (next_type_id Library same_name db).0 {
          types =
              (add_struct Library same_name db.types name struc
                (next_type_id Library same_name db).1).0;
        })
    exchanged :
        {n : ℕ} {db : Db Library same_name}
        → History n db
        → (id : TypeId) (struc : Struct Library)
        → History n (record db { types = (replace_struct Library same_name db.types id struc).0 })
    written :
        {n : ℕ} {db : Db Library same_name}
        → History n db
        → (id : TypeId) (write : Struct Library → Struct Library)
        → History n (record db { types = (struct_mut Library same_name db.types id write).0 })

  -- a structure stands at the identifier
  abbrev pub IsStructAt : Kinds → TypeId → Type 0
  IsStructAt kinds id = (s : Struct Library) × (Maps.get ℕ_discrete id kinds ≡ some (struct s))

  -- Each name stands once and has an identifier of its own, at which a structure stands.
  pub record IsConsistent (last : TypeId) (t : Types Library same_name) : Type 0 where
    pub own_names : Distinct (keys t.struct_names_to_id)
    pub own_ids : Distinct (map (λ e. e.1) t.struct_names_to_id)
    pub issued : All (λ e. e.1 ≤ last) t.struct_names_to_id
    pub resolved : All (λ e. IsStructAt t.types e.1) t.struct_names_to_id

  ids_ne :
      (last id : ℕ) (names : Names)
      → last < id
      → All (λ e. e.1 ≤ last) names
      → All (λ j. j ≢ id) (map (λ e. e.1) names)
  ids_ne last id [] lt _ = tt
  ids_ne last id (e ∷ names) lt (h, hs) = (λ same. absurd (omega arith), ids_ne last id names lt hs)

  IsStructAt-insert :
      (last id : ℕ) (struc : Struct Library) (kinds : Kinds) (names : Names)
      → last < id
      → All (λ e. e.1 ≤ last) names
      → All (λ e. IsStructAt kinds e.1) names
      → All (λ e. IsStructAt (Maps.insert ℕ_discrete id (struct struc) kinds) e.1) names
  IsStructAt-insert last id struc kinds [] lt _ _ = tt
  IsStructAt-insert last id struc kinds (e ∷ names) lt (h, hs) ((s, at), rest) = (
    (
      s,
      rw (Maps.get-insert_ne ℕ_discrete id (struct struc) kinds e.1 (λ same. absurd (omega arith)))
          at,
    ),
    IsStructAt-insert last id struc kinds names lt hs rest,
  )

  add_struct-IsConsistent :
      (t : Types Library same_name) (name : IdentPath) (struc : Struct Library) (last id : TypeId)
      → last < id
      → IsConsistent last t
      → IsConsistent id (add_struct Library same_name t name struc id).0
  unfolding add_struct ensure_free_name
  add_struct-IsConsistent t name struc last id lt c =
      elim (Option-cases (Maps.get same_name name t.struct_names_to_id)) [
        | inr (old, e) ↦ rw (e, add_struct) later
        | inl e ↦
            rw (e, add_struct)
              (record {
                own_names =
                    rw (added e, map-append)
                      (Distinct-append_one (keys t.struct_names_to_id) name c.own_names
                        (Maps.not_key_of_none same_name name t.struct_names_to_id e));
                own_ids =
                    rw (added e, map-append)
                      (Distinct-append_one (map (λ e. e.1) t.struct_names_to_id) id c.own_ids
                        (ids_ne last id t.struct_names_to_id lt c.issued));
                issued = rw (added e) (
                    All-append (λ e. e.1 ≤ id) t.struct_names_to_id ((name, id) ∷ []) later.issued
                      (omega arith, tt));
                resolved = rw (added e) (
                    All-append
                      (λ e. IsStructAt (Maps.insert ℕ_discrete id (struct struc) t.types) e.1)
                      t.struct_names_to_id ((name, id) ∷ [])
                      (IsStructAt-insert last id struc t.types t.struct_names_to_id lt c.issued
                        c.resolved)
                      ((struc, Maps.get-insert_self ℕ_discrete id (struct struc) t.types), tt));
              })
      ]
    where
      later : IsConsistent id t
      later = record {
        own_names = c.own_names;
        own_ids = c.own_ids;
        issued = All-map_fun (λ e h. omega arith) t.struct_names_to_id c.issued;
        resolved = c.resolved;
      }

      added :
          Maps.get same_name name t.struct_names_to_id ≡ none
          → Maps.insert same_name name id t.struct_names_to_id
            ≡ t.struct_names_to_id ++ ((name, id) ∷ [])
      added e = Maps.insert_new same_name name id t.struct_names_to_id e

  -- a structure in the place of another
  abbrev put : TypeId → Struct Library → Types Library same_name → Types Library same_name
  put id new t = record t { types = Maps.modify ℕ_discrete id (λ _. struct new) t.types }

  IsStructAt-put :
      (id : TypeId) (new : Struct Library) (t : Types Library same_name) (j : TypeId)
      → IsStructAt t.types j
      → IsStructAt (put id new t).types j
  IsStructAt-put id new t j (s, at) = elim (ℕ_discrete j id) [
    | yes same ↦ (
      new,
      rw same
          (Maps.get-modify_self ℕ_discrete id (λ _. struct new) t.types (struct s) (rw same at at)),
    )
    | no other ↦ (s, rw (Maps.get-modify_ne ℕ_discrete id (λ _. struct new) t.types j other) at)
  ]

  put-IsConsistent :
      (last id : TypeId) (new : Struct Library) (t : Types Library same_name)
      → IsConsistent last t
      → IsConsistent last (put id new t)
  put-IsConsistent last id new t c = record {
    own_names = c.own_names;
    own_ids = c.own_ids;
    issued = c.issued;
    resolved = All-map_fun (λ e. IsStructAt-put id new t e.1) t.struct_names_to_id c.resolved;
  }

  replace_struct-IsConsistent :
      (t : Types Library same_name) (id last : TypeId) (new : Struct Library)
      → IsConsistent last t
      → IsConsistent last (replace_struct Library same_name t id new).0
  unfolding replace_struct
  replace_struct-IsConsistent t id last new c =
      elim (Option-cases (Maps.get ℕ_discrete id t.types)) [
        | inl e ↦ rw e c
        | inr (struct old, e) ↦ rw e (put-IsConsistent last id new t c)
        | inr (tuple tys, e) ↦ rw e c
        | inr (generic_instance g, e) ↦ rw e c
      ]

  struct_mut-IsConsistent :
      (t : Types Library same_name) (id last : TypeId) (write : Struct Library → Struct Library)
      → IsConsistent last t
      → IsConsistent last (struct_mut Library same_name t id write).0
  unfolding struct_mut
  struct_mut-IsConsistent t id last write c = elim (Option-cases (Maps.get ℕ_discrete id t.types)) [
    | inl e ↦ rw (e, struct_mut) c
    | inr (struct old, e) ↦ rw (e, struct_mut) (put-IsConsistent last id (write old) t c)
    | inr (tuple tys, e) ↦ rw (e, struct_mut) c
    | inr (generic_instance g, e) ↦ rw (e, struct_mut) c
  ]

  -- After fewer than 2 ^ 64 registrations in a new database, each an add_struct with an
  -- identifier that next_type_id issues for it, and any calls of replace_struct and writes
  -- through struct_mut, in any order, every registered name stands once and has an identifier of
  -- its own, at which a structure stands, and the last identifier is the number of registrations.
  pub History-IsConsistent :
      {n : ℕ} {db : Db Library same_name}
      → History n db
      → n < 2 ^ 64
      → IsConsistent db.last_type_id db.types × (db.last_type_id ≡ n)
  unfolding new next_type_id advance
  History-IsConsistent (created name) bound =
      (record { own_names = tt; own_ids = tt; issued = tt; resolved = tt }, refl)
  History-IsConsistent (registered {n} {db} r name struc) bound =
      let (c, count) = History-IsConsistent r (omega arith) in
      let next : (db.last_type_id + 1) % 2 ^ 64 ≡ suc n = omega arith in
      (
        rw next
            (add_struct-IsConsistent db.types name struc db.last_type_id (suc n) (omega arith) c),
        next,
      )
  History-IsConsistent (exchanged {n} {db} r id struc) bound =
      let (c, count) = History-IsConsistent r bound in
      (replace_struct-IsConsistent db.types id db.last_type_id struc c, count)
  History-IsConsistent (written {n} {db} r id write) bound =
      let (c, count) = History-IsConsistent r bound in
      (struct_mut-IsConsistent db.types id db.last_type_id write c, count)
