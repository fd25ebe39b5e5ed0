-- ===== src/Wal/Reader/Parts.antt =====
-- The parts of an entry's payload: how each is read, and that it reads what the writer writes.
use kobzar.Base.{
  ℕ, zero, suc, ◌*◌, ◌/◌, ◌%◌, ◌<◌, bit_or, Bool, true, false, List, [], ◌∷◌, ◌++◌, map, Option,
  some, ◌>>=◌, ◌==◌, if◌then◌else◌, take, drop, length, concat, concat-append, All, arith, ◌≡◌,
  refl, append_assoc, append-nil, take-length_append, drop-length_append,
}
use kobzar.Base.Bytes.{read_le, le_bytes, read_le-le_bytes, IsU64}
use kobzar.Wal.Entry.{
  WalEntry, TableKind, schemafull, schemafull_adt, schemaless, schemafull_schemaless,
  schemafull_adt_schemaless, TableStoreBehavior, directly_storable, field_only, singleton,
  TriggerExecKind, before_insert, before_update, before_delete, after_insert, after_update,
  after_delete, OrderIndexFieldCfg, table_kind_code, store_behavior_code, trigger_kind_code,
}
use kobzar.Wal.Payload.{id, flag, to_u8, order_flags, order_field}

abbrev pub of_table_kind : ℕ → TableKind
of_table_kind c =
    if c == 1
    then schemafull
    else if c == 2
    then schemafull_adt
    else if c == 3
    then schemaless
    else if c == 4
    then schemafull_schemaless
    else schemafull_adt_schemaless

abbrev pub of_store_behavior : ℕ → TableStoreBehavior
of_store_behavior c = if c == 1 then directly_storable else if c == 2 then field_only else singleton

abbrev pub of_trigger_kind : ℕ → TriggerExecKind
of_trigger_kind c =
    if c == 1
    then before_insert
    else if c == 2
    then before_update
    else if c == 3
    then before_delete
    else if c == 4
    then after_insert
    else if c == 5
    then after_update
    else after_delete

-- Each of these reads one part and hands it to the reader of what follows.
unfoldable pub ids1 : (ℕ → List ℕ → Option WalEntry) → List ℕ → Option WalEntry
ids1 k bytes = read_le 8 bytes >>= λ (a, rest). k a rest

unfoldable pub flag1 : (Bool → List ℕ → Option WalEntry) → List ℕ → Option WalEntry
flag1 k bytes = read_le 1 bytes >>= λ (b, rest). k (b == 1) rest

-- a text behind its length
unfoldable pub text : (List ℕ → List ℕ → Option WalEntry) → List ℕ → Option WalEntry
text k = ids1 λ n rest. k (take n rest) (drop n rest)

unfoldable pub read_many {ℓ} :
    {A : Type ℓ} → (List ℕ → Option (A × List ℕ)) → ℕ → List ℕ → Option (List A × List ℕ)
read_many one zero bytes = some ([], bytes)
read_many one (suc n) bytes =
    one bytes >>= λ (a, rest). read_many one n rest >>= λ (as', rest'). some (a ∷ as', rest')

unfoldable pub read_order_field : List ℕ → Option (OrderIndexFieldCfg × List ℕ)
read_order_field bytes = read_le 8 bytes >>= λ (i, rest). read_le 1 rest >>= λ (f, rest').
    some (record { field_idx = i; is_ascending = f % 2 == 1; none_is_first = f / 2 == 1 }, rest')

unfoldable pub id_list : (List ℕ → List ℕ → Option WalEntry) → List ℕ → Option WalEntry
id_list k = ids1 λ n rest. read_many (read_le 8) n rest >>= λ (ids, rest'). k ids rest'

unfoldable pub order_list :
    (List OrderIndexFieldCfg → List ℕ → Option WalEntry) → List ℕ → Option WalEntry
order_list k = ids1 λ n rest. read_many read_order_field n rest >>= λ (cs, rest'). k cs rest'

-- What each reads off the front of what the writer wrote.
module _ (rest : List ℕ) where
  pub ids1_lem :
      (k : ℕ → List ℕ → Option WalEntry) (a : ℕ) → IsU64 a → ids1 k (id a ++ rest) ≡ k a rest
  unfolding ids1
  ids1_lem k a h = rw (read_le-le_bytes 8 a rest (omega arith))

  pub flag1_lem :
      (k : Bool → List ℕ → Option WalEntry) (b : Bool) → flag1 k (flag b ++ rest) ≡ k b rest
  unfolding flag1
  flag1_lem k true = rw (read_le-le_bytes 1 1 rest (omega arith))
  flag1_lem k false = rw (read_le-le_bytes 1 0 rest (omega arith))

pub text_lem :
    (rest : List ℕ) (k : List ℕ → List ℕ → Option WalEntry) (t : List ℕ)
    → IsU64 (length t)
    → text k (id (length t) ++ (t ++ rest)) ≡ k t rest
unfolding text
text_lem rest k t h =
    rw (ids1_lem (t ++ rest) _ (length t) h, take-length_append t rest, drop-length_append t rest)

read_ids :
    (rest ids : List ℕ)
    → All IsU64 ids
    → read_many (read_le 8) (length ids) (concat (map id ids) ++ rest) ≡ some (ids, rest)
unfolding read_many
read_ids rest [] h = refl
read_ids rest (a ∷ ids) (ha, h) = rw (
  append_assoc (id a) (concat (map id ids)) rest,
  read_le-le_bytes 8 a (concat (map id ids) ++ rest) (omega arith),
  read_ids rest ids h,
)

flags_lem :
    (a n : Bool)
    → let flags = bit_or (to_u8 a) (to_u8 n * 2) in
      (flags < 256) × ((flags % 2 == 1) ≡ a) × ((flags / 2 == 1) ≡ n)
flags_lem true true = (omega arith, refl, refl)
flags_lem true false = (omega arith, refl, refl)
flags_lem false true = (omega arith, refl, refl)
flags_lem false false = (omega arith, refl, refl)

read_order_field_lem :
    (rest : List ℕ) (c : OrderIndexFieldCfg)
    → IsU64 c.field_idx
    → read_order_field (concat (order_field c) ++ rest) ≡ some (c, rest)
unfolding read_order_field
read_order_field_lem rest c h =
    let (small, asc, first) = flags_lem c.is_ascending c.none_is_first in
    rw (
      append_assoc (id c.field_idx) (le_bytes 1 (order_flags c) ++ []) rest,
      read_le-le_bytes 8 c.field_idx ((le_bytes 1 (order_flags c) ++ []) ++ rest) (omega arith),
      append-nil (le_bytes 1 (order_flags c)),
      read_le-le_bytes 1 (order_flags c) rest (omega arith),
      asc,
      first,
    )

read_order_fields :
    (rest : List ℕ) (cs : List OrderIndexFieldCfg)
    → All (λ c. IsU64 c.field_idx) cs
    → read_many read_order_field (length cs) (concat (concat (map order_field cs)) ++ rest)
      ≡ some (cs, rest)
unfolding read_many
read_order_fields rest [] h = refl
read_order_fields rest (c ∷ cs) (hc, h) = rw (
  concat-append (order_field c) (concat (map order_field cs)),
  append_assoc (concat (order_field c)) (concat (concat (map order_field cs))) rest,
  read_order_field_lem (concat (concat (map order_field cs)) ++ rest) c hc,
  read_order_fields rest cs h,
)

module _ (after : List (List ℕ)) where
  pub id_list_lem :
      (k : List ℕ → List ℕ → Option WalEntry) (ids : List ℕ)
      → IsU64 (length ids)
      → All IsU64 ids
      → id_list k (id (length ids) ++ concat (map id ids ++ after)) ≡ k ids (concat after)
  unfolding id_list
  id_list_lem k ids n h = rw (
    concat-append (map id ids) after,
    ids1_lem (concat (map id ids) ++ concat after) _ (length ids) n,
    read_ids (concat after) ids h,
  )

  pub order_list_lem :
      (k : List OrderIndexFieldCfg → List ℕ → Option WalEntry) (cs : List OrderIndexFieldCfg)
      → IsU64 (length cs)
      → All (λ c. IsU64 c.field_idx) cs
      → order_list k (id (length cs) ++ concat (concat (map order_field cs) ++ after))
        ≡ k cs (concat after)
  unfolding order_list
  order_list_lem k cs n h = rw (
    concat-append (concat (map order_field cs)) after,
    ids1_lem (concat (concat (map order_field cs)) ++ concat after) _ (length cs) n,
    read_order_fields (concat after) cs h,
  )

-- The codes of the enums fit, and are read back.
pub table_kind_lem :
    (k : TableKind) → IsU64 (table_kind_code k) × (of_table_kind (table_kind_code k) ≡ k)
unfolding table_kind_code
table_kind_lem k = ground arith

pub store_behavior_lem :
    (b : TableStoreBehavior)
    → IsU64 (store_behavior_code b) × (of_store_behavior (store_behavior_code b) ≡ b)
unfolding store_behavior_code
store_behavior_lem b = ground arith

pub trigger_kind_lem :
    (k : TriggerExecKind)
    → IsU64 (trigger_kind_code k) × (of_trigger_kind (trigger_kind_code k) ≡ k)
unfolding trigger_kind_code
trigger_kind_lem k = ground arith
