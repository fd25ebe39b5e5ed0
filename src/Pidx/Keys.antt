-- ===== src/Pidx/Keys.antt =====
-- `Key` and `PageBoundKey` of kobzar/src/q_engine/storage/pidx.rs, with their file names.
use kobzar.Base.{ℕ, ◌+◌, ◌-◌, ◌/◌, ◌%◌, ◌<◌, ◌≡◌, ◌↔◌, refl, ap, arith, drop, List, [], ◌∷◌, ◌++◌}
use kobzar.Cache.Store.{KeyExt}
use kobzar.Base.Bytes.{IsU64}
use kobzar.Dt.Unique.{show_u64-injective, show_u64-IsDigit, split_unique, IsDigit}
use kobzar.Wal.Names.Laws.{strip_suffix-append}
use kobzar.Pidx.{page_size_recs}
use kobzar.Wal.Names.{show_u64}
use native.Mathlib.Decide.{ℕ_discrete}

pub record Key : Type 0 where
  pub type_id : ℕ
  pub item : ℕ
  pub db : ℕ

-- `PageBoundKey` is a transparent wrapper of a key.
unfoldable pub page_bound : Key → Key
page_bound key = record key { item = key.item - key.item % page_size_recs }

unfoldable pub in_page_offset : Key → ℕ
in_page_offset key = key.item % page_size_recs

-- `pidx-{}-{}.idx`
unfoldable pub filename : Key → List ℕ
filename key =
    (b'p' ∷ b'i' ∷ b'd' ∷ b'x' ∷ b'-' ∷ [])
    ++ (show_u64 key.db ++ (b'-' ∷ (show_u64 key.type_id ++ (b'.' ∷ b'i' ∷ b'd' ∷ b'x' ∷ []))))

pub Key-discrete : Discrete Key
Key-discrete = hlevel (ℕ_discrete)

-- The keys of the cache of primary index pages.
abbrev pub pidx_keys : KeyExt
pidx_keys = record {
  Key = Key;
  PageKey = Key;
  page_bound = page_bound;
  filename = filename;
  same = Key-discrete;
}

-- A bound key is its own page's; `PageStore` of pidx.rs is the cache with these keys.
abbrev pub bound_keys : KeyExt
bound_keys = record {
  Key = Key;
  PageKey = Key;
  page_bound = λ key. key;
  filename = filename;
  same = Key-discrete;
}

abbrev pub SameIndex : Key → Key → Type 0
SameIndex k l = (k.type_id ≡ l.type_id) × (k.db ≡ l.db)

key_ext :
    {t t' i i' d d' : ℕ}
    → i ≡ i'
    → t ≡ t'
    → d ≡ d'
    → Path Key
        (record { type_id = t; item = i; db = d })
        (record { type_id = t'; item = i'; db = d' })
key_ext p q r = λ j. record { type_id = q j; item = p j; db = r j }

-- Keys of other indexes have other files.
filename-SameIndex :
    (k l : Key)
    → IsU64 k.type_id
    → IsU64 k.db
    → IsU64 l.type_id
    → IsU64 l.db
    → filename k ≡ filename l
    → SameIndex k l
unfolding filename
filename-SameIndex k l kt kd lt ld e =
    let ext : List ℕ = b'.' ∷ b'i' ∷ b'd' ∷ b'x' ∷ [] in
    let behind : show_u64 k.db ++ (b'-' ∷ (show_u64 k.type_id ++ ext))
        ≡ show_u64 l.db ++ (b'-' ∷ (show_u64 l.type_id ++ ext)) =
      ap (drop 5) e in
    let (db, rest) =
      split_unique IsDigit (show_u64 k.db) (show_u64 l.db) b'-' b'-' (show_u64 k.type_id ++ ext)
        (show_u64 l.type_id ++ ext) (show_u64-IsDigit k.db kd) (show_u64-IsDigit l.db ld)
        (λ p. omega arith) (λ p. omega arith) behind in
    let named : show_u64 k.type_id ++ ext ≡ show_u64 l.type_id ++ ext = cc rest in
    let shown : show_u64 k.type_id ≡ show_u64 l.type_id = cc (
      strip_suffix-append (show_u64 k.type_id) ext,
      strip_suffix-append (show_u64 l.type_id) ext,
      named,
    ) in
    (show_u64-injective k.type_id l.type_id kt lt shown, show_u64-injective k.db l.db kd ld db)

-- For keys of 64-bit types and databases, page_bound is idempotent, the offset lies in the page
-- and leads from the bound back to the item, two keys have the same bound exactly where type,
-- database and page number agree, and the bound of a key has the file name of another key exactly
-- where type and database agree.
pub page_bound-in_page_offset :
    (k l : Key)
    → IsU64 k.type_id
    → IsU64 k.db
    → IsU64 l.type_id
    → IsU64 l.db
    → (page_bound (page_bound k) ≡ page_bound k)
      × (in_page_offset k < page_size_recs)
      × ((page_bound k).item + in_page_offset k ≡ k.item)
      × ((page_bound k ≡ page_bound l)
          ↔ (SameIndex k l × (k.item / page_size_recs ≡ l.item / page_size_recs)))
      × ((filename (page_bound k) ≡ filename l) ↔ SameIndex k l)
unfolding page_bound in_page_offset filename
page_bound-in_page_offset k l kt kd lt ld = (
  key_ext (omega arith) refl refl,
  omega arith,
  omega arith,
  (
    λ e.
        (let t : k.type_id ≡ l.type_id = ap (λ (q : Key). q.type_id) e in
          let d : k.db ≡ l.db = ap (λ (q : Key). q.db) e in
          let i : k.item - k.item % 4096 ≡ l.item - l.item % 4096 = ap (λ (q : Key). q.item) e in
          ((t, d), omega arith)),
    λ ((t, d), p). key_ext (omega arith) t d,
  ),
  (λ e. filename-SameIndex k l kt kd lt ld e, λ (t, d). rw (t, d) refl),
)
