-- ===== src/Pidx/Loads.antt =====
-- Pages of the primary index that `PageStore::load_from_disk` of
-- kobzar/src/q_engine/storage/idx_common.rs loads by the keys of kobzar/src/q_engine/storage/pidx.rs.
use kobzar.Base.{ℕ, ◌≡◌, refl, ap, ◌∙◌, sym, subst, List, [], Bool, some, take, inl, inr}
use kobzar.Base.Results.{Result, ok}
use kobzar.Cache.Store.{KeyExt, Files, load_from_disk}
use kobzar.Cache.Store.Fetch.{Result-cases}
use kobzar.Pidx.{Page}
use kobzar.Pidx.Keys.{Key, bound_keys, page_bound, filename, SameIndex}
use mathlib.Core.Option

module _ (k : KeyExt) (P : Type 0) (f : Files) (page_size : ℕ) (from_bytes : List ℕ → P) where
  open f use {Dir, contents, open_file, read_exact, open_file_ok, read_exact_ok}

  -- the start of the file, which stays as it was
  load_from_disk-contents :
      (s : Dir) (key : k.PageKey) (create : Bool) {t : Dir} {page : P}
      → load_from_disk k P f page_size from_bytes s key create ≡ (t, ok page)
      → (page ≡ from_bytes (take page_size (Option.get_or (contents s (k.filename key)) [])))
        × (contents t (k.filename key) ≡ some (Option.get_or (contents s (k.filename key)) []))
  unfolding load_from_disk
  load_from_disk-contents s key create {t} {page} e =
      elim (Result-cases (open_file s (k.filename key) create)) [
        | inr (x, failed) ↦ absurd (
            let h = rw (failed, load_from_disk) at e in
            let r = ap (λ (p : Dir × Result f.IoError P). p.1) h in cc (r))
        | inl (u, opened) ↦ elim (Result-cases (read_exact u (k.filename key) page_size)) [
          | inr (x, failed) ↦ absurd (
              let h = rw (opened, load_from_disk, failed) at e in
              let r = ap (λ (p : Dir × Result f.IoError P). p.1) h in cc (r))
          | inl (bytes, got) ↦
              let (all, there, _, start) = read_exact_ok u (k.filename key) page_size got in
              let held = open_file_ok s (k.filename key) create opened in
              let h = rw (opened, load_from_disk, got) at e in
              let same_dir : u ≡ t = ap (λ (p : Dir × Result f.IoError P). p.0) h in
              let same_page : ok (from_bytes bytes) ≡ ok page =
                ap (λ (p : Dir × Result f.IoError P). p.1) h in
              (cc (same_page, start, there, held), cc (held, same_dir))
        ]
      ]

same_filename : (k l : Key) → SameIndex k l → filename (page_bound k) ≡ filename (page_bound l)
unfolding filename page_bound
same_filename k l (types, dbs) = rw (types, dbs) refl

-- Two pages of one type and database, whatever their numbers, are equal when load_from_disk loads
-- one after the other.
pub load_from_disk-SameIndex :
    (f : Files) (page_size : ℕ) (from_bytes : List ℕ → Page) (s : f.Dir) (k l : Key)
    (create create' : Bool) {t u : f.Dir} {page page' : Page}
    → SameIndex k l
    → load_from_disk bound_keys Page f page_size from_bytes s (page_bound k) create ≡ (t, ok page)
    → load_from_disk bound_keys Page f page_size from_bytes t (page_bound l) create' ≡ (u, ok page')
    → page ≡ page'
load_from_disk-SameIndex f page_size from_bytes s k l create create' {t} index first second =
    let (read, held) =
      load_from_disk-contents bound_keys Page f page_size from_bytes s (page_bound k) create
        first in
    let (read', _) =
      load_from_disk-contents bound_keys Page f page_size from_bytes t (page_bound l) create'
        second in
    let again : f.contents t (filename (page_bound l))
        ≡ some (Option.get_or (f.contents s (filename (page_bound k))) []) =
      subst (λ n. f.contents t n ≡ some (Option.get_or (f.contents s (filename (page_bound k))) []))
        (same_filename k l index) held in
    read ∙ sym (rw again at read')
