-- ===== src/Wal/Segments/Laws.antt =====
-- `latest_file_lsn` and `cut_wal` of kobzar/src/q_engine/storage/wal.rs.
use kobzar.Base.{
  ℕ, ◌+◌, ◌%◌, ◌^◌, max, List, [], ◌∷◌, ◌++◌, Option, none, some, Bool, true, ltb, ◌≡◌, ◌≢◌, refl,
  ◌∙◌, ap, arith, All, Bool-cases, ltb→lt, inl, inr,
}
use kobzar.Base.Bytes.{IsU64}
use kobzar.Base.Results.{ok, >>=-eq-ok}
use kobzar.Wal.Names.{Name, file_name}
use kobzar.Wal.Names.Laws.{file_lsn-file_name}
use kobzar.Wal.Segments.{
  FileSystem, Wal, DirEntry, next, raise, max_loop, latest_file_lsn, open_by_lsn, current_offset,
  current_lsn, cut_wal,
}
use mathlib.Core.Option

unfoldable pub maximum : List ℕ → ℕ
maximum [] = 0
maximum (l ∷ ls) = max l (maximum ls)

module _ (fs : FileSystem) where
  open fs use {
    Dir, IoError, read_dir, size, open_append, seek_end, flush, sync_all, remove_file, seek_end_ok,
    flush_ok, sync_all_ok, open_append_ok, open_append_ne, remove_file_ok, remove_file_ne,
  }

  -- the directory entries of WAL files
  abbrev pub wal_entries : List ℕ → List (DirEntry fs)
  wal_entries [] = []
  wal_entries (l ∷ ls) = ok (some (file_name l)) ∷ wal_entries ls

  -- The directory ends here, or goes on with an entry that is no WAL file.
  abbrev pub Foreign : List (DirEntry fs) → Type 0
  Foreign [] = Unit
  Foreign (entry ∷ _) = next fs entry ≡ ok none

  pub next-wal : (l : ℕ) → IsU64 l → next fs (ok (some (file_name l))) ≡ ok (some l)
  unfolding next
  next-wal l h = ap ok (file_lsn-file_name l h)

  max_loop-Foreign :
      (after : List (DirEntry fs)) (m : Option ℕ) → Foreign after → max_loop fs after m ≡ ok m
  unfolding max_loop
  max_loop-Foreign [] m h = refl
  max_loop-Foreign (entry ∷ after) m h = rw (h, max_loop)

  max_loop-step :
      (l : ℕ) (entries : List (DirEntry fs)) (m : Option ℕ)
      → IsU64 l
      → max_loop fs (ok (some (file_name l)) ∷ entries) m ≡ max_loop fs entries (raise fs m l)
  unfolding max_loop
  max_loop-step l entries m h = at_entry (ok (some (file_name l))) (next-wal l h)
    where
      at_entry :
          (entry : DirEntry fs)
          → next fs entry ≡ ok (some l)
          → max_loop fs (entry ∷ entries) m ≡ max_loop fs entries (raise fs m l)
      at_entry entry e = rw (e, max_loop)

  raise-none : (l : ℕ) → raise fs none l ≡ raise fs (some 0) l
  raise-none l = refl

  raise-max : (m l : ℕ) → raise fs (some m) l ≡ some (max m l)
  raise-max m l = elim (Bool-cases (ltb m l)) [
    | inl lt ↦ rw lt (ap (λ (n : ℕ). some n) (omega (arith, ltb→lt m l lt)))
    | inr ge ↦ rw ge (ap (λ (n : ℕ). some n) (ground arith))
  ]

  max_loop-wal :
      (ls : List ℕ) (after : List (DirEntry fs)) (m : ℕ)
      → All IsU64 ls
      → Foreign after
      → max_loop fs (wal_entries ls ++ after) (some m) ≡ ok (some (max m (maximum ls)))
  unfolding maximum
  max_loop-wal [] after m _ f =
      rw (max_loop-Foreign after (some m) f) (ap (λ (n : ℕ). ok (some n)) (omega arith))
  max_loop-wal (l ∷ ls) after m (hl, h) f =
      rw
        (
          max_loop-step l (wal_entries ls ++ after) (some m) hl,
          raise-max m l,
          max_loop-wal ls after (max m l) h f,
        )
        (ap (λ (n : ℕ). ok (some n)) (omega arith))

  max_loop-first :
      (ls : List ℕ) (after : List (DirEntry fs))
      → All IsU64 ls
      → Foreign after
      → (m : Option ℕ) × (max_loop fs (wal_entries ls ++ after) none ≡ ok m)
        × (Option.get_or m 0 ≡ maximum ls)
  unfolding maximum
  max_loop-first [] after _ f = (none, max_loop-Foreign after none f, refl)
  max_loop-first (l ∷ ls) after (hl, h) f = (
    some (max (max 0 l) (maximum ls)),
    rw (
      max_loop-step l (wal_entries ls ++ after) none hl,
      raise-none l,
      raise-max 0 l,
      max_loop-wal ls after (max 0 l) h f,
    ),
    omega arith,
  )

  -- latest_file_lsn is the greatest of the 64-bit LSNs of the WAL files that the directory lists
  -- before its end or its first other entry, and 0 if there is none.
  pub latest_file_lsn-maximum :
      (s : Dir) (ls : List ℕ) (after : List (DirEntry fs))
      → All IsU64 ls
      → Foreign after
      → read_dir s ≡ ok (wal_entries ls ++ after)
      → latest_file_lsn fs s ≡ ok (maximum ls)
  unfolding latest_file_lsn
  latest_file_lsn-maximum s ls after h f e =
      let (m, looped, is_max) = max_loop-first ls after h f in rw (e, looped) (ap ok is_max)

  pub open_by_lsn-ok :
      (s : Dir) (lsn : ℕ) (create : Bool) {w : Wal} {t : Dir}
      → open_by_lsn fs s lsn create ≡ ok (w, t)
      → (open_append s (file_name lsn) create ≡ ok t)
        × (w ≡ record { file = file_name lsn; offset_lsn = lsn })
  unfolding open_by_lsn
  open_by_lsn-ok s lsn create e =
      let (u, opened, built) = >>=-eq-ok (open_append s (file_name lsn) create) _ e in (cc, cc)

  current_lsn-ok :
      (s : Dir) (w : Wal) {u : ℕ}
      → current_lsn fs s w ≡ ok u
      → (n : ℕ) × (size s w.file ≡ some n) × (u ≡ (w.offset_lsn + n) % 2 ^ 64)
  unfolding current_lsn current_offset
  current_lsn-ok s w e =
      let (n, sought, sum) = >>=-eq-ok (seek_end s w.file) _ e in
      (n, seek_end_ok s w.file sought, cc)

  pub cut_wal-file :
      (s : Dir) (w : Wal) (v : ℕ) {w' : Wal} {t : Dir}
      → cut_wal fs s w ≡ ok (w', t)
      → current_lsn fs s w ≡ ok v
      → (w' ≡ record { file = file_name v; offset_lsn = v })
        × (size t (file_name v) ≡ some (Option.get_or (size s (file_name v)) 0))
        × ((m : Name) → m ≢ file_name v → size t m ≡ size s m)
  unfolding cut_wal
  cut_wal-file s w v e lsn =
      let (s₁, flushed, e₁) = >>=-eq-ok (flush s w.file) _ (rw lsn at e) in
      let (s₂, synced, e₂) = >>=-eq-ok (sync_all s₁ w.file) _ e₁ in
      let (opened, built) = open_by_lsn-ok s₂ v true e₂ in
      let same : (m : Name) → size s₂ m ≡ size s m =
        λ m. sync_all_ok s₁ w.file m synced ∙ flush_ok s w.file m flushed in
      (
        built,
        rw (same (file_name v)) at (open_append_ok s₂ (file_name v) opened),
        λ m ne. open_append_ne s₂ (file_name v) m true opened ne ∙ same m,
      )

  -- the log that is open on an empty file is at the LSN of the file's name
  pub current_lsn-empty :
      (t : Dir) (v : ℕ) {u : ℕ}
      → IsU64 v
      → size t (file_name v) ≡ some 0
      → current_lsn fs t (record { file = file_name v; offset_lsn = v }) ≡ ok u
      → u ≡ v
  current_lsn-empty t v small empty now =
      let (n, sought, sum) = current_lsn-ok t _ now in
      let none_written : n ≡ 0 = cc (sought, empty) in omega arith

  -- When cut_wal succeeds, the current LSN is known, fits 64 bits, and the file of that LSN was
  -- missing or empty, the log goes on in the file of the current LSN, the current LSN is
  -- unchanged, and no other file changes its size.
  pub cut_wal-continues :
      (s : Dir) (w : Wal) (v : ℕ) {w' : Wal} {t : Dir}
      → cut_wal fs s w ≡ ok (w', t)
      → current_lsn fs s w ≡ ok v
      → Option.get_or (size s (file_name v)) 0 ≡ 0
      → IsU64 v
      → (w' ≡ record { file = file_name v; offset_lsn = v })
        × ((u : ℕ) → current_lsn fs t w' ≡ ok u → u ≡ v)
        × ((m : Name) → m ≢ file_name v → size t m ≡ size s m)
  cut_wal-continues s w v e lsn fresh small =
      let (built, opened, others) = cut_wal-file s w v e lsn in
      (built, λ u now. current_lsn-empty _ v small (rw fresh at opened) (rw built at now), others)
