-- ===== src/Wal/Segments.antt =====
-- `Wal` of kobzar/src/q_engine/storage/wal.rs and its segment files. The file system (tokio::fs) is a
-- parameter; a directory of WAL files is a value of its type `Dir`.
pub mod Laws
pub mod Drop
pub mod Cycle
use kobzar.Base.{
  ℕ, ◌+◌, ◌%◌, ◌^◌, List, [], ◌∷◌, Option, none, some, Bool, true, false, ltb, if◌then◌else◌, ◌≡◌,
  ◌≢◌,
}
use kobzar.Base.Results.{Result, ok, err, ◌>>=◌}
use kobzar.Wal.Names.{Name, file_name, file_lsn}
use mathlib.Core.Option

-- What `ReadDir::next_entry` and `to_str` make of an entry: an error, a name that is no text, or a name.
-- `size` is the length of a file with what is still buffered for it.
pub record FileSystem : Type 1 where
  pub Dir : Type 0
  pub IoError : Type 0
  pub read_dir : Dir → Result IoError (List (Result IoError (Option Name)))
  pub size : Dir → Name → Option ℕ
  -- `OpenOptions::new().create(…).append(true).read(true).open(…)`
  pub open_append : Dir → Name → Bool → Result IoError Dir
  pub seek_end : Dir → Name → Result IoError ℕ
  pub flush : Dir → Name → Result IoError Dir
  pub sync_all : Dir → Name → Result IoError Dir
  pub remove_file : Dir → Name → Result IoError Dir
  pub seek_end_ok : (s : Dir) (n : Name) {v : ℕ} → seek_end s n ≡ ok v → size s n ≡ some v
  pub flush_ok : (s : Dir) (n m : Name) {t : Dir} → flush s n ≡ ok t → size t m ≡ size s m
  pub sync_all_ok : (s : Dir) (n m : Name) {t : Dir} → sync_all s n ≡ ok t → size t m ≡ size s m
  pub open_append_ok :
      (s : Dir) (n : Name) {t : Dir}
      → open_append s n true ≡ ok t
      → size t n ≡ some (Option.get_or (size s n) 0)
  pub open_append_ne :
      (s : Dir) (n m : Name) (create : Bool) {t : Dir}
      → open_append s n create ≡ ok t
      → m ≢ n
      → size t m ≡ size s m
  pub remove_file_ok : (s : Dir) (n : Name) {t : Dir} → remove_file s n ≡ ok t → size t n ≡ none
  pub remove_file_ne :
      (s : Dir) (n m : Name) {t : Dir} → remove_file s n ≡ ok t → m ≢ n → size t m ≡ size s m

-- The open file is the one that `offset_lsn` names.
pub record Wal : Type 0 where
  pub file : Name
  pub offset_lsn : ℕ

module _ (fs : FileSystem) where
  open fs use {Dir, IoError, read_dir, size, open_append, seek_end, flush, sync_all, remove_file}

  abbrev pub DirEntry : Type 0
  DirEntry = Result IoError (Option Name)

  -- `WalFileLsnStream::next` on the entry that `next_entry` gives
  unfoldable pub next : DirEntry → Result IoError (Option ℕ)
  next (err e) = err e
  next (ok none) = ok none
  next (ok (some name)) = ok (file_lsn name)

  -- `if lsn > *max_lsn { *max_lsn = lsn }` after `get_or_insert(0)`
  abbrev pub raise : Option ℕ → ℕ → Option ℕ
  raise max_lsn lsn =
      let old = Option.get_or max_lsn 0 in if ltb old lsn then some lsn else some old

  -- `while let Some(lsn) = lsns.next().await?`
  unfoldable pub max_loop : List DirEntry → Option ℕ → Result IoError (Option ℕ)
  max_loop [] max_lsn = ok max_lsn
  max_loop (entry ∷ entries) max_lsn = elim (next entry) [
    | err e ↦ err e
    | ok none ↦ ok max_lsn
    | ok (some lsn) ↦ max_loop entries (raise max_lsn lsn)
  ]

  unfoldable pub latest_file_lsn : Dir → Result IoError ℕ
  latest_file_lsn s = do
    lsns ← read_dir s
    max_lsn ← max_loop lsns none
    ok (Option.get_or max_lsn 0)

  unfoldable pub open_by_lsn : Dir → ℕ → Bool → Result IoError (Wal × Dir)
  open_by_lsn s lsn create = do
    t ← open_append s (file_name lsn) create
    ok (record { file = file_name lsn; offset_lsn = lsn }, t)

  unfoldable pub open_latest : Dir → Result IoError (Wal × Dir)
  open_latest s = do lsn ← latest_file_lsn s; open_by_lsn s lsn true

  unfoldable pub current_offset : Dir → Wal → Result IoError ℕ
  current_offset s w = seek_end s w.file

  unfoldable pub current_lsn : Dir → Wal → Result IoError ℕ
  current_lsn s w = do offset ← current_offset s w; ok ((w.offset_lsn + offset) % 2 ^ 64)

  unfoldable pub cut_wal : Dir → Wal → Result IoError (Wal × Dir)
  cut_wal s w = do
    lsn ← current_lsn s w
    s₁ ← flush s w.file
    s₂ ← sync_all s₁ w.file
    open_by_lsn s₂ lsn true

  -- The loop of `drop_files_before_lsn`; the entries are those that `read_dir` saw.
  unfoldable pub drop_loop : Dir → ℕ → List DirEntry → Result IoError Dir
  drop_loop s lsn [] = ok s
  drop_loop s lsn (entry ∷ entries) = elim (next entry) [
    | err e ↦ err e
    | ok none ↦ ok s
    | ok (some file_lsn) ↦
        let removed = remove_file s (file_name file_lsn) >>= λ t. drop_loop t lsn entries in
        let kept = drop_loop s lsn entries in if ltb file_lsn lsn then removed else kept
  ]

  unfoldable pub drop_files_before_lsn : Dir → ℕ → Result IoError Dir
  drop_files_before_lsn s lsn = do lsns ← read_dir s; drop_loop s lsn lsns
