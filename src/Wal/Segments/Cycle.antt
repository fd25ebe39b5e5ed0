-- ===== src/Wal/Segments/Cycle.antt =====
-- `cut_wal`, `drop_files_before_lsn` and `open_latest` in turn, kobzar/src/q_engine/storage/wal.rs.
use kobzar.Base.{ℕ, ◌<◌, ◌≡◌, ◌≢◌, sym, ◌∙◌, List, [], ◌∷◌, ◌++◌, none, some, true, All, arith}
use kobzar.Base.Bytes.{IsU64}
use kobzar.Base.Results.{ok}
use kobzar.Wal.Names.{file_name}
use kobzar.Wal.Names.Laws.{file_name-injective}
use kobzar.Wal.Segments.{
  FileSystem, Wal, DirEntry, open_by_lsn, open_latest, current_lsn, cut_wal, drop_files_before_lsn,
}
use kobzar.Wal.Segments.Laws.{
  maximum, wal_entries, Foreign, latest_file_lsn-maximum, open_by_lsn-ok, cut_wal-file,
  current_lsn-empty,
}
use kobzar.Wal.Segments.Drop.{drop_files_before_lsn-drops}
use mathlib.Core.Option

module _ (fs : FileSystem) where
  open fs use {Dir, read_dir, size, open_append_ok}

  reopened :
      (s : Dir) (ls : List ℕ) (after : List (DirEntry fs)) {w : Wal} {t : Dir}
      → All IsU64 ls
      → Foreign fs after
      → read_dir s ≡ ok (wal_entries fs ls ++ after)
      → open_latest fs s ≡ ok (w, t)
      → open_by_lsn fs s (maximum ls) true ≡ ok (w, t)
  unfolding open_latest
  reopened s ls after h f listed e = rw (latest_file_lsn-maximum fs s ls after h f listed) at e

  -- the file of an LSN is not that of a smaller one
  other_names :
      (v : ℕ) (ls : List ℕ)
      → IsU64 v
      → All IsU64 ls
      → All (λ l. l < v → file_name v ≢ file_name l) ls
  other_names v [] _ _ = tt
  other_names v (l ∷ ls) small (hl, h) = (apart, other_names v ls small h)
    where
      apart : l < v → file_name v ≢ file_name l
      apart lt e = let same : v ≡ l = file_name-injective v l small hl e in absurd (omega arith)

  -- When cut_wal, drop_files_before_lsn of the current LSN and open_latest succeed in turn, the
  -- log that is opened is the one that cut_wal went on in, at the same LSN, and the listed files
  -- of smaller LSNs are gone, where the current LSN is known and fits 64 bits, its file was
  -- missing or empty, and the directory lists WAL files of 64-bit LSNs up to its end or its first
  -- other entry, before and after the drop, after it with the current LSN the greatest.
  pub open_latest-cut_wal :
      (s : Dir) (w : Wal) (v : ℕ) {w' w'' : Wal} {t t' t'' : Dir} (ls ls' : List ℕ)
      (after after' : List (DirEntry fs))
      → current_lsn fs s w ≡ ok v
      → IsU64 v
      → Option.get_or (size s (file_name v)) 0 ≡ 0
      → cut_wal fs s w ≡ ok (w', t)
      → read_dir t ≡ ok (wal_entries fs ls ++ after)
      → All IsU64 ls
      → Foreign fs after
      → drop_files_before_lsn fs t v ≡ ok t'
      → read_dir t' ≡ ok (wal_entries fs ls' ++ after')
      → All IsU64 ls'
      → Foreign fs after'
      → maximum ls' ≡ v
      → open_latest fs t' ≡ ok (w'', t'')
      → (w'' ≡ w')
        × ((u : ℕ) → current_lsn fs t'' w'' ≡ ok u → u ≡ v)
        × All (λ l. l < v → size t' (file_name l) ≡ none) ls
  open_latest-cut_wal s w v {w'} {w''} {t} {t'} {t''} ls ls' after after' lsn small fresh cut listed
        h f dropped listed' h' f' top opened =
      let (built, made, _) = cut_wal-file fs s w v cut lsn in
      let (gone, kept) = drop_files_before_lsn-drops fs t v ls after h f listed dropped in
      let (appended, built') =
        open_by_lsn-ok fs t' v true (rw top at (reopened t' ls' after' h' f' listed' opened)) in
      let still : size t' (file_name v) ≡ some 0 =
        kept (file_name v) (other_names v ls small h) ∙ rw fresh at made in
      let empty : size t'' (file_name v) ≡ some 0 =
        rw still at (open_append_ok t' (file_name v) appended) in
      (built' ∙ sym built, λ u now. current_lsn-empty fs t'' v small empty (rw built' at now), gone)
