-- ===== src/Wal/Segments/Drop.antt =====
-- `drop_files_before_lsn` of kobzar/src/q_engine/storage/wal.rs.
use kobzar.Base.{
  ℕ, ◌<◌, List, [], ◌∷◌, ◌++◌, none, some, ltb, if◌then◌else◌, ◌≡◌, ◌≢◌, refl, ◌∙◌, arith, All, ◌≤◌,
  ◌⊎◌, Bool-cases, ltb→lt, inl, inr, ℕ_discrete,
}
use kobzar.Base.Bytes.{IsU64}
use kobzar.Base.Results.{Result, ok, ◌>>=◌, >>=-eq-ok}
use kobzar.Wal.Names.{Name, file_name}
use kobzar.Wal.Names.Laws.{file_name-injective}
use kobzar.Wal.Segments.{FileSystem, DirEntry, next, drop_loop, drop_files_before_lsn}
use kobzar.Wal.Segments.Laws.{wal_entries, Foreign, next-wal}

module _ (fs : FileSystem) where
  open fs use {Dir, IoError, read_dir, size, remove_file, remove_file_ok, remove_file_ne}

  module _ (lsn : ℕ) where
    drop_loop-Foreign :
        (s : Dir) (after : List (DirEntry fs)) → Foreign fs after → drop_loop fs s lsn after ≡ ok s
    unfolding drop_loop
    drop_loop-Foreign s [] f = refl
    drop_loop-Foreign s (entry ∷ after) f = rw (f, drop_loop)

    -- one round of the loop, at the file with the LSN `l`
    abbrev drop_round : Dir → ℕ → List (DirEntry fs) → Result IoError Dir
    drop_round s l entries =
        if ltb l lsn
        then remove_file s (file_name l) >>= (λ t. drop_loop fs t lsn entries)
        else drop_loop fs s lsn entries

    drop_loop-step :
        (s : Dir) (l : ℕ) (entries : List (DirEntry fs))
        → IsU64 l
        → drop_loop fs s lsn (ok (some (file_name l)) ∷ entries) ≡ drop_round s l entries
    unfolding drop_loop
    drop_loop-step s l entries h = at_entry (ok (some (file_name l))) (next-wal fs l h)
      where
        at_entry :
            (entry : DirEntry fs)
            → next fs entry ≡ ok (some l)
            → drop_loop fs s lsn (entry ∷ entries) ≡ drop_round s l entries
        at_entry entry e = rw (e, drop_loop)

    -- the two branches of a round, for a run that succeeds
    drop_loop-cases :
        (s : Dir) (l : ℕ) (entries : List (DirEntry fs)) {t : Dir}
        → IsU64 l
        → drop_loop fs s lsn (ok (some (file_name l)) ∷ entries) ≡ ok t
        → ((l < lsn)
            × ((u : Dir) × (remove_file s (file_name l) ≡ ok u)
                × (drop_loop fs u lsn entries ≡ ok t)))
          ⊎ ((lsn ≤ l) × (drop_loop fs s lsn entries ≡ ok t))
    drop_loop-cases s l entries h e = elim (Bool-cases (ltb l lsn)) [
      | inl lt ↦ inl (
        ltb→lt l lsn lt,
        >>=-eq-ok (remove_file s (file_name l)) _ (rw (drop_loop-step s l entries h, lt) at e),
      )
      | inr ge ↦ inr (ground arith, rw (drop_loop-step s l entries h, ge) at e)
    ]

    -- A name that no dropped file has keeps its size.
    drop_loop-keeps :
        (s : Dir) (ls : List ℕ) (after : List (DirEntry fs)) (m : Name) {t : Dir}
        → All IsU64 ls
        → Foreign fs after
        → All (λ l. l < lsn → m ≢ file_name l) ls
        → drop_loop fs s lsn (wal_entries fs ls ++ after) ≡ ok t
        → size t m ≡ size s m
    drop_loop-keeps s [] after m _ f _ e = cc (drop_loop-Foreign s after f, e)
    drop_loop-keeps s (l ∷ ls) after m (hl, h) f (ne, nes) e =
        elim (drop_loop-cases s l (wal_entries fs ls ++ after) hl e) [
          | inl (lt, (u, removed, rest)) ↦
              drop_loop-keeps u ls after m h f nes rest
              ∙ remove_file_ne s (file_name l) m removed (ne lt)
          | inr (ge, rest) ↦ drop_loop-keeps s ls after m h f nes rest
        ]

    drop_loop-gone :
        (s : Dir) (ls : List ℕ) (after : List (DirEntry fs)) (k : ℕ) {t : Dir}
        → IsU64 k
        → All IsU64 ls
        → Foreign fs after
        → drop_loop fs s lsn (wal_entries fs ls ++ after) ≡ ok t
        → size s (file_name k) ≡ none
        → size t (file_name k) ≡ none
    drop_loop-gone s [] after k hk _ f e g = cc (drop_loop-Foreign s after f, e, g)
    drop_loop-gone s (l ∷ ls) after k hk (hl, h) f e g =
        elim (drop_loop-cases s l (wal_entries fs ls ++ after) hl e) [
          | inl (lt, (u, removed, rest)) ↦
              drop_loop-gone u ls after k hk h f rest (elim (ℕ_discrete k l) [
                | yes same ↦ rw same (remove_file_ok s (file_name l) removed)
                | no other ↦
                    remove_file_ne s (file_name l) (file_name k) removed
                      (λ q. other (file_name-injective k l hk hl q))
                    ∙ g
              ])
          | inr (ge, rest) ↦ drop_loop-gone s ls after k hk h f rest g
        ]

    drop_loop-drops :
        (s : Dir) (ls : List ℕ) (after : List (DirEntry fs)) {t : Dir}
        → All IsU64 ls
        → Foreign fs after
        → drop_loop fs s lsn (wal_entries fs ls ++ after) ≡ ok t
        → All (λ l. l < lsn → size t (file_name l) ≡ none) ls
    drop_loop-drops s [] after _ f e = tt
    drop_loop-drops s (l ∷ ls) after (hl, h) f e =
        elim (drop_loop-cases s l (wal_entries fs ls ++ after) hl e) [
          | inl (lt, (u, removed, rest)) ↦ (
            λ _. drop_loop-gone u ls after l hl h f rest (remove_file_ok s (file_name l) removed),
            drop_loop-drops u ls after h f rest,
          )
          | inr (ge, rest) ↦ (λ lt. absurd (omega arith), drop_loop-drops s ls after h f rest)
        ]

  -- When drop_files_before_lsn succeeds on a directory that lists WAL files of 64-bit LSNs up to
  -- its end or to the first other entry, each of these files with a smaller LSN is gone and all
  -- other files keep their sizes.
  pub drop_files_before_lsn-drops :
      (s : Dir) (lsn : ℕ) (ls : List ℕ) (after : List (DirEntry fs)) {t : Dir}
      → All IsU64 ls
      → Foreign fs after
      → read_dir s ≡ ok (wal_entries fs ls ++ after)
      → drop_files_before_lsn fs s lsn ≡ ok t
      → All (λ l. l < lsn → size t (file_name l) ≡ none) ls
        × ((m : Name) → All (λ l. l < lsn → m ≢ file_name l) ls → size t m ≡ size s m)
  unfolding drop_files_before_lsn
  drop_files_before_lsn-drops s lsn ls after h f listed e =
      let run = rw listed at e in
      (drop_loop-drops lsn s ls after h f run, λ m ne. drop_loop-keeps lsn s ls after m h f ne run)
