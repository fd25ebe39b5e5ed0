-- ===== src/Wal/Tests/Cycle.antt =====
-- A cut, a drop of the old segments and a new start on the concrete directory.
use kobzar.Base.{ℕ, ◌<◌, ◌≡◌, refl, arith, [], ◌∷◌, none, some, ℕ_discrete}
use kobzar.Base.Maps
use kobzar.Base.Results.{ok}
use kobzar.Wal.Names.{file_name, file_lsn, decimal}
use kobzar.Wal.Segments.{
  next, current_lsn, open_by_lsn, open_latest, latest_file_lsn, max_loop, drop_loop,
  drop_files_before_lsn,
}
use kobzar.Wal.Segments.Laws.{maximum}
use kobzar.Wal.Segments.Cycle.{open_latest-cut_wal}
use kobzar.Wal.Tests.{
  Files, disk, files, at_90, at_130, readme, same_name, lsn_run, fresh_130, cut_wal_run,
  readme_is_foreign,
}

abbrev left : Files
left = (file_name 130, 0) ∷ (readme, 3) ∷ (file_name 400, 8) ∷ []

drop_130 : drop_files_before_lsn disk ((file_name 130, 0) ∷ files) 130 ≡ ok left
unfolding drop_files_before_lsn drop_loop next file_lsn file_name decimal same_name ℕ_discrete
drop_130 = refl

opened_again : open_latest disk left ≡ ok (at_130, left)
unfolding open_latest latest_file_lsn max_loop next file_lsn file_name decimal open_by_lsn Maps.get
    same_name ℕ_discrete
opened_again = refl

open_latest-cut_wal_example :
    (at_130 ≡ at_130)
    × ((u : ℕ) → current_lsn disk left at_130 ≡ ok u → u ≡ 130)
    × ((130 < 130 → Maps.get same_name (file_name 130) left ≡ none)
        × ((0 < 130 → Maps.get same_name (file_name 0) left ≡ none)
            × ((90 < 130 → Maps.get same_name (file_name 90) left ≡ none) × Unit {0})))
unfolding maximum
open_latest-cut_wal_example =
    open_latest-cut_wal disk files at_90 130 (130 ∷ 0 ∷ 90 ∷ []) (130 ∷ [])
      (ok (some readme) ∷ ok (some (file_name 400)) ∷ [])
      (ok (some readme) ∷ ok (some (file_name 400)) ∷ []) lsn_run (omega arith) fresh_130
      cut_wal_run refl (omega arith, (omega arith, (omega arith, tt))) readme_is_foreign drop_130
      refl (omega arith, tt) readme_is_foreign refl opened_again
