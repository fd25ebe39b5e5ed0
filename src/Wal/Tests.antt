-- ===== src/Wal/Tests.antt =====
-- The log on concrete files: a hash, a file and a directory to run the theorems on.
mod Cycle
mod Full
use kobzar.Base.{
  ℕ, ◌+◌, ◌%◌, ◌<◌, ◌≤◌, ◌≡◌, ◌≢◌, refl, sym, ap, arith, List, [], ◌∷◌, ◌++◌, map, take, take_all,
  Option, none, some, append_assoc, Bool, true, false, ℕ_discrete, length,
}
use kobzar.Base.Maps
use kobzar.Base.Bytes.{le_bytes, of_le, length-le_bytes}
use kobzar.Base.Results.{Result, ok, err}
use kobzar.Wal.Entry.{WalEntry, create_field, create_index_unique, create_fn}
use kobzar.Wal.Payload.{entry_writes, payload}
use kobzar.Wal.Names.{Name, decimal, file_name, file_lsn}
use kobzar.Wal.Frame.{Digest, LogFile, padding, write_entry}
use kobzar.Wal.Frame.Laws.{entry_size, framed, write_entry_appends}
use kobzar.Wal.Frame.Read.{
  Record, read_frame, IsWritable, written, read_frame-frame_writes, length-frame_writes,
  log_bytes-injective,
}
use kobzar.Wal.Segments.{
  FileSystem, Wal, next, current_offset, open_by_lsn, drop_loop, latest_file_lsn, cut_wal,
  current_lsn, drop_files_before_lsn,
}
use kobzar.Wal.Segments.Laws.{maximum, latest_file_lsn-maximum, cut_wal-continues}
use kobzar.Wal.Segments.Drop.{drop_files_before_lsn-drops}
use mathlib.Core.Option
use mathlib.Core.Logic.{ite, if_pos, if_neg}

-- a checksum: the number that the bytes stand for, in 32 bytes
abbrev checksum : Digest
checksum = record {
  Hasher = List ℕ;
  new_hasher = [];
  feed = λ h bytes. h ++ bytes;
  finalize = λ h. le_bytes 32 (of_le h);
  feed-append = λ h a b. append_assoc h a b;
  length-finalize = λ h. length-le_bytes 32 (of_le h);
}

-- a file in memory, which never fails
abbrev memory : LogFile
memory = record {
  File = List ℕ;
  IoError = Unit;
  contents = λ file. file;
  write_all = λ file bytes. (file ++ bytes, none);
  write_all_ok = λ file bytes e. refl;
  write_all_torn = λ file bytes.
      (length bytes, ap (λ bs. file ++ bs) (sym (take_all bytes (length bytes) (omega arith))));
}

both : (x y : ℕ) (xs ys : Name) → Dec (x ≡ y) → Dec (xs ≡ ys) → Dec (Path Name (x ∷ xs) (y ∷ ys))
both x y xs ys (yes p) (yes q) = yes (λ i. p i ∷ q i)
both x y xs ys (yes p) (no n) = no (λ e. n (cc (e)))
both x y xs ys (no n) q = no (λ e. n (cc (e)))

same_name : Discrete Name
unfolding both
same_name [] [] = yes refl
same_name [] (y ∷ ys) = no (λ e. cc (e))
same_name (x ∷ xs) [] = no (λ e. cc (e))
same_name (x ∷ xs) (y ∷ ys) = both x y xs ys (ℕ_discrete x y) (same_name xs ys)

abbrev Files : Type 0
Files = List (Name × ℕ)

-- all files but `n`
abbrev without : Name → Files → Files
without n [] = []
without n ((m, size) ∷ files) = ite (same_name m n) (without n files) ((m, size) ∷ without n files)

get-without_self : (n : Name) (files : Files) → Maps.get same_name n (without n files) ≡ none
unfolding Maps.get
get-without_self n [] = refl
get-without_self n ((m, size) ∷ files) = ground (arith, get-without_self n files)

get-without_ne :
    (n m : Name) (files : Files)
    → m ≢ n
    → Maps.get same_name m (without n files) ≡ Maps.get same_name m files
unfolding Maps.get
get-without_ne n m [] ne = refl
get-without_ne n m ((j, size) ∷ files) ne = ground (arith, get-without_ne n m files ne)

abbrev size_or_err : Option ℕ → Result (Unit {0}) ℕ
size_or_err none = err tt
size_or_err (some v) = ok v

size_or_err-ok : (o : Option ℕ) {v : ℕ} → size_or_err o ≡ ok v → o ≡ some v
size_or_err-ok none e = cc
size_or_err-ok (some w) e = cc

abbrev open_in : Files → Name → Bool → Option ℕ → Result (Unit {0}) Files
open_in files n create (some _) = ok files
open_in files n true none = ok ((n, 0) ∷ files)
open_in files n false none = err tt

open_in-ok :
    (files : Files) (n : Name) (o : Option ℕ) {t : Files}
    → Maps.get same_name n files ≡ o
    → open_in files n true o ≡ ok t
    → Maps.get same_name n t ≡ some (Option.get_or o 0)
unfolding Maps.get
open_in-ok files n (some v) g e = cc (e, g)
open_in-ok files n none {t} g e =
    let same : t ≡ (n, 0) ∷ files = cc (e) in
    rw same (if_pos (same_name n n) refl (some 0) (Maps.get same_name n files))

open_in-ne :
    (files : Files) (n m : Name) (create : Bool) (o : Option ℕ) {t : Files}
    → open_in files n create o ≡ ok t
    → m ≢ n
    → Maps.get same_name m t ≡ Maps.get same_name m files
unfolding Maps.get
open_in-ne files n m create (some v) e ne = cc (e)
open_in-ne files n m true none {t} e ne =
    let same : t ≡ (n, 0) ∷ files = cc (e) in
    rw same (if_neg (same_name n m) (λ q. ne (sym q)) (some 0) (Maps.get same_name m files))
open_in-ne files n m false none e ne = cc (e)

-- a directory in memory
abbrev disk : FileSystem
disk = record {
  Dir = Files;
  IoError = Unit;
  read_dir = λ files. ok (map (λ e. ok (some e.0)) files);
  size = λ files n. Maps.get same_name n files;
  open_append = λ files n create. open_in files n create (Maps.get same_name n files);
  seek_end = λ files n. size_or_err (Maps.get same_name n files);
  flush = λ files n. ok files;
  sync_all = λ files n. ok files;
  remove_file = λ files n. ok (without n files);
  seek_end_ok = λ files n e. size_or_err-ok (Maps.get same_name n files) e;
  flush_ok = λ files n m e. cc (e);
  sync_all_ok = λ files n m e. cc (e);
  open_append_ok = λ files n e. open_in-ok files n (Maps.get same_name n files) refl e;
  open_append_ne =
      λ files n m create e ne. open_in-ne files n m create (Maps.get same_name n files) e ne;
  remove_file_ok = λ files n e. cc (e, get-without_self n files);
  remove_file_ne = λ files n m e ne. cc (e, get-without_ne n m files ne);
}

abbrev na_field : WalEntry
na_field = create_field 3 0 9 (b'n' ∷ b'a' ∷ [])

abbrev two_fields : WalEntry
two_fields = create_index_unique 3 0 (1 ∷ 4 ∷ []) true (b'u' ∷ [])

na_field-IsWritable : IsWritable 7 na_field
unfolding payload le_bytes
na_field-IsWritable = record {
  tx_fits = omega arith;
  entry_fits = omega arith;
  delimited = tt;
  size_fits = omega arith;
}

two_fields-IsWritable : IsWritable 8 two_fields
unfolding payload le_bytes
two_fields-IsWritable = record {
  tx_fits = omega arith;
  entry_fits = (omega arith, omega arith, omega arith, (omega arith, (omega arith, tt)));
  delimited = tt;
  size_fits = omega arith;
}

abbrev two_records : List Record
two_records = (7, na_field) ∷ (8, two_fields) ∷ []

length-frame_writes_example :
    (length (written checksum 7 na_field) ≡ entry_size na_field + padding (entry_size na_field))
    × (length (written checksum 7 na_field) % 8 ≡ 0)
    × (entry_size na_field < length (written checksum 7 na_field))
    × (length (written checksum 7 na_field) ≤ entry_size na_field + 8)
length-frame_writes_example = length-frame_writes checksum 7 na_field na_field-IsWritable.size_fits

write_entry_run : (write_entry checksum memory (5 ∷ []) 7 na_field).1 ≡ none
unfolding write_entry entry_writes le_bytes
write_entry_run = refl

write_entry_appends_example :
    (write_entry checksum memory (5 ∷ []) 7 na_field).0 ≡ 5 ∷ framed checksum 7 na_field
write_entry_appends_example =
    write_entry_appends checksum memory (5 ∷ []) 7 na_field na_field-IsWritable.size_fits
      write_entry_run

read_frame-frame_writes_example :
    read_frame (written checksum 7 na_field ++ (1 ∷ [])) ≡ some ((7, na_field), 1 ∷ [])
read_frame-frame_writes_example =
    read_frame-frame_writes checksum 7 na_field (1 ∷ []) na_field-IsWritable

log_bytes-injective_example : two_records ≡ two_records
log_bytes-injective_example =
    log_bytes-injective checksum two_records two_records
      (na_field-IsWritable, (two_fields-IsWritable, tt))
      (na_field-IsWritable, (two_fields-IsWritable, tt)) refl

-- two WAL files, another file, and a WAL file that the loops do not see
abbrev readme : Name
readme = b'r' ∷ b'e' ∷ []

abbrev files : Files
files = (file_name 0, 90) ∷ (file_name 90, 40) ∷ (readme, 3) ∷ (file_name 400, 8) ∷ []

readme_is_foreign : next disk (ok (some readme)) ≡ ok none
unfolding next file_lsn
readme_is_foreign = refl

latest_file_lsn-maximum_example : latest_file_lsn disk files ≡ ok 90
unfolding maximum
latest_file_lsn-maximum_example =
    latest_file_lsn-maximum disk files (0 ∷ 90 ∷ [])
      (ok (some readme) ∷ ok (some (file_name 400)) ∷ []) (omega arith, (omega arith, tt))
      readme_is_foreign refl

abbrev at_90 : Wal
at_90 = record { file = file_name 90; offset_lsn = 90 }

abbrev at_130 : Wal
at_130 = record { file = file_name 130; offset_lsn = 130 }

lsn_run : current_lsn disk files at_90 ≡ ok 130
unfolding current_lsn current_offset Maps.get same_name file_name ℕ_discrete decimal
lsn_run = refl

fresh_130 : Option.get_or (Maps.get same_name (file_name 130) files) 0 ≡ 0
unfolding Maps.get same_name file_name ℕ_discrete decimal
fresh_130 = refl

cut_wal_run : cut_wal disk files at_90 ≡ ok (at_130, (file_name 130, 0) ∷ files)
unfolding cut_wal current_lsn current_offset Maps.get same_name file_name ℕ_discrete decimal
    open_by_lsn
cut_wal_run = refl

drop_run : drop_files_before_lsn disk files 90 ≡ ok (without (file_name 0) files)
unfolding drop_files_before_lsn drop_loop next file_lsn file_name decimal
drop_run = refl

cut_wal-continues_example :
    (at_130 ≡ at_130)
    × ((u : ℕ) → current_lsn disk ((file_name 130, 0) ∷ files) at_130 ≡ ok u → u ≡ 130)
    × ((m : Name)
        → m ≢ file_name 130
        → Maps.get same_name m ((file_name 130, 0) ∷ files) ≡ Maps.get same_name m files)
cut_wal-continues_example =
    cut_wal-continues disk files at_90 130 cut_wal_run lsn_run fresh_130 (omega arith)

drop_files_before_lsn-drops_example :
    ((0 < 90 → Maps.get same_name (file_name 0) (without (file_name 0) files) ≡ none)
      × ((90 < 90 → Maps.get same_name (file_name 90) (without (file_name 0) files) ≡ none)
          × Unit {0}))
    × ((m : Name)
        → ((0 < 90 → m ≢ file_name 0) × ((90 < 90 → m ≢ file_name 90) × Unit {0}))
        → Maps.get same_name m (without (file_name 0) files) ≡ Maps.get same_name m files)
drop_files_before_lsn-drops_example =
    drop_files_before_lsn-drops disk files 90 (0 ∷ 90 ∷ [])
      (ok (some readme) ∷ ok (some (file_name 400)) ∷ []) (omega arith, (omega arith, tt))
      readme_is_foreign refl drop_run
