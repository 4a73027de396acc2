-- ===== src/Tests/Disk.antt =====
-- Runs of pkg/storage/disk.go over files kept in a map of paths.
use crypt_fs.Prelude.{
  ◌≡◌, ◌≢◌, ◌↔◌, refl, Option, none, some, Bool, true, [], ◌∷◌, ◌++◌, Bytes, Assoc, lookup, insert,
  bytes_eq_refl, lookup-insert,
}
use crypt_fs.Storage.Disk.{FileSystem, KeepsFiles, path_for, disk_put, disk_put-none_iff}

-- A file system without directories, whose one error is a missing file.
abbrev read_result : Option Bytes → Option Bytes × Option (Unit {0})
read_result none = (none, some tt)
read_result (some v) = (some v, none)

abbrev pub files : FileSystem
files = record {
  State = Assoc Bytes;
  IoError = Unit {0};
  not_exist = λ e. true;
  io_text = λ e. [];
  write_file = λ p v st. (insert p v st, none);
  mkdir_all = λ p st. (st, none);
  read_file = λ p st. let r = read_result (lookup p st) in (st, r.0, r.1);
  join = λ a b c. a ++ (b ++ c);
  dir_of = λ p. p;
}

pub present :
    (o : Option Bytes) (v : Bytes)
    → o ≡ some v
    → ((read_result o).0 ≡ some v) × ((read_result o).1 ≡ none)
present o v h = rw h (refl, refl)

pub absent :
    (o : Option Bytes)
    → o ≡ none
    → (e : Unit {0}) × ((read_result o).0 ≡ none)
      × ((read_result o).1 ≡ some e)
      × (◌≡◌ {A = Bool} true true)
absent o h = rw h (tt, refl, refl, refl)

unfoldable pub files-KeepsFiles : KeepsFiles files
files-KeepsFiles = record {
  content = λ st p. lookup p st;
  read_present = λ p v st h. present (lookup p st) v h;
  read_absent = λ p st h. absent (lookup p st) h;
  written = λ p v st h. rw (lookup-insert, bytes_eq_refl);
}

abbrev a_key : Bytes
a_key = 1 ∷ 255 ∷ []

disk_put-none_iff_example :
    ((disk_put files [] a_key (7 ∷ []) []).0 ≡ insert (path_for files [] a_key) (7 ∷ []) [])
    × (((disk_put files [] a_key (7 ∷ []) []).1 ≡ none) ↔ (◌≢◌ {A = Option (Unit {0})} none none))
disk_put-none_iff_example = disk_put-none_iff files [] a_key (7 ∷ []) []
