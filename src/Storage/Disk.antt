-- ===== src/Storage/Disk.antt =====
-- pkg/storage/disk.go: values in files, under paths made of the key in hexadecimal.
-- The operating system's files are a parameter.
use crypt_fs.Prelude.{
  ◌≡◌, ◌≢◌, ◌↔◌, Option, none, some, Bool, true, false, not, [], ◌∷◌, ◌++◌, Bytes, take,
  if◌then◌else◌, arith,
}
use crypt_fs.Prelude.Text.{codes, hex}
use crypt_fs.Storage.{Error, not_found, failed, wrapped, Got, Store}

-- os.WriteFile, os.MkdirAll and os.ReadFile, filepath.Join of three parts, and filepath.Dir.
pub record FileSystem : Type 1 where
  pub State : Type 0
  pub IoError : Type 0
  pub not_exist : IoError → Bool
  pub io_text : IoError → Bytes
  pub write_file : Bytes → Bytes → State → State × Option IoError
  pub mkdir_all : Bytes → State → State × Option IoError
  pub read_file : Bytes → State → State × Option Bytes × Option IoError
  pub join : Bytes → Bytes → Bytes → Bytes
  pub dir_of : Bytes → Bytes

-- fmt's "%02x" of a byte slice pads the empty one to two characters.
unfoldable pub padded_hex : Bytes → Bytes
padded_hex [] = codes "00"
padded_hex (b ∷ bs) = hex (b ∷ bs)

module _ (fs : FileSystem) (dir : Bytes) where
  open fs use {State, IoError, not_exist, io_text, write_file, mkdir_all, read_file, join, dir_of}

  unfoldable pub path_for : Bytes → Bytes
  unfolding padded_hex
  path_for key = join dir (take 2 (padded_hex key)) (padded_hex key)

  -- os.IsNotExist, which is false of nil
  unfoldable pub is_not_exist : Option IoError → Bool
  is_not_exist none = false
  is_not_exist (some e) = not_exist e

  -- The error of a file operation as the store's caller sees it, and one wrapped with a text.
  unfoldable pub as_error : IoError → Error
  as_error e = failed (io_text e)

  unfoldable pub wrap : Bytes → Option IoError → Error
  unfolding as_error
  wrap text none = wrapped text (failed (codes "%!w(<nil>)"))
  wrap text (some e) = wrapped text (as_error e)

  -- The part of Put behind a first write that gave `err`, which is nil here.
  unfoldable pub make_dir_and_write : Bytes → Bytes → Option IoError → State → State × Option Error
  unfolding is_not_exist wrap
  make_dir_and_write p value err st =
      if not (is_not_exist err)
      then (st, some (wrap (codes "could not write" ++ p) err))
      else (let (st', mkdir_err) = mkdir_all (dir_of p) st in
          elim mkdir_err [
            | some e ↦ (st', some (wrap (codes "could not make dir for" ++ p) (some e)))
            | none ↦
                let (st'', write_err) = write_file p value st' in
                (st'', elim write_err [ none ↦ none | some e ↦ some (as_error e) ])
          ])

  unfoldable pub disk_put : Bytes → Bytes → State → State × Option Error
  unfolding path_for make_dir_and_write
  disk_put key value st =
      let p = path_for key in
      let (st', err) = write_file p value st in
      elim err [ some e ↦ (st', none) | none ↦ make_dir_and_write p value none st' ]

  unfoldable pub disk_found : Bytes → Option Bytes → Option IoError → Got
  unfolding is_not_exist as_error
  disk_found key value none = record { value = value; err = none }
  disk_found key value (some e) = record {
    value = value;
    err = some (if is_not_exist (some e) then wrapped (hex key) not_found else as_error e);
  }

  unfoldable pub disk_get : Bytes → State → State × Got
  unfolding path_for disk_found
  disk_get key st =
      let (st', value, err) = read_file (path_for key) st in (st', disk_found key value err)

  abbrev pub new_disk_store : Store
  new_disk_store = record { State = State; put = disk_put; get = disk_get }

  -- Whatever the file system does, Put makes one write and no directory, and answers the wrong way
  -- round: it returns nil exactly where that write failed.
  pub disk_put-none_iff :
      (key value : Bytes) (st : State)
      → ((disk_put key value st).0 ≡ (write_file (path_for key) value st).0)
        × (((disk_put key value st).1 ≡ none) ↔ ((write_file (path_for key) value st).1 ≢ none))
  unfolding disk_put
  disk_put-none_iff key value st = ground arith

-- What the store relies on: a write that succeeded is what a read of that path returns, with no
-- error and whatever else is read, and a missing file is an error that IsNotExist knows.
pub record KeepsFiles (fs : FileSystem) : Type 0 where
  pub content : fs.State → Bytes → Option Bytes
  pub read_present :
      (p v : Bytes) (st : fs.State)
      → content st p ≡ some v
      → ((fs.read_file p st).1 ≡ some v) × ((fs.read_file p st).2 ≡ none)
  pub read_absent :
      (p : Bytes) (st : fs.State)
      → content st p ≡ none
      → (e : fs.IoError) × ((fs.read_file p st).1 ≡ none)
        × ((fs.read_file p st).2 ≡ some e)
        × (fs.not_exist e ≡ true)
  pub written :
      (p v : Bytes) (st : fs.State)
      → (fs.write_file p v st).1 ≡ none
      → content (fs.write_file p v st).0 p ≡ some v

module _ (fs : FileSystem) (dir : Bytes) (files : KeepsFiles fs) where
  -- Where the file can be written, Put returns an error although a Get then returns the value.
  pub disk_get-put :
      (key value : Bytes) (st : fs.State)
      → (fs.write_file (path_for fs dir key) value st).1 ≡ none
      → ((disk_put fs dir key value st).1 ≢ none)
        × ((disk_get fs dir key (disk_put fs dir key value st).0).1
            ≡ record { value = some value; err = none })
  disk_get-put key value st ok =
      let answers = disk_put-none_iff fs dir key value st in
      let (found, fine) =
        files.read_present (path_for fs dir key) value _
          (files.written (path_for fs dir key) value st ok) in
      (λ nil. answers.1.0 nil ok, rw answers.0 (unfold disk_get in rw (fine, found)))

  -- A Get of a key whose file is missing returns no value and an error that is ErrNotFound.
  pub disk_get-missing :
      (key : Bytes) (st : fs.State)
      → files.content st (path_for fs dir key) ≡ none
      → ((disk_get fs dir key st).1
          ≡ record { value = none; err = some (wrapped (hex key) not_found) })
  unfolding disk_get
  disk_get-missing key st missing =
      let (e, nothing, gone, known) = files.read_absent (path_for fs dir key) st missing in
      rw (gone, nothing, known)
