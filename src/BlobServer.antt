-- ===== src/BlobServer.antt =====
-- cmd/blob.go: the handler of the blob server, over its disk store.
-- `quote` is fmt's "%q". A body is the bytes read from the request, or the error of reading them; a
-- nil body of a response writes nothing, as an empty one does. `none` is a panic. Log lines are left
-- out.
pub mod Remote
use crypt_fs.Prelude.{
  ℕ, Option, none, some, Bool, true, false, [], ◌∷◌, ◌++◌, Bytes, ◌>>=◌, if◌then◌else◌,
}
use mathlib.Core.Option
use crypt_fs.Prelude.Text.{codes, decode_hex}
use crypt_fs.Bits.{slice_from}
use crypt_fs.Storage.{Error, error_text, is_not_found, Got}
use crypt_fs.Storage.Disk.{FileSystem, disk_get, disk_put}
use crypt_fs.Storage.Remote.{Method, method_get, method_put, other, status_ok, status_not_found}

pub data Body : Type 0 where
  whole : Bytes → Body
  broken : Error → Body

abbrev pub status_bad_request : ℕ
status_bad_request = 400

abbrev pub status_internal_server_error : ℕ
status_internal_server_error = 500

module _ (quote : Bytes → Bytes) where
  unfoldable pub failure : Bytes → Error → ℕ × Bytes
  failure hkey e = (status_internal_server_error, quote hkey ++ (codes ": " ++ error_text e))

  unfoldable pub answer_got : Bytes → Got → ℕ × Bytes
  unfolding failure
  answer_got hkey got = elim got.err [
    | none ↦ (status_ok, Option.get_or got.value [])
    | some e ↦ if is_not_found e then (status_not_found, []) else failure hkey e
  ]

  unfoldable pub answer_stored : Bytes → Option Error → ℕ × Bytes
  unfolding failure
  answer_stored hkey none = (status_ok, [])
  answer_stored hkey (some e) = failure hkey e

module _ (quote : Bytes → Bytes) (fs : FileSystem) (dir : Bytes) where
  unfoldable pub handle_key : Method → Bytes → Bytes → Body → fs.State → fs.State × ℕ × Bytes
  unfolding answer_got answer_stored failure disk_get disk_put
  handle_key method_get hkey key body st =
      let (st', got) = disk_get fs dir key st in
      let (status, answer) = answer_got quote hkey got in (st', status, answer)
  handle_key method_put hkey key (broken e) st =
      let (status, answer) = failure quote hkey e in (st, status, answer)
  handle_key method_put hkey key (whole value) st =
      let (st', err) = disk_put fs dir key value st in
      let (status, answer) = answer_stored quote hkey err in (st', status, answer)
  handle_key (other name) hkey key body st =
      (st, status_bad_request, quote name ++ codes ": invalid method, expecting GET or PUT")

  unfoldable pub handle : Method → Bytes → Body → fs.State → Option (fs.State × ℕ × Bytes)
  unfolding handle_key
  handle method path body st = do
    hkey ← slice_from path 1
    some (elim (decode_hex hkey) [
      | none ↦
          (st, status_bad_request, quote path ++ codes ": not a valid path, expecting hex key only")
      | some key ↦ handle_key method hkey key body st
    ])
