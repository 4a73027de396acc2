-- ===== src/Storage/Remote.antt =====
-- pkg/storage/remote.go: a store that asks a blob server over HTTP.
-- net/http is the parameter `Http`. The errors of a response that cannot be read are part of it.
use crypt_fs.Prelude.{ℕ, Option, none, some, [], ◌++◌, Bytes, ◌==◌, if◌then◌else◌}
use crypt_fs.Prelude.Text.{codes, hex}
use crypt_fs.Storage.{Error, not_found, failed, Got}

pub data Method : Type 0 where
  method_get method_put : Method
  other : Bytes → Method

-- What comes of a request: an error, or a status with a body, or with the error of reading that.
pub data Reply : Type 0 where
  no_reply : Error → Reply
  reply : ℕ → Bytes → Reply
  unread : ℕ → Error → Reply

pub record Http : Type 1 where
  pub State : Type 0
  -- the error of NewRequest for an address
  pub request_error : Bytes → Option Error
  pub send : Method → Bytes → Bytes → State → State × Reply

abbrev pub status_ok : ℕ
status_ok = 200

abbrev pub status_not_found : ℕ
status_not_found = 404

unfoldable pub remote_path_for : Bytes → Bytes → Bytes
remote_path_for address key = codes "http://" ++ (address ++ (codes "/" ++ hex key))

unfoldable pub put_reply : Reply → Option Error
put_reply (no_reply e) = some e
put_reply (unread status e) = some e
put_reply (reply status body) = if status == status_ok then none else some (failed body)

unfoldable pub get_reply : Reply → Got
get_reply (no_reply e) = record { value = none; err = some e }
get_reply (unread status e) =
    if status == status_not_found
    then record { value = none; err = some not_found }
    else record { value = none; err = some e }
get_reply (reply status body) =
    if status == status_not_found
    then record { value = none; err = some not_found }
    else if status == status_ok
    then record { value = some body; err = none }
    else record { value = none; err = some (failed body) }

module _ (http : Http) (address : Bytes) where
  open http use {State, request_error, send}

  unfoldable pub remote_put : Bytes → Bytes → State → State × Option Error
  remote_put key value st =
      let url = remote_path_for address key in
      elim (request_error url) [
        | some e ↦ (st, some e)
        | none ↦ let (st', r) = send method_put url value st in (st', put_reply r)
      ]

  unfoldable pub remote_get : Bytes → State → State × Got
  remote_get key st =
      let url = remote_path_for address key in
      elim (request_error url) [
        | some e ↦ (st, record { value = none; err = some e })
        | none ↦ let (st', r) = send method_get url [] st in (st', get_reply r)
      ]
