-- ===== src/BlobServer/Remote.antt =====
-- The remote store of pkg/storage/remote.go against the handler of cmd/blob.go.
use crypt_fs.Prelude.{
  ◌≢◌, ◌↔◌, ap, ℕ, ◌≡◌, refl, Option, none, some, [], ◌++◌, Bytes, IsByte, All, arith,
}
use crypt_fs.Prelude.Text.{codes, hex, decode_hex-hex}
use crypt_fs.Bits.{slice_from}
use crypt_fs.Storage.{wrapped, not_found, is_not_found, Got, Answers, Error}
use crypt_fs.Storage.Remote.{
  Method, method_get, method_put, reply, Http, remote_path_for, put_reply, get_reply, remote_put,
  remote_get,
}
use crypt_fs.Storage.Disk.{
  FileSystem, KeepsFiles, path_for, disk_get, disk_put, disk_found, disk_put-none_iff,
  disk_get-missing,
}
use crypt_fs.BlobServer.{failure, whole, answer_got, answer_stored, handle_key, handle}

module _ (quote : Bytes → Bytes) (fs : FileSystem) (dir : Bytes) (http : Http)
    (address : Bytes) where
  -- net/http brings the requests to the address to the handler, and its answers back: the state of
  -- the network is that of the server's store.
  pub record Delivers : Type 0 where
    pub store_of : http.State → fs.State
    pub requests : (key : Bytes) → http.request_error (remote_path_for address key) ≡ none
    pub delivered :
        (method : Method) (key body : Bytes) (st : http.State) (st' : fs.State) (status : ℕ)
        (answer : Bytes)
        → handle quote fs dir method (codes "/" ++ hex key) (whole body) (store_of st)
          ≡ some (st', status, answer)
        → (store_of (http.send method (remote_path_for address key) body st).0 ≡ st')
          × ((http.send method (remote_path_for address key) body st).1 ≡ reply status answer)

  handle-hex :
      (method : Method) (key body : Bytes) (st : fs.State)
      → All IsByte key
      → handle quote fs dir method (codes "/" ++ hex key) (whole body) st
        ≡ some (handle_key quote fs dir method (hex key) key (whole body) st)
  unfolding handle slice_from
  handle-hex method key body st h =
      let reached : slice_from (codes "/" ++ hex key) 1 ≡ some (hex key) = ground arith in
      rw (reached, decode_hex-hex key h)

  module _ (d : Delivers) (key : Bytes) (h : All IsByte key) where
    answered :
        (method : Method) (body : Bytes) (st : http.State)
        → (d.store_of (http.send method (remote_path_for address key) body st).0
            ≡ (handle_key quote fs dir method (hex key) key (whole body) (d.store_of st)).0)
          × ((http.send method (remote_path_for address key) body st).1
              ≡ reply
                  (handle_key quote fs dir method (hex key) key (whole body) (d.store_of st)).1
                  (handle_key quote fs dir method (hex key) key (whole body) (d.store_of st)).2)
    answered method body st =
        d.delivered method key body st _ _ _ (handle-hex method key body (d.store_of st) h)

  -- What a store's answer becomes on the way to the remote store.
  get_reply-answer_got :
      (hkey : Bytes) (o : Option Bytes) (got : Got)
      → Answers o got
      → Answers o (get_reply (reply (answer_got quote hkey got).0 (answer_got quote hkey got).1))
  unfolding get_reply answer_got
  get_reply-answer_got hkey none got (no_value, (e, failed, missing)) =
      rw (failed, missing) (refl, (not_found, refl, unfold is_not_found in refl))
  get_reply-answer_got hkey (some v) got (value, fine) = rw (fine, value) (refl, refl)

  remote_get-sent :
      (key : Bytes) (st : http.State)
      → http.request_error (remote_path_for address key) ≡ none
      → remote_get http address key st ≡ (
        (http.send method_get (remote_path_for address key) [] st).0,
        get_reply (http.send method_get (remote_path_for address key) [] st).1,
      )
  unfolding remote_get
  remote_get-sent key st e = rw (e, remote_get)

  remote_put-sent :
      (key value : Bytes) (st : http.State)
      → http.request_error (remote_path_for address key) ≡ none
      → remote_put http address key value st ≡ (
        (http.send method_put (remote_path_for address key) value st).0,
        put_reply (http.send method_put (remote_path_for address key) value st).1,
      )
  unfolding remote_put
  remote_put-sent key value st e = rw (e, remote_put)

  put_reply-answer_stored :
      (hkey : Bytes) (err : Option Error)
      → (put_reply (reply (answer_stored quote hkey err).0 (answer_stored quote hkey err).1) ≡ none)
        ↔ (err ≡ none)
  unfolding put_reply answer_stored failure
  put_reply-answer_stored hkey none = (λ e. refl, λ e. refl)
  put_reply-answer_stored hkey (some e) = (λ h. cc, λ h. cc)

  disk_get-Answers :
      (files : KeepsFiles fs) (key : Bytes) (st : fs.State)
      → Answers (files.content st (path_for fs dir key)) (disk_get fs dir key st).1
  unfolding disk_get disk_found is_not_found
  disk_get-Answers files key st = answered_by (files.content st (path_for fs dir key)) refl
    where
      answered_by :
          (o : Option Bytes)
          → files.content st (path_for fs dir key) ≡ o
          → Answers o (disk_get fs dir key st).1
      answered_by none e =
          let m = disk_get-missing fs dir files key st e in
          (ap (λ g. g.value) m, (wrapped (hex key) not_found, ap (λ g. g.err) m, refl))
      answered_by (some v) e =
          let (found, fine) = files.read_present (path_for fs dir key) v st e in
          rw (fine, found) (refl, refl)

  -- The remote store against the blob server, which keeps its values in files, over a network that
  -- delivers, under keys of bytes. Get returns what the key's file holds, or an error that is
  -- ErrNotFound where there is none. Put writes the key's file once and answers the wrong way round:
  -- it returns no error exactly where that write failed.
  pub remote_lem :
      (files : KeepsFiles fs) (d : Delivers) (key value : Bytes) (st : http.State)
      → All IsByte key
      → Answers
          (files.content (d.store_of st) (path_for fs dir key))
          (remote_get http address key st).1
        × (d.store_of (remote_put http address key value st).0
            ≡ (fs.write_file (path_for fs dir key) value (d.store_of st)).0)
        × (((remote_put http address key value st).1 ≡ none)
            ↔ ((fs.write_file (path_for fs dir key) value (d.store_of st)).1 ≢ none))
  unfolding handle_key
  remote_lem files d key value st h =
      let (got_state, got) = answered d key h method_get [] st in
      let get_sent = remote_get-sent key st (d.requests key) in
      let (put_state, put) = answered d key h method_put value st in
      let put_sent = remote_put-sent key value st (d.requests key) in
      let (written, answers) = disk_put-none_iff fs dir key value (d.store_of st) in
      let stored =
        put_reply-answer_stored (hex key) (disk_put fs dir key value (d.store_of st)).1 in
      (
        rw (get_sent, got)
            (get_reply-answer_got (hex key) (files.content (d.store_of st) (path_for fs dir key))
              (disk_get fs dir key (d.store_of st)).1 (disk_get-Answers files key (d.store_of st))),
        rw (put_sent, put_state) written,
        rw (put_sent, put) (λ x. answers.0 (stored.0 x), λ x. stored.1 (answers.1 x)),
      )
