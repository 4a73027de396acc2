-- ===== src/Tests/Remote.antt =====
-- Runs of the remote store against the blob server, over a network that is a function call.
use crypt_fs.Prelude.{
  ℕ, ◌≡◌, ◌≢◌, ◌↔◌, insert, refl, arith, Option, none, some, [], ◌∷◌, ◌++◌, Bytes, drop, Assoc,
  lookup,
}
use crypt_fs.Storage.{failed, Answers}
use crypt_fs.Storage.Disk.{path_for}
use crypt_fs.Tests.Disk.{files, files-KeepsFiles}
use crypt_fs.Storage.Remote.{Reply, reply, no_reply, Http, remote_path_for, remote_put, remote_get}
use crypt_fs.BlobServer.{whole, handle}
use crypt_fs.BlobServer.Remote.{Delivers, remote_lem}

abbrev quoted : Bytes → Bytes
quoted t = b'"' ∷ (t ++ b'"' ∷ [])

abbrev returned : Assoc Bytes → Option (Assoc Bytes × ℕ × Bytes) → Assoc Bytes × Reply
returned st none = (st, no_reply (failed []))
returned st (some (st', status, answer)) = (st', reply status answer)

-- The server has the empty address.
abbrev loopback : Http
loopback = record {
  State = Assoc Bytes;
  request_error = λ url. none;
  send = λ method url body st.
      returned st (handle quoted files [] method (drop 7 url) (whole body) st);
}

loopback-Delivers : Delivers quoted files [] loopback []
unfolding remote_path_for
loopback-Delivers = record {
  store_of = λ st. st;
  requests = λ key. refl;
  delivered = λ method key body st st' status answer e. rw e (refl, refl);
}

abbrev a_key : Bytes
a_key = 1 ∷ 255 ∷ []

-- The key's file.
abbrev held : Assoc Bytes
held = (path_for files [] a_key, 5 ∷ 6 ∷ []) ∷ []

-- The file is written, and the remote store's Put returns an error.
remote_lem_example :
    Answers (lookup (path_for files [] a_key) held) (remote_get loopback [] a_key held).1
    × ((remote_put loopback [] a_key (7 ∷ []) held).0
        ≡ insert (path_for files [] a_key) (7 ∷ []) held)
    × (((remote_put loopback [] a_key (7 ∷ []) held).1 ≡ none)
        ↔ (◌≢◌ {A = Option (Unit {0})} none none))
unfolding loopback-Delivers files-KeepsFiles
remote_lem_example =
    remote_lem quoted files [] loopback [] files-KeepsFiles loopback-Delivers a_key (7 ∷ []) held
      (omega arith, (omega arith, tt))
