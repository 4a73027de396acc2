-- ===== src/Server.antt =====
-- pkg/network/server: the metadata server, its options, connections and broadcasts.
-- A net.Conn is the bytes still to be read from it and a state of its writing side. `none` is a
-- panic. Log lines are left out.
pub mod Authorization
pub mod Broadcast
pub mod Locked
pub mod Lifecycle
pub mod Rounds
pub mod Session
pub mod History
use crypt_fs.Prelude.{
  ℕ, ◌%◌, ◌^◌, ◌≡◌, Option, none, some, Bool, true, false, not, ◌&&◌, List, [], ◌∷◌, ◌++◌, Bytes,
  ◌==◌, ◌>>=◌, if◌then◌else◌,
}
use crypt_fs.Prelude.Text.{codes}
use crypt_fs.Message.{
  Message, Kind, zero_message, kind_put, kind_auth, get_value, new_error_message, new_auth_message,
  for_broadcast,
}
use crypt_fs.Message.Encoding
use crypt_fs.Message.Encoding.{Encoder, Decoder, Reader, encode, decode}
use crypt_fs.Storage.Versioned.{VersionedStore}
use crypt_fs.Storage.Apply.{apply_message}
use crypt_fs.Storage.Uri.{Opened}

-- The options, and the functions that set them.
-- `store` is the store that is set, inside its versioned wrapper, by what NewStore has made; nil is
-- none.
pub record Options : Type 0 where
  pub bind : Bytes
  pub store : Option Opened
  pub tls : Bool
  pub cert_file : Bytes
  pub key_file : Bytes
  pub auth_hash : Bytes

unfoldable pub with_bind : Bytes → Options → Options
with_bind bind o = record o { bind = bind }

unfoldable pub with_versioned_store : Opened → Options → Options
with_versioned_store value o = record o { store = some value }

unfoldable pub with_key_pair : Bytes → Bytes → Options → Options
with_key_pair cert_file key_file o = record o {
  tls = true;
  cert_file = cert_file;
  key_file = key_file;
}

unfoldable pub with_auth_hash : Bytes → Options → Options
with_auth_hash value o = record o { auth_hash = value }

apply_options : List (Options → Options) → Options → Options
apply_options [] o = o
apply_options (set ∷ opts) o = apply_options opts (set o)

unfoldable pub new_options : List (Options → Options) → Options
unfolding apply_options
new_options opts = apply_options opts (record {
  bind = codes ":8000";
  store = none;
  tls = false;
  cert_file = [];
  key_file = [];
  auth_hash = [];
})

-- o.authHash != ""
unfoldable pub wants_password : Options → Bool
wants_password o = elim o.auth_hash [ [] ↦ false | x ∷ xs ↦ true ]

pub data ListenError : Type 0 where
  password_without_tls : ListenError
  listen_failed : ListenError

-- `tls_listens` and `net_listens` tell whether the libraries' calls, the loading of the key pair
-- included, succeed.
unfoldable pub listen : Options → Bool → Bool → Option ListenError
unfolding wants_password
listen o tls_listens net_listens =
    if o.tls
    then (if tls_listens then none else some listen_failed)
    else if wants_password o
    then some password_without_tls
    else if net_listens
    then none
    else some listen_failed

pub record ServerConn (W : Type 0) : Type 0 where
  pub id : ℕ
  pub input : Reader
  pub out : W
  pub encoder : Encoder
  pub decoder : Decoder
  pub authorized : Bool

-- The message that is sent on to the other connections.
unfoldable pub to_broadcast : Message → Message → Option Message
to_broadcast input output =
    if input.kind == kind_put && output.kind == kind_put then some output else none

-- One round of handleInput: the connection ends at a decoding error.
pub data Round (W State : Type 0) : Type 0 where
  detached : Round W State
  handled : ServerConn W → State → Option Message → Round W State

module _ {W : Type 0} where
  unfoldable pub remove_conn : ℕ → List (ServerConn W) → List (ServerConn W)
  remove_conn id [] = []
  remove_conn id (conn ∷ conns) =
      let rest = remove_conn id conns in if conn.id == id then rest else conn ∷ rest

module _ (verify : Bytes → Bytes → Bool) (o : Options) where
  -- The answer while a password is still wanted: whether the connection is authorized from then on,
  -- and the output. `verify` is bcrypt.CompareHashAndPassword returning nil.
  unfoldable pub authenticate : Message → Option (Bool × Message)
  authenticate input =
      if not (input.kind == kind_auth)
      then some (false, new_error_message input.tag (codes "go away, bad message type"))
      else (do
        value ← get_value input
        some (
            if verify o.auth_hash value
            then (true, new_auth_message input.tag [])
            else (false, new_error_message input.tag (codes "go away, bad password"))))

module _ (verify : Bytes → Bytes → Bool) (format_kind : Kind → Bytes) (store : VersionedStore)
    (o : Options) where
  -- The answer to a decoded message, with the store after it.
  unfoldable pub respond : Bool → Message → store.State → Option (Bool × store.State × Message)
  unfolding wants_password authenticate
  respond authorized input st =
      if wants_password o && not authorized
      then (do (authorized', output) ← authenticate verify o input; some (authorized', st, output))
      else (do
        (st', output) ← apply_message format_kind store input st
        some (authorized, st', output))

module _ {W : Type 0} (write : W → Bytes → W × ℕ × Option Encoding.Error)
    (verify : Bytes → Bytes → Bool) (format_kind : Kind → Bytes) (store : VersionedStore)
    (o : Options) where
  -- The output goes to the connection, whose encoding error is only logged.
  unfoldable pub finish :
      ServerConn W → Reader → Message → Bool → store.State → Message → Option (Round W store.State)
  unfolding to_broadcast
  finish sc input_rest input authorized st output = do
    (encoder, out, err) ← encode write sc.encoder sc.out output
    some (
        handled
          (record sc { input = input_rest; out = out; encoder = encoder; authorized = authorized })
          st (to_broadcast input output))

  unfoldable pub answer :
      ServerConn W → Reader → Message → store.State → Option (Round W store.State)
  unfolding respond finish
  answer sc input_rest input st = do
    (authorized, st', output) ← respond verify format_kind store o sc.authorized input st
    finish sc input_rest input authorized st' output

  unfoldable pub handle_input : ServerConn W → store.State → Option (Round W store.State)
  unfolding answer
  handle_input sc st = do
    (decoder, rest, input) ← decode sc.decoder sc.input zero_message
    elim decoder.err [
      | some e ↦ some detached
      | none ↦ answer (record sc { decoder = decoder }) rest input st
    ]

module _ {W : Type 0} (o : Options) where
  unfoldable pub is_notified : ℕ → ServerConn W → Bool
  unfolding wants_password
  is_notified excluded conn =
      not (excluded == conn.id) && not (wants_password o && not conn.authorized)

module _ {W : Type 0} (write : W → Bytes → W × ℕ × Option Encoding.Error) (o : Options) where
  -- An encoding error is only logged.
  unfoldable pub notify : ℕ → Message → ServerConn W → Option (ServerConn W)
  unfolding is_notified
  notify excluded m conn =
      if is_notified o excluded conn
      then (do
        (encoder, out, err) ← encode write conn.encoder conn.out m
        some (record conn { encoder = encoder; out = out }))
      else some conn

  unfoldable pub notify_all : ℕ → Message → List (ServerConn W) → Option (List (ServerConn W))
  unfolding notify
  notify_all excluded m [] = some []
  notify_all excluded m (conn ∷ conns) = do
    conn' ← notify excluded m conn
    conns' ← notify_all excluded m conns
    some (conn' ∷ conns')

  unfoldable pub broadcast : ℕ → Message → List (ServerConn W) → Option (List (ServerConn W))
  unfolding notify_all
  broadcast excluded m conns = do
    broadcast_message ← for_broadcast m
    notify_all excluded broadcast_message conns
