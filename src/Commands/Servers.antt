-- ===== src/Commands/Servers.antt =====
-- cmd/meta.go and cmd/blob.go: how the two servers are started.
-- viper's settings are a function from names, the files and sockets of the system parameters.
use mathlib.Core.Option
use crypt_fs.Prelude.{
  ◌≡◌, ◌⊎◌, inl, inr, refl, ap, Option, none, some, Bool, true, false, [], ◌∷◌, ◌++◌, Bytes, ◌<◌,
  ◌∙◌, All, arith, Option-cases, bytes_eq, if◌then◌else◌,
}
use crypt_fs.Prelude.Text.{codes}
use crypt_fs.Storage.{Error, error_text, wrapped}
use crypt_fs.Storage.Uri.{
  Opened, in_memory, on_disk, in_bitcask, IsPlain, to_lower, at_separator, uri_string,
  opened_bitcask, parse_store_uri-uri_string, new_store_of, new_store,
}
use crypt_fs.Storage.Bitcask.{new_bitcask_store}
use crypt_fs.Server.{
  Options, with_bind, with_versioned_store, new_options, wants_password, listen, ListenError,
  ServerConn,
}
use crypt_fs.Server.Rounds.{lets_in}

-- viper.GetString, by a setting's default where it is not set.
abbrev pub setting : Bytes → Option Bytes → Bytes
setting fallback value = Option.get_or value fallback

-- How a start ends: log.Fatal with its text, or a server that serves with its options.
pub data Start : Type 0 where
  fatal : Bytes → Start
  serves : Options → Start

abbrev pub listened : Options → Option ListenError → Start
listened o none = serves o
listened o (some e) = fatal (codes "error starting metdata server")

abbrev pub meta_options : Bytes → Opened → Options
meta_options bind_address store =
    new_options (with_bind bind_address ∷ with_versioned_store store ∷ [])

abbrev pub start_over : Bytes → Bool → Error ⊎ Opened → Start
start_over bind_address net_listens (inl e) =
    fatal (codes "Could not instantiate backend store: " ++ error_text e)
start_over bind_address net_listens (inr store) =
    listened (meta_options bind_address store)
      (listen (meta_options bind_address store) false net_listens)

-- `open_db` is bitcask.Open at a path, and `net_listens` tells whether net.Listen succeeds.
unfoldable pub metaserver : (Bytes → Option Error) → Bool → Bytes → Bytes → Start
unfolding new_store new_options listen
metaserver open_db net_listens bind_address store_uri =
    start_over bind_address net_listens (new_store open_db store_uri)

-- The run of the command, by the settings meta-bind and store.
unfoldable pub meta_run : (Bytes → Option Error) → Bool → Option Bytes → Option Bytes → Start
unfolding metaserver
meta_run open_db net_listens meta_bind store =
    metaserver open_db net_listens (setting (codes ":8000") meta_bind)
      (setting (codes "bitcask://dinofs.db") store)

-- How the start of the blob server ends.
pub data BlobStart : Type 0 where
  blob_fatal : Bytes → BlobStart
  serves_blobs : (bind_address data_path : Bytes) → BlobStart

-- `listens` tells whether http.ListenAndServe goes on.
abbrev pub blob_listen : Bool → Bytes → Bytes → BlobStart
blob_listen true bind_address data_path = serves_blobs bind_address data_path
blob_listen false bind_address data_path = blob_fatal (codes "Could not listen and serve")

-- The result of os.MkdirAll is a parameter, and `quoted` is fmt's %q.
unfoldable pub blobserver : (Bytes → Bytes) → Option Error → Bool → Bytes → Bytes → BlobStart
blobserver quoted (some err) listens bind_address data_path =
    blob_fatal (
      codes "Could not ensure directory "
      ++ quoted data_path
      ++ codes " exists: "
      ++ error_text err)
blobserver quoted none listens bind_address data_path = blob_listen listens bind_address data_path

-- The run of the command, by the settings blob-bind and data.
unfoldable pub blob_run :
    (Bytes → Bytes) → (Bytes → Option Error) → Bool → Option Bytes → Option Bytes → BlobStart
unfolding blobserver
blob_run quoted mkdir_all listens blob_bind data_path =
    let path = setting (codes "./data") data_path in
    blobserver quoted (mkdir_all path) listens (setting (codes ":9000") blob_bind) path

-- The options of a server at an address over a store, in plain and without a password.
abbrev pub plain_options : Bytes → Opened → Options
plain_options bind_address store = record {
  bind = bind_address;
  store = some store;
  tls = false;
  cert_file = [];
  key_file = [];
  auth_hash = [];
}

-- The start over a store that could be made.
abbrev pub plain_start : Bytes → Bool → Opened → Start
plain_start bind_address net_listens store =
    if net_listens
    then serves (plain_options bind_address store)
    else fatal (codes "error starting metdata server")

abbrev pub bitcask_start : Bytes → Bool → Bytes → Option Error → Start
bitcask_start bind_address net_listens path none =
    plain_start bind_address net_listens (in_bitcask path)
bitcask_start bind_address net_listens path (some e) = fatal (
    codes "Could not instantiate backend store: "
    ++ error_text (wrapped (codes "error opening bitcask database") e))

start_over-plain_start :
    (bind_address : Bytes) (net_listens : Bool) (store : Opened)
    → start_over bind_address net_listens (inr store) ≡ plain_start bind_address net_listens store
unfolding listen new_options with_bind with_versioned_store wants_password
start_over-plain_start bind_address true store = refl
start_over-plain_start bind_address false store = refl

new_bitcask_store-opened :
    (open_db : Bytes → Option Error) (path : Bytes)
    → open_db path ≡ none
    → new_bitcask_store open_db path ≡ none
unfolding new_bitcask_store
new_bitcask_store-opened open_db path e = rw (new_bitcask_store, e) refl

new_bitcask_store-failed :
    (open_db : Bytes → Option Error) (path : Bytes) (err : Error)
    → open_db path ≡ some err
    → new_bitcask_store open_db path ≡ some (wrapped (codes "error opening bitcask database") err)
unfolding new_bitcask_store
new_bitcask_store-failed open_db path err e = rw (new_bitcask_store, e) refl

start_over-bitcask_start :
    (open_db : Bytes → Option Error) (bind_address : Bytes) (net_listens : Bool) (path : Bytes)
    → start_over bind_address net_listens (opened_bitcask path (new_bitcask_store open_db path))
      ≡ bitcask_start bind_address net_listens path (open_db path)
start_over-bitcask_start open_db bind_address net_listens path =
    elim (Option-cases (open_db path)) [
      | inl opened ↦
          rw (new_bitcask_store-opened open_db path opened, opened)
            (start_over-plain_start bind_address net_listens (in_bitcask path))
      | inr (e, failed) ↦ rw (new_bitcask_store-failed open_db path e failed, failed) refl
    ]

-- A type of stores, in lower case.
abbrev IsType : Bytes → Type 0
IsType type = IsPlain type × All (λ b. b < 128) type × (to_lower type ≡ type)

metaserver-parsed :
    (open_db : Bytes → Option Error) (net_listens : Bool) (bind_address type path : Bytes)
    → IsType type
    → IsPlain path
    → metaserver open_db net_listens bind_address (type ++ (codes "://" ++ path))
      ≡ start_over bind_address net_listens
          (new_store_of open_db (inr (record { type = type; path = path })))
unfolding metaserver new_store uri_string
metaserver-parsed open_db net_listens bind_address type path (plain, ascii, lower) h =
    ap (λ u. start_over bind_address net_listens (new_store_of open_db u))
      (parse_store_uri-uri_string (record { type = type; path = path }) plain h ascii lower)

memory-IsType : IsType (codes "memory")
unfolding to_lower at_separator
memory-IsType = (
  (refl, (refl, (refl, (refl, (refl, (refl, tt)))))),
  (omega arith, (omega arith, (omega arith, (omega arith, (omega arith, (omega arith, tt)))))),
  refl,
)

disk-IsType : IsType (codes "disk")
unfolding to_lower at_separator
disk-IsType = (
  (refl, (refl, (refl, (refl, tt)))),
  (omega arith, (omega arith, (omega arith, (omega arith, tt)))),
  refl,
)

bitcask-IsType : IsType (codes "bitcask")
unfolding to_lower at_separator
bitcask-IsType = (
  (refl, (refl, (refl, (refl, (refl, (refl, (refl, tt))))))),
  (
    omega arith,
    (omega arith, (omega arith, (omega arith, (omega arith, (omega arith, (omega arith, tt)))))),
  ),
  refl,
)

-- The metadata server that the command starts, by the URI of its store: memory:// and a path gives an
-- in-memory store, disk:// one in files under the path, and bitcask:// one in the database at the
-- path, whose error ends the start. The path does not contain "://". The server has the address that
-- it was given, that store, neither TLS nor a password, and so it lets every connection in; where
-- net.Listen fails the start ends too.
pub metaserver_lem :
    {W : Type 0} (open_db : Bytes → Option Error) (net_listens : Bool) (bind_address path : Bytes)
    (store : Opened) (sc : ServerConn W)
    → IsPlain path
    → (metaserver open_db net_listens bind_address (codes "memory://" ++ path)
        ≡ plain_start bind_address net_listens in_memory)
      × (metaserver open_db net_listens bind_address (codes "disk://" ++ path)
          ≡ plain_start bind_address net_listens (on_disk path))
      × (metaserver open_db net_listens bind_address (codes "bitcask://" ++ path)
          ≡ bitcask_start bind_address net_listens path (open_db path))
      × (lets_in (plain_options bind_address store) sc ≡ true)
unfolding wants_password new_store_of bytes_eq
metaserver_lem open_db net_listens bind_address path store sc h = (
  metaserver-parsed open_db net_listens bind_address (codes "memory") path memory-IsType h
      ∙ start_over-plain_start bind_address net_listens in_memory,
  metaserver-parsed open_db net_listens bind_address (codes "disk") path disk-IsType h
      ∙ start_over-plain_start bind_address net_listens (on_disk path),
  metaserver-parsed open_db net_listens bind_address (codes "bitcask") path bitcask-IsType h
      ∙ start_over-bitcask_start open_db bind_address net_listens path,
  refl,
)
