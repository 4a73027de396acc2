-- ===== src/Commands/Mount.antt =====
-- cmd/mount.go: how a file system is mounted: its client's options, its root, go-fuse's options.
-- The composition of the stores and the signal that unmounts are left out.
pub mod Root
use crypt_fs.Prelude.{
  ℕ, ◌%◌, ◌^◌, ◌++◌, List, ◌∷◌, Bool, Option, none, some, false, [], Bytes, ◌>>=◌, if◌then◌else◌,
  replicate, bit_or,
}
use crypt_fs.Prelude.Text.{codes}
use crypt_fs.Storage.{Error, error_text, is_not_found, Store}
use crypt_fs.Client
use crypt_fs.Client.{with_address, with_fallback_to_plain_tcp}
use crypt_fs.Storage.Versioned.{VersionedStore}
use crypt_fs.Node.Metadata.{s_ifdir, node_key_len}
use crypt_fs.Node.Heap.{TreeNode, World, existing_node, store_node}
use crypt_fs.Node.File.{Stores}
use crypt_fs.Node.Tree.{Tree}
use crypt_fs.Node.Reload.{load_metadata}

-- The root, or the text of log.Fatalf.
pub data Start (S : Type 0) : Type 0 where
  fatal : Bytes → Start S
  mounts : ℕ → World S → Start S

abbrev pub root_name : Bytes
root_name = codes "root"

abbrev pub root_key : Bytes
root_key = replicate {A = ℕ} node_key_len 0

-- The root's mode gets the bit of a directory, and its map of children is made.
unfoldable pub empty_root : TreeNode → TreeNode
empty_root t = record t {
  node = record t.node {
    metadata = record t.node.metadata { mode = bit_or t.node.metadata.mode s_ifdir };
  };
  links = [];
  nil_links = false;
}

unfoldable pub root_found : {S : Type 0} → ℕ → Option Error → TreeNode → World S → Start S
unfolding store_node empty_root
root_found p none t w = mounts p (store_node p t w)
root_found p (some err) t w =
    if is_not_found err
    then mounts p (store_node p (empty_root t) w)
    else fatal (codes "Could not load root node metadata: " ++ error_text err)

module _ (sum512 : Bytes → Bytes) (blobs : Store) (meta : VersionedStore) where
  unfoldable pub load_root : Tree sum512 blobs meta → Option (Start (Stores sum512 blobs meta))
  unfolding existing_node load_metadata root_found
  load_root w =
      let (p, w₁) = existing_node root_name root_key w in
      (do
        t ← w₁.cells p
        (err, t', w₂) ← load_metadata sum512 blobs meta t.node.key t w₁
        some (root_found p err t' w₂))

-- The options of the client that the metadata is read with.
abbrev pub client_options : Bytes → List (Client.Options → Client.Options)
client_options metadata_server = with_address metadata_server ∷ with_fallback_to_plain_tcp ∷ []

-- go-fuse's fs.Options, as far as they are set.
pub record FsOptions : Type 0 where
  pub debug : Bool
  pub uid : ℕ
  pub gid : ℕ
  pub fs_name : Bytes
  pub name : Bytes

-- `uid` and `gid` are os.Getuid and os.Getgid.
abbrev pub fs_options : Bool → ℕ → ℕ → FsOptions
fs_options debug uid gid = record {
  debug = debug;
  uid = uid % 2 ^ 32;
  gid = gid % 2 ^ 32;
  fs_name = codes "test";
  name = codes "dinofs";
}

-- How the command ends before the file system is served, or what is served, with which options.
pub data Mounted (S : Type 0) : Type 0 where
  not_mounted : Bytes → Mounted S
  serving : ℕ → World S → FsOptions → Mounted S

-- `fs_mount` is fs.Mount at a directory, and `quoted` is fmt's %q.
abbrev pub mount_root :
    {S : Type 0}
    → (Bytes → Bytes)
    → (Bytes → ℕ → FsOptions → Option Error)
    → Bytes
    → FsOptions
    → Start S
    → Mounted S
mount_root quoted fs_mount dir o (fatal text) = not_mounted text
mount_root quoted fs_mount dir o (mounts p w) = elim (fs_mount dir p o) [
  | some err ↦
      not_mounted (codes "Could not mount on " ++ quoted dir ++ codes ": " ++ error_text err)
  | none ↦ serving p w o
]

module _ (sum512 : Bytes → Bytes) (blobs : Store) (meta : VersionedStore)
    (quoted expand_env : Bytes → Bytes) (mkdir_all : Bytes → Option Error)
    (fs_mount : Bytes → ℕ → FsOptions → Option Error) where
  -- `expand_env` is os.ExpandEnv.
  unfoldable pub mount_file_system :
      FsOptions → Bytes → Tree sum512 blobs meta → Option (Mounted (Stores sum512 blobs meta))
  unfolding load_root
  mount_file_system o mount_point w = do
    start ← load_root sum512 blobs meta w
    some (mount_root quoted fs_mount (expand_env mount_point) o start)

  -- `mkdir_all` is os.MkdirAll.
  unfoldable pub mount :
      FsOptions → Bytes → Tree sum512 blobs meta → Option (Mounted (Stores sum512 blobs meta))
  unfolding mount_file_system
  mount o mount_point w = elim (mkdir_all mount_point) [
    | some err ↦ some (not_mounted (codes "error creating mount point"))
    | none ↦ mount_file_system o mount_point w
  ]
