-- ===== src/Node/File.antt =====
-- pkg/node/node.go and the second half of metadata.go: what a node does with its content, its
-- attributes and its children, and how it saves them.
-- A lock makes each operation one step. A map that is nil holds nothing. `none` is a panic. Offsets
-- are not negative, and sizes do not overflow.
pub mod Content
pub mod Sync
pub mod Saved
pub mod Setattr
use crypt_fs.Prelude.{
  ℕ, ◌+◌, ◌-◌, ◌^◌, ◌%◌, Option, none, some, Bool, true, false, not, ◌||◌, ◌&&◌, [], ◌++◌, Bytes,
  ◌==◌, bytes_eq, ◌>>=◌, if◌then◌else◌, length, replicate, take, drop, ltb, leb, lookup, insert,
  delete,
}
use crypt_fs.Bits.{copy}
use crypt_fs.Storage.{Error, Store, is_stale_put}
use crypt_fs.Storage.Versioned.{VersionedStore}
use crypt_fs.Storage.Blobs.{blob_put}
use crypt_fs.Node.Metadata.{Metadata, serialize}

pub data Errno : Type 0 where
  ok eio enoent eexist enotempty enodata erange : Errno

-- errno == 0
abbrev pub is_ok : Errno → Bool
is_ok ok = true
is_ok _ = false

-- A node. `content` is the visible part of the content's slice, and `spare` what its array holds
-- behind that, up to the capacity.
pub record CryptNode : Type 0 where
  pub should_save_metadata : Bool
  pub should_reload_metadata : Bool
  pub should_save_content : Bool
  pub metadata : Metadata
  pub key : Bytes
  pub version : ℕ
  pub content : Bytes
  pub spare : Bytes

unfoldable pub resize : ℕ → CryptNode → CryptNode
resize size node =
    if ltb (length node.content + length node.spare) size
    then record node {
      content = node.content ++ replicate (size - length node.content) 0;
      spare = [];
    }
    else record node {
      content = take size (node.content ++ node.spare);
      spare = drop size (node.content ++ node.spare);
    }

-- node.content[off:end]
unfoldable pub read : ℕ → ℕ → CryptNode → Bytes
read size off node = if ltb (length node.content) off then [] else take size (drop off node.content)

-- Readlink
abbrev pub read_link : CryptNode → Bytes
read_link node = node.content

abbrev pub make_room : ℕ → CryptNode → CryptNode
make_room end node = if ltb (length node.content) end then resize end node else node

-- `now` is the clock's time.
unfoldable pub write : ℕ → Bytes → ℕ → CryptNode → CryptNode
unfolding copy resize
write now bytes off node =
    let roomy = make_room (off + length bytes) node in
    record roomy {
      content = take off roomy.content ++ copy (drop off roomy.content) bytes;
      metadata = record roomy.metadata { time = now };
      should_save_content = ltb 0 (length bytes) || roomy.should_save_content;
    }

-- `copy(dest, value)` fills a `dest` that is long enough with the value.
unfoldable pub getxattr : Bytes → ℕ → CryptNode → ℕ × Bytes × Errno
getxattr attr room node = elim (lookup attr node.metadata.xattrs) [
  | none ↦ (0, [], enodata)
  | some value ↦
      if ltb room (length value)
      then (length value % 2 ^ 32, [], erange)
      else (length value % 2 ^ 32, value, ok)
]

unfoldable pub has : Bytes → CryptNode → Bool
has attr node = elim (lookup attr node.metadata.xattrs) [ none ↦ false | some v ↦ true ]

-- unix.XATTR_CREATE is 1, and unix.XATTR_REPLACE 2.
unfoldable pub check_flags : ℕ → Bytes → CryptNode → Errno
unfolding has
check_flags flags attr node =
    if flags == 1 && has attr node
    then eexist
    else if flags == 2 && not (has attr node)
    then enodata
    else ok

unfoldable pub set_attr : Bytes → Bytes → CryptNode → CryptNode
set_attr attr value node = record node {
  metadata = record node.metadata { xattrs = insert attr value node.metadata.xattrs };
  should_save_metadata = true;
}

-- The attribute as it was before.
unfoldable pub restore_attr : Bytes → Option Bytes → CryptNode → CryptNode
restore_attr attr none node = record node {
  metadata = record node.metadata { xattrs = delete attr node.metadata.xattrs };
}
restore_attr attr (some old) node = record node {
  metadata = record node.metadata { xattrs = insert attr old node.metadata.xattrs };
}

unfoldable pub remove_child : Bytes → CryptNode → CryptNode
remove_child name node = record node {
  metadata = record node.metadata { children = delete name node.metadata.children };
  should_save_metadata = true;
}

unfoldable pub restore_child : Bytes → Option Bytes → CryptNode → CryptNode
restore_child name none node = node
restore_child name (some child) node = record node {
  metadata = record node.metadata { children = insert name child node.metadata.children };
}

module _ (sum512 : Bytes → Bytes) (blobs : Store) where
  -- The part of `sync` that saves the content. The key is set even where the store fails.
  unfoldable pub save_content : CryptNode → blobs.State → CryptNode × blobs.State × Option Error
  unfolding blob_put
  save_content node st =
      if node.should_save_content
      then (let (st', key, err) = blob_put sum512 blobs node.content st in
          let keyed = record node { metadata = record node.metadata { content_key = key } } in
          elim err [
            | some e ↦ (keyed, st', some e)
            | none ↦ (
              record keyed {
                should_save_content = false;
                should_save_metadata =
                    not (bytes_eq node.metadata.content_key key) || node.should_save_metadata;
              },
              st',
              none,
            )
          ])
      else (node, st, none)

module _ (meta : VersionedStore) where
  unfoldable pub save_metadata :
      CryptNode → meta.State → Option (CryptNode × meta.State × Option Error)
  save_metadata node st = do
    value ← serialize node.metadata
    (st', err) ← meta.put ((node.version + 1) % 2 ^ 64) node.key value st
    elim err [
      | some e ↦ some (node, st', some e)
      | none ↦ some (record node { version = (node.version + 1) % 2 ^ 64 }, st', none)
    ]

  -- The rest of `sync`.
  unfoldable pub sync_metadata : CryptNode → meta.State → Option (CryptNode × meta.State × Errno)
  unfolding save_metadata
  sync_metadata node st =
      if node.should_save_metadata
      then (do
        (saved, st', err) ← save_metadata node st
        elim err [
          | some e ↦ some (
            if is_stale_put e then record saved { should_reload_metadata = true } else saved,
            st',
            eio,
          )
          | none ↦ some (record saved { should_save_metadata = false }, st', ok)
        ])
      else some (node, st, ok)

module _ (sum512 : Bytes → Bytes) (blobs : Store) (meta : VersionedStore) where
  -- The states of both stores.
  abbrev pub Stores : Type 0
  Stores = blobs.State × meta.State

  -- `sync` after the content, whose error it was given.
  unfoldable pub sync_saved :
      CryptNode → blobs.State → meta.State → Option Error → Option (CryptNode × Stores × Errno)
  unfolding sync_metadata
  sync_saved saved b m (some e) = some (saved, (b, m), eio)
  sync_saved saved b m none = do
    (node, m', errno) ← sync_metadata meta saved m
    some (node, (b, m'), errno)

  unfoldable pub sync : CryptNode → Stores → Option (CryptNode × Stores × Errno)
  unfolding save_content sync_saved
  sync node (b, m) =
      let (saved, b', err) = save_content sum512 blobs node b in sync_saved saved b' m err

  unfoldable pub setxattr :
      Bytes → Bytes → ℕ → CryptNode → Stores → Option (CryptNode × Stores × Errno)
  unfolding check_flags set_attr restore_attr
  setxattr attr value flags node st =
      if is_ok (check_flags flags attr node)
      then (do
        (node', st', errno) ← sync (set_attr attr value node) st
        some (
          if is_ok errno then node' else restore_attr attr (lookup attr node.metadata.xattrs) node',
          st',
          errno,
        ))
      else some (node, st, check_flags flags attr node)

  unfoldable pub unlink : Bytes → CryptNode → Stores → Option (CryptNode × Stores × Errno)
  unfolding remove_child restore_child
  unlink name node st = do
    (node', st', errno) ← sync (remove_child name node) st
    some (
      if is_ok errno then node' else restore_child name (lookup name node.metadata.children) node',
      st',
      errno,
    )

  -- Flush, which Release and Fsync call.
  unfoldable pub flush : CryptNode → Stores → Option (CryptNode × Stores × Errno)
  flush node st = do
    (node', st', errno) ← sync node st
    some (
      if is_ok errno || bytes_eq node.metadata.content_key node'.metadata.content_key
          then node'
          else record node' {
            metadata = record node'.metadata { content_key = node.metadata.content_key };
            content = [];
            spare = [];
          },
      st',
      errno,
    )
