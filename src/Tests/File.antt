-- ===== src/Tests/File.antt =====
-- Runs of the operations of a node (pkg/node/node.go).
use crypt_fs.Prelude.{
  ℕ, ◌≡◌, refl, arith, none, some, true, false, ◌&&◌, [], ◌∷◌, Bytes, lookup, insert, delete,
  bytes_eq, if◌then◌else◌, replicate, Assoc,
}
use crypt_fs.Storage.{stale_put, is_stale_put, Store, IsMap}
use crypt_fs.Storage.InMemory.{in_memory_store, in_memory_store-IsMap}
use crypt_fs.Storage.Versioned.{VersionedStore, new_versioned_wrapper}
use crypt_fs.Storage.Versioned.Refinement.{Entries, Refines}
use crypt_fs.Node.Metadata.{Metadata}
use crypt_fs.Node.Metadata.Format.{IsSerializable, serialize-metadata_bytes}
use crypt_fs.Node.File.{
  ok, eio, is_ok, CryptNode, resize, write, check_flags, set_attr, restore_attr, remove_child,
  restore_child, Stores, sync, sync_saved, save_content, sync_metadata, save_metadata, setxattr,
  unlink,
}
use crypt_fs.Node.File.Setattr.{
  SetAttrIn, set_attrs, set_size, setattr, AttrsSet, key_left, setattr_lem,
}
use crypt_fs.Node.File.Content.{Written, write_lem, resize-resize}
use crypt_fs.Node.File.Sync.{setxattr_lem}
use crypt_fs.Node.File.Saved.{after_content, after_metadata, is_saved, Synced, sync_lem}

abbrev a_name : Bytes
a_name = b'x' ∷ []

abbrev a_directory : CryptNode
a_directory = record {
  metadata = record {
    user = 1;
    group = 2;
    mode = 0x41ed;
    time = 3;
    content_key = [];
    xattrs = (b'a' ∷ [], b'1' ∷ []) ∷ [];
    children = (b'x' ∷ [], replicate {A = ℕ} 20 1) ∷ [];
  };
  key = b'k' ∷ [];
  version = 4;
  content = [];
  spare = [];
  should_save_metadata = false;
  should_reload_metadata = false;
  should_save_content = false;
}

abbrev a_file : CryptNode
a_file = record a_directory { content = 1 ∷ 2 ∷ 3 ∷ []; spare = 9 ∷ []; should_save_content = true }

write_lem_example : Written (7 ∷ 8 ∷ []) 5 a_file (write 100 (7 ∷ 8 ∷ []) 5 a_file)
write_lem_example = write_lem 100 (7 ∷ 8 ∷ []) 5 a_file

resize-resize_example : resize 3 (resize 1 a_file) ≡ a_file
resize-resize_example = resize-resize 1 a_file (omega arith)

abbrev plain : Bytes → Bytes
plain k = k

abbrev memory : Store
memory = in_memory_store plain

-- A metadata server that refuses each version.
abbrev refusing : VersionedStore
refusing = record {
  State = Unit {0};
  put = λ version key value st. some (st, some stale_put);
  get = λ key st. none;
}

a_directory-IsSerializable : IsSerializable a_directory.metadata
a_directory-IsSerializable = record {
  content_key = omega arith;
  xattrs = (omega arith, omega arith, tt);
  children = (omega arith, omega arith, tt);
  keys = (refl, tt);
}

abbrev with_attr : Metadata
with_attr = (set_attr (b'a' ∷ []) (b'2' ∷ []) a_directory).metadata

with_attr-IsSerializable : IsSerializable with_attr
unfolding set_attr insert bytes_eq
with_attr-IsSerializable = record {
  content_key = omega arith;
  xattrs = (omega arith, omega arith, tt);
  children = (omega arith, omega arith, tt);
  keys = (refl, tt);
}

-- The node whose attribute was put back.
abbrev attr_kept : CryptNode
attr_kept =
    restore_attr (b'a' ∷ []) (some (b'1' ∷ []))
      (record (set_attr (b'a' ∷ []) (b'2' ∷ []) a_directory) { should_reload_metadata = true })

attr_refused :
    setxattr plain memory refusing (b'a' ∷ []) (b'2' ∷ []) 0 a_directory ([], tt)
    ≡ some (attr_kept, ([], tt), eio)
unfolding setxattr check_flags sync save_content sync_saved sync_metadata save_metadata lookup
    bytes_eq insert is_stale_put
attr_refused = rw (serialize-metadata_bytes with_attr with_attr-IsSerializable)

setxattr_lem_example : lookup (b'a' ∷ []) attr_kept.metadata.xattrs ≡ (
    if is_ok eio && bytes_eq (b'a' ∷ []) (b'a' ∷ [])
    then some (b'2' ∷ [])
    else lookup (b'a' ∷ []) a_directory.metadata.xattrs)
setxattr_lem_example =
    setxattr_lem plain memory refusing (b'a' ∷ []) (b'2' ∷ []) 0 a_directory attr_kept ([], tt)
      ([], tt) eio attr_refused (b'a' ∷ [])

abbrev without_child : Metadata
without_child = (remove_child a_name a_directory).metadata

without_child-IsSerializable : IsSerializable without_child
unfolding remove_child delete bytes_eq
without_child-IsSerializable = record {
  content_key = omega arith;
  xattrs = (omega arith, omega arith, tt);
  children = tt;
  keys = tt;
}

-- The node whose child was put back.
abbrev child_kept : CryptNode
child_kept =
    restore_child a_name (some (replicate {A = ℕ} 20 1))
      (record (remove_child a_name a_directory) { should_reload_metadata = true })

child_refused :
    unlink plain memory refusing a_name a_directory ([], tt) ≡ some (child_kept, ([], tt), eio)
unfolding unlink sync save_content sync_saved sync_metadata save_metadata lookup bytes_eq delete
    remove_child restore_child insert is_stale_put
child_refused = rw (serialize-metadata_bytes without_child without_child-IsSerializable)

abbrev no_entries : Entries
no_entries k = none

abbrev memory-IsMap : IsMap memory
memory-IsMap = in_memory_store-IsMap plain

empty-Refines : Refines memory memory-IsMap [] no_entries
unfolding in_memory_store-IsMap lookup
empty-Refines = record { shown = λ k. refl; bounded = λ k. tt }

sync_lem_example :
    (b' : Assoc Bytes) × (m' : Assoc Bytes) × (sync plain memory
        (new_versioned_wrapper memory)
        a_file
        ([], [])
      ≡ some (
        after_metadata memory memory-IsMap
            (after_content plain memory memory-IsMap a_file)
            no_entries,
        (b', m'),
        if is_saved memory memory-IsMap (after_content plain memory memory-IsMap a_file) no_entries
            then ok
            else eio,
      ))
    × Synced plain memory memory memory-IsMap memory-IsMap a_file [] b' m' no_entries
sync_lem_example =
    sync_lem plain memory memory memory-IsMap memory-IsMap a_file [] [] no_entries (omega arith)
      a_directory-IsSerializable (omega arith) empty-Refines

abbrev to_two : SetAttrIn
to_two = record { mtime = none; uid = some 7; gid = none; mode = some 0x180; size = some 2 }

setattr_lem_example :
    (node' : CryptNode) × (st' : Stores plain memory (new_versioned_wrapper memory)) × (setattr
        plain memory
        (new_versioned_wrapper memory)
        to_two
        9
        a_file
        ([], [])
      ≡ some (node', st', ok))
    × AttrsSet to_two 9 a_file node' ok
    × (node'.metadata.content_key ≡ key_left plain to_two a_file)
unfolding set_attrs set_size resize
setattr_lem_example =
    setattr_lem plain memory memory memory-IsMap memory-IsMap to_two 9 a_file [] [] no_entries
      (omega arith) a_directory-IsSerializable (omega arith) empty-Refines
