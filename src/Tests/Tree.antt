-- ===== src/Tests/Tree.antt =====
-- Runs of the operations on directories (pkg/node/node.go).
use crypt_fs.Prelude.{
  ℕ, ◌≡◌, refl, arith, none, some, true, false, ◌==◌, [], ◌∷◌, Bytes, lookup, insert, delete,
  bytes_eq, if◌then◌else◌, replicate, Assoc,
}
use crypt_fs.Storage.{stale_put, is_stale_put, Store}
use crypt_fs.Storage.InMemory.{in_memory_store}
use crypt_fs.Storage.Versioned.{VersionedStore}
use crypt_fs.Node.Metadata.{Metadata}
use crypt_fs.Node.Metadata.Format.{IsSerializable, serialize-metadata_bytes}
use crypt_fs.Node.File.{eio, sync, sync_saved, save_content, sync_metadata, save_metadata}
use crypt_fs.Node.Heap.{
  TreeNode, Cells, set_cell, new_node, store_node, add_known, new_cell, allocate_node,
}
use crypt_fs.Node.Tree.{
  keys_of, need_save, with_link, edit, link, Tree, sync_at, remove_empty, rmdir,
  create_locked_child, save_child, mkdir, sync_three, rename,
}
use crypt_fs.Node.Tree.Entries.{Leads}
use crypt_fs.Node.Tree.Atomic.{rmdir_lem}
use crypt_fs.Node.Tree.Create.{directory, make, make_lem}
use crypt_fs.Node.Tree.Rename.{Moved, rename_lem}

abbrev plain : Bytes → Bytes
plain k = k

abbrev memory : Store
memory = in_memory_store plain

-- A metadata server that refuses each version.
abbrev refusing : VersionedStore
refusing = record {
  State = Unit {0};
  put = λ version key value st. some (st, some stale_put);
  get = λ key st. none;
}

abbrev sub : Bytes
sub = b's' ∷ []

abbrev other : Bytes
other = b't' ∷ []

-- A directory with a key of its own.
abbrev directory_node : ℕ → Assoc ℕ → TreeNode
directory_node x links = record (new_node (replicate {A = ℕ} 20 x) [] 0x4000 0) {
  nil_links = false;
  links = links;
}

abbrev two_cells : Cells
two_cells p =
    if p == 0
    then some (directory_node 0 ((sub, 1) ∷ []))
    else if p == 1
    then some (directory_node 1 [])
    else none

-- A directory with an empty one in it.
abbrev a_tree : Tree plain memory refusing
a_tree = record { cells = two_cells; next = 2; known = []; stores = ([], tt) }

abbrev bare : Metadata
bare = (directory_node 0 []).node.metadata

bare-IsSerializable : IsSerializable bare
bare-IsSerializable = record { content_key = omega arith; xattrs = tt; children = tt; keys = tt }

abbrev refused : TreeNode → TreeNode
refused t = record t {
  node = record t.node { should_save_metadata = true; should_reload_metadata = true };
}

-- The directory is marked and its child put back.
abbrev rmdir_refused_tree : Tree plain memory refusing
rmdir_refused_tree = store_node 0 (refused (directory_node 0 ((sub, 1) ∷ []))) (
    store_node 0 (refused (directory_node 0 []))
      (store_node 0 (need_save (directory_node 0 [])) a_tree))

rmdir_refused : rmdir plain memory refusing 0 sub a_tree ≡ some (rmdir_refused_tree, eio)
unfolding rmdir remove_empty edit link with_link sync_at keys_of store_node set_cell sync
    save_content sync_saved sync_metadata save_metadata lookup bytes_eq delete insert is_stale_put
rmdir_refused = rw (serialize-metadata_bytes bare bare-IsSerializable)

rmdir_lem_example : Leads a_tree rmdir_refused_tree 0 sub (some 1)
unfolding lookup bytes_eq
rmdir_lem_example =
    rmdir_lem plain memory refusing 0 sub a_tree rmdir_refused_tree eio rmdir_refused

abbrev made : TreeNode
made = record (directory_node 2 []) { name = other }

abbrev with_both : Assoc ℕ
with_both = (sub, 1) ∷ (other, 2) ∷ []

-- The new directory is refused, and taken out.
abbrev mkdir_refused_tree : Tree plain memory refusing
mkdir_refused_tree = store_node 0 (need_save (directory_node 0 ((sub, 1) ∷ []))) (
    store_node 2 (refused made) (
      store_node 0 (need_save (directory_node 0 with_both)) (
        store_node 2 (need_save made) (
          store_node 0 (directory_node 0 with_both) (
            store_node 2 (record made { nil_links = true })
              (store_node 2 (new_node made.node.key [] 0 0)
                (record a_tree { next = 3; known = (made.node.key, 2) ∷ [] })))))))

mkdir_refused :
    make plain memory refusing (directory 0) 0 other (some made.node.key) 0 a_tree
    ≡ some (mkdir_refused_tree, eio)
unfolding mkdir create_locked_child allocate_node new_cell add_known save_child edit link with_link
    sync_at keys_of store_node set_cell sync save_content sync_saved sync_metadata save_metadata
    lookup bytes_eq delete insert is_stale_put
mkdir_refused = rw (serialize-metadata_bytes bare bare-IsSerializable)

make_lem_example : Leads a_tree mkdir_refused_tree 0 other none
make_lem_example =
    make_lem plain memory refusing (directory 0) 0 other made.node.key 0 a_tree mkdir_refused_tree
      eio refl mkdir_refused

abbrev renamed : TreeNode
renamed = record (directory_node 1 []) { name = other }

-- The child is refused, and nothing is undone.
abbrev rename_refused_tree : Tree plain memory refusing
rename_refused_tree = store_node 1 (refused renamed) (
    store_node 0 (need_save (directory_node 0 ((other, 1) ∷ []))) (
      store_node 0 (need_save (directory_node 0 ((other, 1) ∷ []))) (
        store_node 1 (need_save renamed) (
          store_node 0 (directory_node 0 ((other, 1) ∷ [])) (
            store_node 0 (directory_node 0 ((sub, 1) ∷ (other, 1) ∷ []))
              (store_node 1 renamed a_tree))))))

rename_refused :
    rename plain memory refusing 0 sub 1 0 other a_tree ≡ some (rename_refused_tree, eio)
unfolding rename sync_three edit link with_link sync_at keys_of store_node set_cell sync
    save_content sync_saved sync_metadata save_metadata lookup bytes_eq delete insert is_stale_put
rename_refused = rw (serialize-metadata_bytes bare bare-IsSerializable)

rename_lem_example : Moved a_tree rename_refused_tree 0 sub 1 0 other
rename_lem_example =
    rename_lem plain memory refusing 0 sub 1 0 other a_tree rename_refused_tree eio rename_refused
