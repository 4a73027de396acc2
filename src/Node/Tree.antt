-- ===== src/Node/Tree.antt =====
-- pkg/node/node.go: the operations on directories, over the heap of nodes.
-- An operation that returns an error leaves what it has written before in the heap. `none` is a panic:
-- a nil pointer, or an assignment to a nil map.
pub mod Entries
pub mod Atomic
pub mod Create
pub mod Rename
use crypt_fs.Prelude.{
  ℕ, ◌+◌, Option, none, some, Bool, true, false, not, ◌&&◌, List, [], ◌∷◌, Bytes, ◌==◌, ◌>>=◌,
  if◌then◌else◌, Assoc, lookup, insert, delete, length, bit_or,
}
use crypt_fs.Storage.{Store}
use crypt_fs.Storage.Versioned.{VersionedStore}
use crypt_fs.Node.File.{Errno, ok, eio, enoent, enotempty, is_ok, CryptNode, Stores, sync}
use crypt_fs.Node.Metadata.{Metadata, s_ifdir}
use crypt_fs.Node.Heap.{TreeNode, Cells, World, new_node, store_node, allocate_node}

-- fuse.S_IFREG and fuse.S_IFLNK
abbrev pub s_ifreg : ℕ
s_ifreg = 0x8000

abbrev pub s_iflnk : ℕ
s_iflnk = 0xa000

-- The keys of the children, which `serialize` writes.
unfoldable pub keys_of : Cells → Assoc ℕ → Option (Assoc Bytes)
keys_of cells [] = some []
keys_of cells ((name, p) ∷ links) = do
  child ← cells p
  rest ← keys_of cells links
  some ((name, child.node.key) ∷ rest)

abbrev pub need_save : TreeNode → TreeNode
need_save t = record t { node = record t.node { should_save_metadata = true } }

-- delete(node.Children, name)
abbrev pub without_link : Bytes → TreeNode → TreeNode
without_link name t = record t { links = delete name t.links }

-- node.Children[name] = child
unfoldable pub with_link : Bytes → ℕ → TreeNode → Option TreeNode
with_link name child t =
    if t.nil_links then none else some (record t { links = insert name child t.links })

module _ {S : Type 0} where
  -- A change of the node at a pointer.
  unfoldable pub edit : ℕ → (TreeNode → TreeNode) → World S → Option (World S)
  unfolding store_node
  edit p f w = do t ← w.cells p; some (store_node p (f t) w)

  unfoldable pub link : ℕ → Bytes → ℕ → World S → Option (World S)
  unfolding store_node with_link
  link p name child w = do t ← w.cells p; t' ← with_link name child t; some (store_node p t' w)

module _ (sum512 : Bytes → Bytes) (blobs : Store) (meta : VersionedStore) where
  abbrev pub Tree : Type 0
  Tree = World (Stores sum512 blobs meta)

  -- node.sync() at a pointer.
  unfoldable pub sync_at : ℕ → Tree → Option (Tree × Errno)
  unfolding store_node
  sync_at p w = do
    t ← w.cells p
    children ← keys_of w.cells t.links
    (node, stores, errno) ←
        sync sum512 blobs meta
          (record t.node { metadata = record t.node.metadata { children = children } }) w.stores
    some (record (store_node p (record t { node = node }) w) { stores = stores }, errno)

  unfoldable pub remove_empty : ℕ → Bytes → ℕ → Tree → Option (Tree × Errno)
  unfolding edit link sync_at
  remove_empty p name child w = do
    w₁ ← edit p (λ t. need_save (without_link name t)) w
    (w₂, errno) ← sync_at p w₁
    if is_ok errno then some (w₂, errno) else (do w₃ ← link p name child w₂; some (w₃, errno))

  unfoldable pub rmdir : ℕ → Bytes → Tree → Option (Tree × Errno)
  unfolding remove_empty
  rmdir p name w = do
    t ← w.cells p
    elim (lookup name t.links) [
      | none ↦ some (w, enoent)
      | some child ↦ do
        c ← w.cells child
        if length c.links == 0 then remove_empty p name child w else some (w, enotempty)
    ]

  -- The node's name, mode and place in the directory. `mode` has the type's bit.
  unfoldable pub create_locked_child :
      ℕ → Bytes → ℕ → Option Bytes → ℕ → Tree → Option (Option ℕ × Tree)
  unfolding edit link allocate_node
  create_locked_child p name mode random now w = elim (allocate_node random now w) [
    | none ↦ some (none, w)
    | some (child, w₁) ↦ do
      w₂ ←
          edit child
            (λ t. record t {
              name = name;
              node = record t.node { metadata = record t.node.metadata { mode = mode } };
            })
            w₁
      w₃ ← link p name child w₂
      some (some child, w₃)
  ]

  -- Saves the directory, after its new child was saved, and takes the child out if that fails.
  unfoldable pub save_parent : ℕ → Bytes → Tree → Option (Tree × Errno)
  unfolding edit sync_at
  save_parent p name w = do
    (w₁, errno) ← sync_at p w
    if is_ok errno
        then some (w₁, errno)
        else (do w₂ ← edit p (without_link name) w₁; some (w₂, errno))

  unfoldable pub save_child : ℕ → Bytes → ℕ → (Tree → Option Tree) → Tree → Option (Tree × Errno)
  unfolding edit sync_at save_parent
  save_child p name child between w = do
    (w₁, errno) ← sync_at child w
    if is_ok errno
        then (do w₂ ← between w₁; save_parent p name w₂)
        else (do w₂ ← edit p (without_link name) w₁; some (w₂, errno))

  unfoldable pub create : ℕ → Bytes → ℕ → Option Bytes → ℕ → Tree → Option (Tree × Errno)
  unfolding create_locked_child edit save_child
  create p name mode random now w = do
    (made, w₁) ← create_locked_child p name (bit_or mode s_ifreg) random now w
    elim made [
      | none ↦ some (w₁, eio)
      | some child ↦ do
        w₂ ← edit child need_save w₁
        save_child p name child (λ w'. edit p need_save w') w₂
    ]

  -- The child's new map takes the place of a nil one.
  unfoldable pub mkdir : ℕ → Bytes → ℕ → Option Bytes → ℕ → Tree → Option (Tree × Errno)
  unfolding create_locked_child edit save_child
  mkdir p name mode random now w = do
    (made, w₁) ← create_locked_child p name (bit_or mode s_ifdir) random now w
    elim made [
      | none ↦ some (w₁, eio)
      | some child ↦ do
        w₂ ← edit child (λ t. need_save (record t { nil_links = false })) w₁
        w₃ ← edit p need_save w₂
        save_child p name child some w₃
    ]

  unfoldable pub symlink : ℕ → Bytes → Bytes → Option Bytes → ℕ → Tree → Option (Tree × Errno)
  unfolding create_locked_child edit save_child
  symlink p target name random now w = do
    (made, w₁) ← create_locked_child p name s_iflnk random now w
    elim made [
      | none ↦ some (w₁, eio)
      | some child ↦ do
        w₂ ←
            edit child
              (λ t. need_save (record t {
                node = record t.node { should_save_content = true; content = target; spare = [] };
              }))
              w₁
        w₃ ← edit p need_save w₂
        save_child p name child some w₃
    ]

  -- The first error of the three ends it.
  unfoldable pub sync_three : ℕ → ℕ → ℕ → Tree → Option (Tree × Errno)
  unfolding sync_at
  sync_three child q p w = do
    (w₁, e₁) ← sync_at child w
    if not (is_ok e₁)
        then some (w₁, e₁)
        else (do (w₂, e₂) ← sync_at q w₁; if not (is_ok e₂) then some (w₂, e₂) else sync_at p w₂)

  -- Moves the child that go-fuse knows under the name, from the node at `p` to that at `q`, which may
  -- be the same.
  unfoldable pub rename : ℕ → Bytes → ℕ → ℕ → Bytes → Tree → Option (Tree × Errno)
  unfolding edit link sync_three
  rename p name child q new_name w = do
    w₁ ← edit child (λ t. record t { name = new_name }) w
    w₂ ← link q new_name child w₁
    w₃ ← edit p (without_link name) w₂
    w₄ ← edit child need_save w₃
    w₅ ← edit q need_save w₄
    w₆ ← edit p need_save w₅
    sync_three child q p w₆
