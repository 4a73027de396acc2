-- ===== src/Node/Reload.antt =====
-- Loading and reloading nodes: LoadMetadata of pkg/node/metadata.go, and reloadIfNeeded and the
-- operations of pkg/node/node.go that look at nodes.
-- Times are not before 1970. `none` is a panic.
pub mod Child
pub mod Merge
pub mod Load
pub mod Kept
pub mod Returns
pub mod New
pub mod Coherence
pub mod Refresh
pub mod Known
use crypt_fs.Prelude.{
  ℕ, ◌+◌, ◌/◌, ◌^◌, Option, none, some, Bool, true, false, not, ◌&&◌, ◌||◌, List, [], ◌∷◌, Bytes,
  ◌==◌, bytes_eq, ◌>>=◌, if◌then◌else◌, Assoc, lookup, insert, delete, length, bit_and,
}
use mathlib.Core.Option
use crypt_fs.Storage.{Error, Store}
use crypt_fs.Storage.Versioned.{VersionedStore}
use crypt_fs.Storage.Blobs.{blob_get}
use crypt_fs.Node.File.{Errno, ok, eio, enoent, is_ok, CryptNode, Stores}
use crypt_fs.Node.Metadata.{Metadata, s_ifdir, unserialize}
use crypt_fs.Node.Heap.{
  TreeNode, Cells, World, new_node, store_node, existing_node, mark_for_reload, mode_not_loaded,
}
use crypt_fs.Node.Tree.{Tree, edit, link, s_ifreg, s_iflnk}

abbrev pub is_dir : Metadata → Bool
is_dir m = not (bit_and m.mode s_ifdir == 0)

pub record Attr : Type 0 where
  pub uid : ℕ
  pub gid : ℕ
  pub mode : ℕ
  pub time : ℕ
  pub size : ℕ

-- What is reported of a node; the time is in seconds.
abbrev pub attr_of : TreeNode → Attr
attr_of t = record {
  uid = t.node.metadata.user;
  gid = t.node.metadata.group;
  mode = t.node.metadata.mode;
  time = t.node.metadata.time / 10 ^ 9;
  size = length t.node.content;
}

-- The children that the loaded node has not are removed.
unfoldable pub prune_links : Assoc ℕ → Assoc ℕ → Assoc ℕ
prune_links loaded [] = []
prune_links loaded ((name, p) ∷ links) =
    let rest = prune_links loaded links in
    elim (lookup name loaded) [ none ↦ rest | some q ↦ (name, p) ∷ rest ]

-- What the node takes over from the loaded one.
abbrev pub take_over : TreeNode → TreeNode → TreeNode
take_over loaded t = record t {
  node = record t.node {
    should_save_metadata = false;
    should_reload_metadata = false;
    should_save_content = false;
    metadata = loaded.node.metadata;
    version = loaded.node.version;
    content =
        if bytes_eq t.node.metadata.content_key loaded.node.metadata.content_key
        then t.node.content
        else [];
    spare =
        if bytes_eq t.node.metadata.content_key loaded.node.metadata.content_key
        then t.node.spare
        else [];
  };
}

module _ {S : Type 0} where
  -- A new node for each child, in the map of children. A name that stands twice is read once.
  unfoldable pub add_children : Assoc Bytes → Assoc ℕ → World S → Assoc ℕ × World S
  unfolding existing_node
  add_children [] links w = (links, w)
  add_children ((name, key) ∷ children) links w =
      let (p, w') = existing_node name key w in add_children children (insert name p links) w'

  -- `unserialize` into a node, whose children it makes.
  unfoldable pub unserialize_node : TreeNode → Bytes → World S → Option (TreeNode × World S)
  unfolding add_children
  unserialize_node t b w = do
    m ← unserialize (record t.node.metadata { children = [] }) t.nil_links b
    let (links, w') = add_children m.children (if is_dir m then [] else t.links) w
    some (
      record t {
        node = record t.node { metadata = record m { children = [] } };
        links = links;
        nil_links = t.nil_links && not (is_dir m);
      },
      w',
    )

  -- A child that was kept, or one that is new.
  unfoldable pub keep_child : ℕ → ℕ → World S → Option (World S)
  unfolding store_node
  keep_child prev child w = do
    old ← w.cells prev
    new ← w.cells child
    some (
        if bytes_eq old.node.key new.node.key
        then w
        else store_node prev
            (mark_for_reload (record old { node = record old.node { key = new.node.key } })) w)

  unfoldable pub merge_child : ℕ → Bytes → ℕ → World S → Option (World S)
  unfolding keep_child edit link
  merge_child p name child w = do
    t ← w.cells p
    elim (lookup name t.links) [
      | some prev ↦ keep_child prev child w
      | none ↦ do w' ← edit child (λ c. record c { name = name }) w; link p name child w'
    ]

  unfoldable pub merge_children : ℕ → Assoc ℕ → World S → Option (World S)
  unfolding merge_child
  merge_children p [] w = some w
  merge_children p ((name, child) ∷ links) w = do
    w' ← merge_child p name child w
    merge_children p links w'

  unfoldable pub merge_loaded : ℕ → TreeNode → World S → Option (World S)
  unfolding edit merge_children prune_links
  merge_loaded p loaded w = do
    w₁ ← edit p (take_over loaded) w
    w₂ ← merge_children p loaded.links w₁
    edit p (λ t. record t { links = prune_links loaded.links t.links }) w₂

module _ (sum512 : Bytes → Bytes) (blobs : Store) (meta : VersionedStore) where
  -- A nil value has no bytes.
  unfoldable pub load_metadata :
      Bytes
      → TreeNode
      → Tree sum512 blobs meta
      → Option (Option Error × TreeNode × Tree sum512 blobs meta)
  unfolding unserialize_node
  load_metadata key t w = do
    (m, got) ← meta.get key w.stores.1
    let w₁ = record w { stores = (w.stores.0, m) }
    elim got.err [
      | some e ↦ some (some e, t, w₁)
      | none ↦ do
        (t', w₂) ←
            unserialize_node
              (record t { node = record t.node { key = key; version = got.version } })
              (Option.get_or got.value []) w₁
        some (none, t', w₂)
    ]

  unfoldable pub reload_if_needed :
      ℕ → Tree sum512 blobs meta → Option (Tree sum512 blobs meta × Errno)
  unfolding load_metadata merge_loaded
  reload_if_needed p w = do
    t ← w.cells p
    if not t.node.should_reload_metadata then some (w, ok) else (do
      (err, loaded, w₁) ← load_metadata t.node.key (new_node [] [] 0 0) w
      elim err [ some e ↦ some (w₁, eio) | none ↦ do w₂ ← merge_loaded p loaded w₁; some (w₂, ok) ])

  unfoldable pub ensure_child_loaded :
      ℕ → Tree sum512 blobs meta → Option (Tree sum512 blobs meta × Errno)
  unfolding load_metadata store_node
  ensure_child_loaded child w = do
    c ← w.cells child
    if not (c.node.metadata.mode == mode_not_loaded) then some (w, ok) else (do
      (err, c', w') ← load_metadata c.node.key c w
      elim err [ some e ↦ some (w', eio) | none ↦ some (store_node child c' w', ok) ])

  -- Content that is not to be saved, and not there, is fetched.
  unfoldable pub wants_content : CryptNode → Bool
  wants_content node =
      not node.should_save_content
      && not (bit_and node.metadata.mode s_ifreg == 0 && bit_and node.metadata.mode s_iflnk == 0)
      && not (length node.metadata.content_key == 0)
      && length node.content == 0

  unfoldable pub ensure_content_loaded :
      ℕ → Tree sum512 blobs meta → Option (Tree sum512 blobs meta × Errno)
  unfolding wants_content blob_get store_node
  ensure_content_loaded p w = do
    t ← w.cells p
    if not (wants_content t.node)
        then some (w, ok)
        else (let (b, got) = blob_get sum512 blobs t.node.metadata.content_key w.stores.0 in
            let w' = record w { stores = (b, w.stores.1) } in
            elim got.err [
              | some e ↦ some (w', eio)
              | none ↦ some (
                store_node p
                    (record t {
                      node = record t.node { content = Option.get_or got.value []; spare = [] };
                    })
                    w',
                ok,
              )
            ])

  -- Goes on where there is no error.
  abbrev pub and_then :
      (Tree sum512 blobs meta → Option (Tree sum512 blobs meta × Errno))
      → (Tree sum512 blobs meta → Option (Tree sum512 blobs meta × Errno))
      → Tree sum512 blobs meta
      → Option (Tree sum512 blobs meta × Errno)
  and_then f g w = do (w', errno) ← f w; if is_ok errno then g w' else some (w', errno)

  unfoldable pub open_node : ℕ → Tree sum512 blobs meta → Option (Tree sum512 blobs meta × Errno)
  unfolding reload_if_needed ensure_content_loaded
  open_node p = and_then (reload_if_needed p) (ensure_content_loaded p)

  unfoldable pub getattr :
      ℕ → Tree sum512 blobs meta → Option (Tree sum512 blobs meta × Errno × Option Attr)
  unfolding open_node
  getattr p w = do
    (w', errno) ← open_node p w
    if is_ok errno
        then (do t ← w'.cells p; some (w', ok, some (attr_of t)))
        else some (w', errno, none)

  -- The child that a name leads to, loaded, with its attributes.
  unfoldable pub lookup_child :
      ℕ → Tree sum512 blobs meta → Option (Tree sum512 blobs meta × Errno × Option (ℕ × Attr))
  unfolding ensure_child_loaded ensure_content_loaded
  lookup_child child w = do
    (w', errno) ← and_then (ensure_child_loaded child) (ensure_content_loaded child) w
    if is_ok errno
        then (do c ← w'.cells child; some (w', ok, some (child, attr_of c)))
        else some (w', errno, none)

  unfoldable pub lookup_name :
      ℕ
      → Bytes
      → Tree sum512 blobs meta
      → Option (Tree sum512 blobs meta × Errno × Option (ℕ × Attr))
  unfolding reload_if_needed lookup_child
  lookup_name p name w = do
    (w', errno) ← reload_if_needed p w
    if not (is_ok errno) then some (w', errno, none) else (do
      t ← w'.cells p
      elim (lookup name t.links) [
        | none ↦ some (w', enoent, none)
        | some child ↦ lookup_child child w'
      ])

  unfoldable pub ensure_all_loaded :
      Assoc ℕ → Tree sum512 blobs meta → Option (Tree sum512 blobs meta × Errno)
  unfolding ensure_child_loaded
  ensure_all_loaded [] w = some (w, ok)
  ensure_all_loaded ((name, child) ∷ links) w =
      and_then (ensure_child_loaded child) (ensure_all_loaded links) w

  unfoldable pub opendir : ℕ → Tree sum512 blobs meta → Option (Tree sum512 blobs meta × Errno)
  unfolding reload_if_needed ensure_all_loaded
  opendir p w =
      and_then (reload_if_needed p) (λ w'. do t ← w'.cells p; ensure_all_loaded t.links w') w
