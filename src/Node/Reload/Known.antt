-- ===== src/Node/Reload/Known.antt =====
-- A known node of any kind that another client has changed (pkg/node).
use crypt_fs.Prelude.{
  ℕ, ◌<◌, ◌≡◌, refl, sym, ap, ◌∙◌, Assoc, some, true, [], Bytes, arith, lookup, length, ◌>>=◌,
}
use crypt_fs.Storage.{Store, IsMap}
use crypt_fs.Storage.Versioned.{new_versioned_wrapper}
use crypt_fs.Storage.Versioned.Refinement.{Entries, Refines}
use crypt_fs.Message.{new_put_message}
use crypt_fs.Node.Metadata.{Metadata, node_key_len}
use crypt_fs.Node.Metadata.Format.{metadata_bytes}
use crypt_fs.Node.Metadata.RoundTrip.{IsStored}
use crypt_fs.Node.File.{ok}
use crypt_fs.Node.Heap.{TreeNode, World, set_cell, store_node, mark_for_reload, invalidate_cache}
use crypt_fs.Node.Tree.{Tree, edit}
use crypt_fs.Node.Reload.{
  add_children, take_over, merge_children, merge_loaded, prune_links, reload_if_needed,
}
use crypt_fs.Node.Reload.Child.{key_of}
use crypt_fs.Node.Tree.Entries.{child_of}
use crypt_fs.Node.Reload.Merge.{IsSeparate}
use crypt_fs.Node.Reload.Kept.{loaded_of}
use crypt_fs.Node.Reload.Returns.{IsAlive}
use crypt_fs.Node.Reload.New.{loaded_node, fetched, load_metadata-new}
use crypt_fs.Node.Reload.Coherence.{IsClosed, Reloaded}
use crypt_fs.Node.Reload.Refresh.{invalidate_cache-newer, refresh_lem}

prune_links-none : (loaded links : Assoc ℕ) → links ≡ [] → prune_links loaded links ≡ []
unfolding prune_links
prune_links-none loaded links e = rw e refl

-- A leaf after it has taken over.
abbrev leaf_after : TreeNode → TreeNode → TreeNode
leaf_after loaded t = record (take_over loaded t) { links = [] }

module _ {S : Type 0} where
  -- A node that can take the metadata over: a directory that was loaded, or a node without children
  -- whose metadata has none, as every file and symbolic link.
  pub data IsReady (w : World S) (p : ℕ) (t : TreeNode) (m : Metadata) : Type 0 where
    directory :
        (alive : IsAlive w p) → alive.self ≡ t → IsClosed w p → IsSeparate w p → IsReady w p t m
    leaf : w.cells p ≡ some t → t.links ≡ [] → m.children ≡ [] → IsReady w p t m

  store_node_self : (p : ℕ) (t : TreeNode) (w : World S) → (store_node p t w).cells p ≡ some t
  unfolding store_node set_cell
  store_node_self p t w = ground arith

  edit-some :
      (p : ℕ) (f : TreeNode → TreeNode) (w : World S) (t : TreeNode)
      → w.cells p ≡ some t
      → edit p f w ≡ some (store_node p (f t) w)
  unfolding edit
  edit-some p f w t at = rw at refl

  merge_children-none :
      (p : ℕ) (links : Assoc ℕ) (w : World S) → links ≡ [] → merge_children p links w ≡ some w
  unfolding merge_children
  merge_children-none p links w e = rw e refl

  add_children-none :
      (children : Assoc Bytes) (w : World S) → children ≡ [] → add_children children [] w ≡ ([], w)
  unfolding add_children
  add_children-none children w e = rw e refl

  merge_loaded-leaf :
      (p : ℕ) (loaded t : TreeNode) (w : World S)
      → w.cells p ≡ some t
      → t.links ≡ []
      → loaded.links ≡ []
      → (w' : World S) × (merge_loaded p loaded w ≡ some w')
        × (w'.cells p ≡ some (leaf_after loaded t))
  unfolding merge_loaded
  merge_loaded-leaf p loaded t w at no_links none_loaded =
      let w₁ = store_node p (take_over loaded t) w in
      let at₁ = store_node_self p (take_over loaded t) w in
      let pruned = λ (u : TreeNode). record u { links = prune_links loaded.links u.links } in
      (
        store_node p (pruned (take_over loaded t)) w₁,
        rw
            (
              merge_loaded,
              edit-some p (take_over loaded) w t at,
              merge_children-none p loaded.links w₁ none_loaded,
            )
            (edit-some p pruned w₁ (take_over loaded t) at₁),
        store_node_self p (pruned (take_over loaded t)) w₁
            ∙ ap (λ l. some (record (take_over loaded t) { links = l }))
                (prune_links-none loaded.links t.links no_links),
      )

module _ (sum512 : Bytes → Bytes) (blobs ms : Store) (mm : IsMap ms) where
  reload-leaf :
      (p version : ℕ) (m : Metadata) (w : Tree sum512 blobs (new_versioned_wrapper ms))
      (a : Entries) (t : TreeNode)
      → w.cells p ≡ some t
      → t.links ≡ []
      → m.children ≡ []
      → t.node.should_reload_metadata ≡ true
      → IsStored m
      → Refines ms mm w.stores.1 a
      → a t.node.key ≡ some (version, metadata_bytes m)
      → (w' : Tree sum512 blobs (new_versioned_wrapper ms)) × (reload_if_needed sum512 blobs
            (new_versioned_wrapper ms)
            p
            w
          ≡ some (w', ok))
        × Reloaded sum512 blobs ms mm w' p version m
  unfolding reload_if_needed lookup
  reload-leaf p version m w a t at no_links no_children due h r held =
      let (st, loads, r') =
        load_metadata-new sum512 blobs ms mm [] t.node.key [] 0 0 version m w a h r held in
      let v = fetched sum512 blobs ms mm w st in
      let made = add_children-none m.children v no_children in
      let loaded = loaded_node [] t.node.key version m (add_children m.children [] v).0 in
      let (w', merged, after) =
        merge_loaded-leaf p loaded t (add_children m.children [] v).1
          (ap (λ x. x.1.cells p) made ∙ at) no_links (ap (λ x. x.0) made) in
      (
        w',
        rw (at, due, loads, merged, reload_if_needed) refl,
        record {
          attributes = ap loaded_of after;
          children = λ j.
              ap (λ c. child_of c j >>= λ q. key_of (w'.cells q)) after
              ∙ sym (ap (λ l. lookup j l) no_children);
        },
      )

  -- A put of a newer version of a node, told by another client's message, reaches the node that the
  -- factory knows by the 20-byte key: invalidate_cache returns, the reload that follows returns no
  -- error, and afterwards the node has the attributes and the version that the metadata server holds,
  -- and exactly its children, each leading to a node with the child's key. The node is a directory
  -- that was loaded, whose children are there, below the next pointer, with no two names that lead to
  -- one of them, or a node of any kind without children, whose stored metadata has none. The stored
  -- metadata is well formed, and the server is a wrapper over a store that is a map.
  pub known_lem :
      (p tag version : ℕ) (key value : Bytes) (m : Metadata)
      (w : Tree sum512 blobs (new_versioned_wrapper ms)) (a : Entries) (t : TreeNode)
      → IsReady w p t m
      → length key ≡ node_key_len
      → lookup key w.known ≡ some p
      → t.node.key ≡ key
      → t.node.version < version
      → IsStored m
      → Refines ms mm w.stores.1 a
      → a key ≡ some (version, metadata_bytes m)
      → (v : Tree sum512 blobs (new_versioned_wrapper ms)) × (w' : Tree sum512 blobs
          (new_versioned_wrapper ms))
        × (invalidate_cache (new_put_message tag key value version) w ≡ some v)
        × (reload_if_needed sum512 blobs (new_versioned_wrapper ms) p v ≡ some (w', ok))
        × Reloaded sum512 blobs ms mm w' p version m
  unfolding store_node
  known_lem p tag version key value m w a t (directory alive same closed sep) size known is_key
        newer h r held =
      refresh_lem sum512 blobs ms mm p tag version key value m w a alive closed sep size known
        (ap (λ x. x.node.key) same ∙ is_key)
        (let v = ap (λ x. x.node.version) same in omega (arith, v, newer)) h r held
  known_lem p tag version key value m w a t (leaf at no_links no_children) size known is_key newer h
        r held =
      let v = store_node p (mark_for_reload t) w in
      let (w', done, reloaded) =
        reload-leaf p version m v a (mark_for_reload t) (store_node_self p (mark_for_reload t) w)
          no_links no_children refl h r (ap a is_key ∙ held) in
      (
        v,
        w',
        invalidate_cache-newer tag version p key value w t size known at newer,
        done,
        reloaded,
      )
