-- ===== src/Node/Reload/Refresh.antt =====
-- A node that another client has changed: it is invalidated and reloaded (pkg/node).
use crypt_fs.Prelude.{
  ℕ, ◌<◌, ◌≡◌, inl, refl, sym, ap, ◌∙◌, none, some, false, Bytes, arith, lookup, length, leb,
}
use crypt_fs.Storage.{Store, IsMap}
use crypt_fs.Storage.Versioned.{new_versioned_wrapper}
use crypt_fs.Storage.Versioned.Refinement.{Entries, Refines}
use crypt_fs.Message.{Message, get_key, get_version, new_put_message}
use crypt_fs.Node.Metadata.{Metadata, node_key_len, to_node_key}
use crypt_fs.Node.Metadata.Loops.{to_node_key_lem}
use crypt_fs.Node.Metadata.Format.{metadata_bytes}
use crypt_fs.Node.Metadata.RoundTrip.{IsStored}
use crypt_fs.Node.File.{ok}
use crypt_fs.Node.Heap.{
  TreeNode, World, set_cell, store_node, mark_for_reload, get_known, invalidate_known,
  invalidate_key, invalidate_cache,
}
use crypt_fs.Node.Tree.{Tree}
use crypt_fs.Node.Tree.Entries.{entry-store_node, SameEntries}
use crypt_fs.Node.Reload.{reload_if_needed}
use crypt_fs.Node.Reload.Merge.{IsSeparate}
use crypt_fs.Node.Reload.Returns.{IsAlive, store_node-IsAlive}
use crypt_fs.Node.Reload.Coherence.{IsClosed, Reloaded, reload_lem}

module _ {S : Type 0} where
  invalidate_known-newer :
      (version p : ℕ) (w : World S) (t : TreeNode)
      → w.cells p ≡ some t
      → t.node.version < version
      → invalidate_known version p w ≡ some (store_node p (mark_for_reload t) w)
  unfolding invalidate_known
  invalidate_known-newer version p w t h newer =
      let above : leb version t.node.version ≡ false = ground arith in rw (h, above)

  invalidate_key-newer :
      (key : Bytes) (mutation : Message) (version p : ℕ) (w : World S) (t : TreeNode)
      → length key ≡ node_key_len
      → lookup key w.known ≡ some p
      → get_version mutation ≡ some version
      → w.cells p ≡ some t
      → t.node.version < version
      → invalidate_key key mutation w ≡ some (store_node p (mark_for_reload t) w)
  unfolding invalidate_key get_known
  invalidate_key-newer key mutation version p w t size known says h newer =
      let found : lookup (to_node_key key) w.known ≡ some p =
        ap (λ k. lookup k w.known) (to_node_key_lem key size) ∙ known in
      rw (invalidate_key, found, says) (invalidate_known-newer version p w t h newer)

  -- The message of a newer put marks the node that is known by its key.
  pub invalidate_cache-newer :
      (tag version p : ℕ) (key value : Bytes) (w : World S) (t : TreeNode)
      → length key ≡ node_key_len
      → lookup key w.known ≡ some p
      → w.cells p ≡ some t
      → t.node.version < version
      → invalidate_cache (new_put_message tag key value version) w
        ≡ some (store_node p (mark_for_reload t) w)
  unfolding invalidate_cache get_key get_version new_put_message
  invalidate_cache-newer tag version p key value w t size known h newer = rw size (
      invalidate_key-newer key (new_put_message tag key value version) version p w t size known refl
        h newer)

  marked-entries :
      (p : ℕ) (w : World S) (t : TreeNode)
      → w.cells p ≡ some t
      → SameEntries w (store_node p (mark_for_reload t) w)
  marked-entries p w t h = record {
    at = λ q j. entry-store_node p q t (mark_for_reload t) w j false none h refl ∙ ground arith;
  }

module _ (sum512 : Bytes → Bytes) (blobs ms : Store) (mm : IsMap ms) where
  -- A put of a newer version of a node, told by another client's message, reaches the node that the
  -- factory knows by the 20-byte key: invalidate_cache returns, the reload that follows returns no
  -- error, and afterwards the node has the attributes and the version that the metadata server holds,
  -- and exactly its children, each leading to a node with the child's key. The node and its children
  -- are there, below the next pointer, no two of its names lead to the same child, the stored
  -- metadata is well formed, and the server is a wrapper over a store that is a map.
  pub refresh_lem :
      (p tag version : ℕ) (key value : Bytes) (m : Metadata)
      (w : Tree sum512 blobs (new_versioned_wrapper ms)) (a : Entries)
      → (alive : IsAlive w p) → IsClosed w p
      → IsSeparate w p
      → length key ≡ node_key_len
      → lookup key w.known ≡ some p
      → alive.self.node.key ≡ key
      → alive.self.node.version < version
      → IsStored m
      → Refines ms mm w.stores.1 a
      → a key ≡ some (version, metadata_bytes m)
      → (v : Tree sum512 blobs (new_versioned_wrapper ms)) × (w' : Tree sum512 blobs
          (new_versioned_wrapper ms))
        × (invalidate_cache (new_put_message tag key value version) w ≡ some v)
        × (reload_if_needed sum512 blobs (new_versioned_wrapper ms) p v ≡ some (w', ok))
        × Reloaded sum512 blobs ms mm w' p version m
  unfolding store_node set_cell
  refresh_lem p tag version key value m w a alive closed sep size known is_key newer h r held =
      let t = alive.self in
      let v = store_node p (mark_for_reload t) w in
      let same = marked-entries p w t alive.at in
      let (w', done, reloaded) =
        reload_lem sum512 blobs ms mm p version m v a
          (record {
            self = mark_for_reload t;
            at = ground arith;
            map = alive.map;
            children =
                (store_node-IsAlive w p p t (mark_for_reload t) alive.at refl (λ j c e. inl e)
                  alive).children;
          })
          refl
          (record {
            node = closed.node;
            children = λ j c e. closed.children j c (sym (same.at p j) ∙ e);
          })
          (record {
            apart =
                λ i j q hi hj. sep.apart i j q (sym (same.at p i) ∙ hi) (sym (same.at p j) ∙ hj);
          })
          h r (ap a is_key ∙ held) in
      (
        v,
        w',
        invalidate_cache-newer tag version p key value w t size known alive.at newer,
        done,
        reloaded,
      )
