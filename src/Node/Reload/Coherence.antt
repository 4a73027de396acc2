-- ===== src/Node/Reload/Coherence.antt =====
-- A node that another client has changed: it is invalidated and reloaded (pkg/node).
use crypt_fs.Prelude.{
  subst, ℕ, ◌<◌, ◌≡◌, refl, sym, ap, ◌∙◌, none, some, true, [], ◌∷◌, Bytes, arith, Assoc, lookup,
  insert, All, IsDistinct, IsApart-nil,
}
use crypt_fs.Storage.{Store, IsMap}
use crypt_fs.Storage.Versioned.{new_versioned_wrapper}
use crypt_fs.Storage.Versioned.Refinement.{Entries, Refines}
use crypt_fs.Node.Metadata.{Metadata}
use crypt_fs.Node.Metadata.Format.{metadata_bytes}
use crypt_fs.Node.Metadata.RoundTrip.{IsStored}
use crypt_fs.Node.File.{ok}
use crypt_fs.Node.Heap.{TreeNode, World, new_node, new_cell, existing_node, mode_not_loaded}
use crypt_fs.Node.Tree.{Tree}
use crypt_fs.Node.Tree.Entries.{child_of, entry}
use crypt_fs.Node.Reload.{add_children, merge_loaded, reload_if_needed}
use crypt_fs.Node.Reload.New.{loaded_node, fetched, load_metadata-new}
use crypt_fs.Node.Reload.Merge.{key_of, key_at, IsSeparate, IsNewTo, found, merge_loaded-keys}
use crypt_fs.Node.Reload.Load.{
  existing_node-next, existing_node-cells, fresh_links, fresh_links-IsNewTo, add_children-links,
  add_children-cells, add_children-keys,
}
use crypt_fs.Node.Reload.Returns.{Present, IsAlive, Returns, merge_loaded-Returns}
use crypt_fs.Node.Reload.Kept.{loaded_of, merge_loaded-loaded}

module _ {S : Type 0} where
  -- Pointers below the next one are all that names lead to.
  pub record IsClosed (w : World S) (p : ℕ) : Type 0 where
    pub node : p < w.next
    pub children : (j : Bytes) (c : ℕ) → entry w p j ≡ some c → c < w.next

module _ {S : Type 0} where
  -- The directory's names lead where they led while its new children are made.
  add_children-entry :
      (children : Assoc Bytes) (w : World S) (p : ℕ) (j : Bytes)
      → p < w.next
      → entry (add_children children [] w).1 p j ≡ entry w p j
  add_children-entry children w p j h =
      ap (λ c. child_of c j) (add_children-cells children [] w p h)

  -- The keys after new children are merged into a directory.
  merged-keys :
      (p : ℕ) (loaded : TreeNode) (children : Assoc Bytes) (w w' : World S) (j : Bytes)
      → IsClosed w p
      → IsSeparate w p
      → IsDistinct children
      → loaded.links ≡ (add_children children [] w).0
      → merge_loaded p loaded (add_children children [] w).1 ≡ some w'
      → key_at w' p j ≡ lookup j children
  merged-keys p loaded children w w' j closed sep distinct links e =
      let same = λ (i : Bytes). add_children-entry children w p i closed.node in
      let fresh : loaded.links ≡ fresh_links w.next children =
        links ∙ add_children-links children [] w distinct (IsApart-nil ℕ children) in
      let sep' : IsSeparate (add_children children [] w).1 p = record {
        apart = λ i k r hi hk. sep.apart i k r (sym (same i) ∙ hi) (sym (same k) ∙ hk);
      } in
      let new : IsNewTo (add_children children [] w).1 p loaded.links =
        subst (IsNewTo (add_children children [] w).1 p) (sym fresh) (
          fresh_links-IsNewTo (add_children children [] w).1 p w.next children distinct
            (λ i c h. closed.children i c (sym (same i) ∙ h))) in
      merge_loaded-keys p loaded (add_children children [] w).1 w' sep' new e j
      ∙ ap (λ l. found (λ c. key_of ((add_children children [] w).1.cells c)) (lookup j l) none)
          fresh
      ∙ add_children-keys children [] w j

  add_children-Present :
      (children : Assoc Bytes) (links : Assoc ℕ) (w : World S)
      → All (λ l. Present (add_children children links w).1 l.1) (fresh_links w.next children)
  unfolding add_children existing_node new_cell
  add_children-Present [] links w = tt
  add_children-Present ((name, key) ∷ children) links w =
      let w' = (existing_node name key w).1 in
      let n = existing_node-next name key w in
      let made : Present w' w.next = (
        new_node key name mode_not_loaded 0,
        existing_node-cells name key w w.next ∙ ground arith,
      ) in
      (
        (
          made.0,
          add_children-cells children (insert name w.next links) w' w.next (omega (arith, n))
              ∙ made.1,
        ),
        subst
            (λ k.
              All (λ l. Present (add_children children (insert name w.next links) w').1 l.1)
                (fresh_links k children))
            n (add_children-Present children (insert name w.next links) w'),
      )

  -- A directory is as alive as before when new nodes were made.
  add_children-IsAlive :
      (children : Assoc Bytes) (w : World S) (p : ℕ)
      → IsClosed w p
      → IsAlive w p
      → IsAlive (add_children children [] w).1 p
  add_children-IsAlive children w p closed a = record {
    self = a.self;
    at = add_children-cells children [] w p closed.node ∙ a.at;
    map = a.map;
    children = λ j c e.
        let e' = sym (add_children-entry children w p j closed.node) ∙ e in
        let (t, h) = a.children j c e' in
        (t, add_children-cells children [] w c (closed.children j c e') ∙ h);
  }

  -- The new children can be merged into a directory.
  add_children-merges :
      (children : Assoc Bytes) (w : World S) (p : ℕ) (loaded : TreeNode)
      → IsClosed w p
      → IsAlive w p
      → IsDistinct children
      → loaded.links ≡ (add_children children [] w).0
      → Returns
          (add_children children [] w).1
          p
          (merge_loaded p loaded (add_children children [] w).1)
  add_children-merges children w p loaded closed a distinct links =
      let fresh : loaded.links ≡ fresh_links w.next children =
        links ∙ add_children-links children [] w distinct (IsApart-nil ℕ children) in
      merge_loaded-Returns (add_children children [] w).1 p loaded
        (subst (All (λ l. Present (add_children children [] w).1 l.1)) (sym fresh)
          (add_children-Present children [] w))
        (add_children-IsAlive children w p closed a)

module _ (sum512 : Bytes → Bytes) (blobs ms : Store) (mm : IsMap ms) where
  -- What a reload makes of the node at a pointer.
  pub record Reloaded (w : Tree sum512 blobs (new_versioned_wrapper ms)) (p version : ℕ)
      (m : Metadata) : Type 0 where
    pub attributes : loaded_of (w.cells p) ≡ some (record m { children = [] }, version)
    pub children : (j : Bytes) → key_at w p j ≡ lookup j m.children

  -- The node's children from the metadata, in a world that has fetched them.
  abbrev reloaded : Bytes → ℕ → Metadata → Tree sum512 blobs (new_versioned_wrapper ms) → TreeNode
  reloaded key version m w = loaded_node [] key version m (add_children m.children [] w).0

  pub reload_lem :
      (p version : ℕ) (m : Metadata) (w : Tree sum512 blobs (new_versioned_wrapper ms))
      (a : Entries)
      → (alive : IsAlive w p) → alive.self.node.should_reload_metadata ≡ true
      → IsClosed w p
      → IsSeparate w p
      → IsStored m
      → Refines ms mm w.stores.1 a
      → a alive.self.node.key ≡ some (version, metadata_bytes m)
      → (w' : Tree sum512 blobs (new_versioned_wrapper ms)) × (reload_if_needed sum512 blobs
            (new_versioned_wrapper ms)
            p
            w
          ≡ some (w', ok))
        × Reloaded w' p version m
  unfolding reload_if_needed
  reload_lem p version m w a alive due closed sep h r held =
      let key = alive.self.node.key in
      let (st, loads, r') =
        load_metadata-new sum512 blobs ms mm [] key [] 0 0 version m w a h r held in
      let v = fetched sum512 blobs ms mm w st in
      let merged =
        add_children-merges m.children v p (reloaded key version m v)
          (record { node = closed.node; children = closed.children })
          (record { self = alive.self; at = alive.at; map = alive.map; children = alive.children })
          h.distinct_children refl in
      let done : reload_if_needed sum512 blobs (new_versioned_wrapper ms) p w
          ≡ some (merged.after, ok) =
        rw (alive.at, due, loads, merged.returned, reload_if_needed) in
      (
        merged.after,
        done,
        record {
          attributes =
              merge_loaded-loaded p (reloaded key version m v) (add_children m.children [] v).1
                merged.after merged.returned;
          children = λ j.
              merged-keys p (reloaded key version m v) m.children v merged.after j
                (record { node = closed.node; children = closed.children })
                (record { apart = sep.apart }) h.distinct_children refl merged.returned;
        },
      )
