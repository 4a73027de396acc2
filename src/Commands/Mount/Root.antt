-- ===== src/Commands/Mount/Root.antt =====
-- What the root is that cmd/mount.go mounts.
use crypt_fs.Prelude.{
  subst, ℕ, suc, ◌<◌, ◌≡◌, inl, inr, refl, sym, ap, ◌∙◌, Option, none, some, true, false, not,
  Bool-cases, Option-cases, [], ◌∷◌, Bytes, bytes_eq, arith, Assoc, lookup, insert, ◌==◌,
  IsApart-nil,
}
use crypt_fs.Storage.{Error, Store, IsMap, is_not_found}
use crypt_fs.Storage.Versioned.{Versioned, VersionedStore, new_versioned_wrapper}
use crypt_fs.Storage.Versioned.Refinement.{Entries, Refines, wrapper_get-Refines}
use crypt_fs.Node.Metadata.{Metadata}
use crypt_fs.Node.Metadata.Format.{metadata_bytes}
use crypt_fs.Node.Metadata.RoundTrip.{IsStored}
use crypt_fs.Node.Heap.{
  TreeNode, World, new_node, existing_node, store_node, set_cell, new_cell, add_known,
  mode_not_loaded,
}
use crypt_fs.Node.Tree.{Tree}
use crypt_fs.Node.Tree.Entries.{child_of, entry}
use crypt_fs.Node.Reload.{add_children, is_dir, load_metadata}
use crypt_fs.Node.Reload.Child.{key_of, key_at}
use crypt_fs.Node.Reload.Merge.{found}
use crypt_fs.Node.Reload.Load.{
  existing_node-next, existing_node-cells, fresh_links, add_children-links, add_children-keys,
}
use crypt_fs.Node.Reload.New.{loaded_node, fetched, load_metadata-new}
use crypt_fs.Commands.Mount.{mounts, root_name, root_key, empty_root, root_found, load_root}

fresh_links-above :
    (n p : ℕ) (children : Assoc Bytes) (j : Bytes) (c : ℕ)
    → p < n
    → lookup j (fresh_links n children) ≡ some c
    → (p == c) ≡ false
unfolding lookup
fresh_links-above n p [] j c h e = cc
fresh_links-above n p ((name, key) ∷ children) j c h e = elim (Bool-cases (bytes_eq name j)) [
  | inl same ↦
      let leads : some n ≡ some c = rw same at e in let here : n ≡ c = cc in ground (arith, h, here)
  | inr other ↦ fresh_links-above (suc n) p children j c (omega (arith, h)) (rw other at e)
]

-- What the metadata server holds for the root.
abbrev pub held_for : Option (ℕ × Metadata) → Option (ℕ × Bytes)
held_for none = none
held_for (some (version, m)) = some (version, metadata_bytes m)

abbrev pub IsSaved : Option (ℕ × Metadata) → Type 0
IsSaved none = Unit {0}
IsSaved (some (version, m)) = IsStored m

module _ {S : Type 0} where
  -- The root is loaded: its attributes are those that are stored, and each name leads to a child
  -- with the key that is stored.
  pub record Rooted (w : World S) (p version : ℕ) (m : Metadata) : Type 0 where
    pub root : TreeNode
    pub at : w.cells p ≡ some root
    pub version_of : root.node.version ≡ version
    pub attributes : root.node.metadata ≡ record m { children = [] }
    pub map : root.nil_links ≡ not (is_dir m)
    pub keys : (j : Bytes) → key_at w p j ≡ lookup j m.children

  -- The root of a new file system: an empty directory whose mode is still that of a node that is
  -- not loaded.
  pub record Unrooted (w : World S) (p : ℕ) : Type 0 where
    pub root : TreeNode
    pub at : w.cells p ≡ some root
    pub mode : root.node.metadata.mode ≡ mode_not_loaded
    pub version_of : root.node.version ≡ 0
    pub map : root.nil_links ≡ false
    pub empty : (j : Bytes) → entry w p j ≡ none

  existing_node-stores :
      (name key : Bytes) (w : World S) → (existing_node name key w).1.stores ≡ w.stores
  unfolding existing_node new_cell add_known store_node
  existing_node-stores name key w = ground arith

  add_children-stores :
      (children : Assoc Bytes) (links : Assoc ℕ) (w : World S)
      → (add_children children links w).1.stores ≡ w.stores
  unfolding add_children
  add_children-stores [] links w = refl
  add_children-stores ((name, key) ∷ children) links w =
      add_children-stores children (insert name (existing_node name key w).0 links)
        (existing_node name key w).1
      ∙ existing_node-stores name key w

  -- A node is read where it was made.
  existing_node_self :
      (name key : Bytes) (w : World S)
      → (existing_node name key w).1.cells w.next ≡ some (new_node key name mode_not_loaded 0)
  existing_node_self name key w = existing_node-cells name key w w.next ∙ ground arith

  store_node_self : (p : ℕ) (t : TreeNode) (w : World S) → (store_node p t w).cells p ≡ some t
  unfolding store_node set_cell
  store_node_self p t w = ground arith

  -- The root by what the metadata server holds for it.
  abbrev pub RootOf : World S → ℕ → Option (ℕ × Metadata) → Type 0
  RootOf w p none = Unrooted w p
  RootOf w p (some (version, m)) = Rooted w p version m

  store_node-keys :
      (p n : ℕ) (t : TreeNode) (children : Assoc Bytes) (w : World S) (j : Bytes)
      → p < n
      → t.links ≡ fresh_links n children
      → key_at (store_node p t w) p j
        ≡ found (λ c. key_of (w.cells c)) (lookup j (fresh_links n children)) none
  unfolding store_node set_cell
  store_node-keys p n t children w j h e = elim (Option-cases (lookup j (fresh_links n children))) [
    | inl missing ↦ let self : (p == p) ≡ true = ground arith in rw (self, e, missing)
    | inr (c, leads) ↦
        let self : (p == p) ≡ true = ground arith in
        let other = fresh_links-above n p children j c h leads in rw (self, e, leads, other)
  ]

  root_found-missing :
      (p : ℕ) (t : TreeNode) (err : Error) (w : World S)
      → is_not_found err ≡ true
      → root_found p (some err) t w ≡ mounts p (store_node p (empty_root t) w)
  unfolding root_found
  root_found-missing p t err w h = rw h

module _ (sum512 : Bytes → Bytes) (blobs : Store) (meta : VersionedStore) where
  load_metadata-failed :
      (key : Bytes) (t : TreeNode) (w : Tree sum512 blobs meta) (st : meta.State) (got : Versioned)
      (err : Error)
      → meta.get key w.stores.1 ≡ some (st, got)
      → got.err ≡ some err
      → load_metadata sum512 blobs meta key t w
        ≡ some (some err, t, record w { stores = (w.stores.0, st) })
  unfolding load_metadata
  load_metadata-failed key t w st got err done failed = rw done (rw failed refl)

module _ (sum512 : Bytes → Bytes) (blobs ms : Store) (mm : IsMap ms) where
  -- A root that is stored.
  load_root-stored :
      (version : ℕ) (m : Metadata) (w : Tree sum512 blobs (new_versioned_wrapper ms)) (a : Entries)
      → IsStored m
      → Refines ms mm w.stores.1 a
      → a root_key ≡ some (version, metadata_bytes m)
      → (w' : Tree sum512 blobs (new_versioned_wrapper ms)) × (load_root sum512 blobs
            (new_versioned_wrapper ms)
            w
          ≡ some (mounts w.next w'))
        × Rooted w' w.next version m
        × Refines ms mm w'.stores.1 a
  unfolding load_root
  load_root-stored version m w a h r held =
      let w₁ = (existing_node root_name root_key w).1 in
      let r₁ =
        subst (λ x. Refines ms mm x.1 a) (sym (existing_node-stores root_name root_key w)) r in
      let (st, done, r') =
        load_metadata-new sum512 blobs ms mm root_name root_key root_key mode_not_loaded 0 version m
          w₁ a h r₁ held in
      let w₂ = fetched sum512 blobs ms mm w₁ st in
      let t = loaded_node root_name root_key version m (add_children m.children [] w₂).0 in
      let low : w.next < w₁.next =
        let n = existing_node-next root_name root_key w in omega (arith, n) in
      let w₃ = (add_children m.children [] w₂).1 in
      (
        store_node w.next t w₃,
        rw (existing_node_self root_name root_key w, done) refl,
        record {
          root = t;
          at = store_node_self w.next t w₃;
          version_of = refl;
          attributes = refl;
          map = refl;
          keys = λ j.
              store_node-keys w.next w₂.next t m.children w₃ j low
                (add_children-links m.children [] w₂ h.distinct_children (IsApart-nil ℕ m.children))
              ∙ add_children-keys m.children [] w₂ j;
        },
        subst (λ x. Refines ms mm x.1 a) (sym (add_children-stores m.children [] w₂)) r',
      )

  -- A root that is not stored.
  load_root-missing :
      (w : Tree sum512 blobs (new_versioned_wrapper ms)) (a : Entries)
      → Refines ms mm w.stores.1 a
      → a root_key ≡ none
      → (w' : Tree sum512 blobs (new_versioned_wrapper ms)) × (load_root sum512 blobs
            (new_versioned_wrapper ms)
            w
          ≡ some (mounts w.next w'))
        × Unrooted w' w.next
        × Refines ms mm w'.stores.1 a
  unfolding load_root empty_root lookup
  load_root-missing w a r held =
      let w₁ = (existing_node root_name root_key w).1 in
      let r₁ =
        subst (λ x. Refines ms mm x.1 a) (sym (existing_node-stores root_name root_key w)) r in
      let (st, got, done, reports, r') = wrapper_get-Refines ms mm root_key w₁.stores.1 a r₁ in
      let (err, failed, absent) = rw held at reports in
      let w₂ = fetched sum512 blobs ms mm w₁ st in
      let t = empty_root (new_node root_key root_name mode_not_loaded 0) in
      (
        store_node w.next t w₂,
        rw
            (
              existing_node_self root_name root_key w,
              load_metadata-failed sum512 blobs (new_versioned_wrapper ms) root_key
                  (new_node root_key root_name mode_not_loaded 0) w₁ st got err done failed,
              root_found-missing w.next (new_node root_key root_name mode_not_loaded 0) err w₂
                  absent,
            )
            refl,
        record {
          root = t;
          at = store_node_self w.next t w₂;
          mode = refl;
          version_of = refl;
          map = refl;
          empty = λ j. ap (λ c. child_of c j) (store_node_self w.next t w₂);
        },
        r',
      )

  -- Loading the root from a versioned map of metadata does not end the command and keeps the map. A
  -- root that the map holds has the attributes and the version that are stored, and each of its names
  -- leads to a child with the key that is stored. Without one the root is an empty directory at
  -- version 0 whose mode is that of a node that is not loaded.
  pub load_root_lem :
      (root : Option (ℕ × Metadata)) (w : Tree sum512 blobs (new_versioned_wrapper ms))
      (a : Entries)
      → IsSaved root
      → Refines ms mm w.stores.1 a
      → a root_key ≡ held_for root
      → (w' : Tree sum512 blobs (new_versioned_wrapper ms)) × (load_root sum512 blobs
            (new_versioned_wrapper ms)
            w
          ≡ some (mounts w.next w'))
        × RootOf w' w.next root
        × Refines ms mm w'.stores.1 a
  load_root_lem none w a h r held = load_root-missing w a r held
  load_root_lem (some (version, m)) w a h r held = load_root-stored version m w a h r held
