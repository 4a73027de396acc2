-- ===== src/Node/Reload/New.antt =====
-- Metadata that is read into a new node (LoadMetadata of pkg/node/metadata.go).
use crypt_fs.Prelude.{
  ℕ, ◌≡◌, ◌≢◌, ◌⊎◌, inl, inr, refl, ap, ◌∙◌, none, some, Bool, true, false, not, [], ◌∷◌, Bytes,
  ◌==◌, if◌then◌else◌, arith, Assoc, bit_and, length,
}
use crypt_fs.Storage.{Store, IsMap}
use crypt_fs.Storage.Versioned.{new_versioned_wrapper}
use crypt_fs.Storage.Versioned.Refinement.{Entries, Refines, wrapper_get-Refines}
use crypt_fs.Node.Metadata.{Metadata, s_ifdir, unserialize}
use crypt_fs.Node.Metadata.Format.{metadata_bytes, serialize-metadata_bytes}
use crypt_fs.Node.Metadata.RoundTrip.{IsStored, unserialize-serialize, children_after}
use crypt_fs.Node.Heap.{TreeNode, World, new_node}
use crypt_fs.Node.Tree.{Tree}
use crypt_fs.Node.Reload.{add_children, unserialize_node, is_dir, load_metadata}

all_xattrs : (xattrs : Assoc Bytes) → (if length xattrs == 0 then [] else xattrs) ≡ xattrs
all_xattrs [] = refl
all_xattrs ((k, v) ∷ xattrs) =
    let more : (length ((k, v) ∷ xattrs) == 0) ≡ false = ground arith in rw more

all_children :
    (n : ℕ) (children : Assoc Bytes)
    → (n ≢ 0) ⊎ (children ≡ [])
    → (if n == 0 then [] else children) ≡ children
all_children n children (inl h) = ground arith
all_children n children (inr e) = rw e (ground arith)

-- Into a new node the whole metadata is read.
unserialize-new :
    (name : Bytes) (mode time : ℕ) (m : Metadata)
    → IsStored m
    → unserialize (new_node [] name mode time).node.metadata true (metadata_bytes m) ≡ some m
unserialize-new name mode time m h =
    let whole = unserialize-serialize true (new_node [] name mode time).node.metadata m h in
    rw (serialize-metadata_bytes m h.serializable) at whole
    ∙ ap
        (λ x. some (record m {
          xattrs = x;
          children = children_after (new_node [] name mode time).node.metadata m;
        }))
        (all_xattrs m.xattrs)
    ∙ ap (λ x. some (record m { children = x }))
        (all_children (bit_and m.mode s_ifdir) m.children h.directory)

-- A new node that was loaded with metadata and a version.
abbrev pub loaded_node : Bytes → Bytes → ℕ → Metadata → Assoc ℕ → TreeNode
loaded_node name key version m links = record (new_node key name 0 0) {
  node = record (new_node key name 0 0).node {
    key = key;
    version = version;
    metadata = record m { children = [] };
  };
  links = links;
  nil_links = not (is_dir m);
}

if_same {ℓ} : {A : Type ℓ} (b : Bool) (a : A) → (if b then a else a) ≡ a
if_same true a = refl
if_same false a = refl

module _ {S : Type 0} where
  unserialize_node-new :
      (name key : Bytes) (mode time version : ℕ) (m : Metadata) (w : World S)
      → IsStored m
      → unserialize_node
          (record (new_node [] name mode time) {
            node = record (new_node [] name mode time).node { key = key; version = version };
          })
          (metadata_bytes m)
          w
        ≡ some (
          loaded_node name key version m (add_children m.children [] w).0,
          (add_children m.children [] w).1,
        )
  unfolding unserialize_node
  unserialize_node-new name key mode time version m w h =
      rw (unserialize-new name mode time m h, if_same)

module _ (sum512 : Bytes → Bytes) (blobs ms : Store) (mm : IsMap ms) where
  -- The world after the metadata was fetched.
  abbrev pub fetched :
      Tree sum512 blobs (new_versioned_wrapper ms)
      → ms.State
      → Tree sum512 blobs (new_versioned_wrapper ms)
  fetched w st = record w { stores = (w.stores.0, st) }

  pub load_metadata-new :
      (name key old : Bytes) (mode time version : ℕ) (m : Metadata)
      (w : Tree sum512 blobs (new_versioned_wrapper ms)) (a : Entries)
      → IsStored m
      → Refines ms mm w.stores.1 a
      → a key ≡ some (version, metadata_bytes m)
      → (st : ms.State) × (load_metadata sum512 blobs
            (new_versioned_wrapper ms)
            key
            (new_node old name mode time)
            w
          ≡ some (
            none,
            loaded_node name key version m (add_children m.children [] (fetched w st)).0,
            (add_children m.children [] (fetched w st)).1,
          ))
        × Refines ms mm st a
  unfolding load_metadata
  load_metadata-new name key old mode time version m w a h r held =
      let (st, got, done, reports, r') = wrapper_get-Refines ms mm key w.stores.1 a r in
      let reported = rw held at reports in
      (
        st,
        rw (done, reported, unserialize_node-new name key mode time version m (fetched w st) h),
        r',
      )
