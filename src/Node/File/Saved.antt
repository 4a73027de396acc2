-- ===== src/Node/File/Saved.antt =====
-- `sync` of pkg/node/metadata.go over a versioned map of metadata and a map of blobs.
use crypt_fs.Prelude.{
  ◌+◌, ◌^◌, ◌%◌, ◌<◌, ◌≡◌, inl, inr, none, some, Bool, true, false, not, ◌||◌, ◌&&◌, Bytes,
  bytes_eq, if◌then◌else◌, length, arith, Bool-cases,
}
use crypt_fs.Storage.{is_stale_put, Store, IsMap}
use crypt_fs.Storage.Versioned.{new_versioned_wrapper}
use crypt_fs.Storage.Versioned.Refinement.{
  Entries, accepts, put_entry, Refines, wrapper_put-Refines,
}
use crypt_fs.Storage.Blobs.{blob_put}
use crypt_fs.Node.Metadata.Format.{IsSerializable, metadata_bytes, serialize-metadata_bytes}
use crypt_fs.Node.File.{
  ok, eio, CryptNode, save_content, save_metadata, sync_metadata, sync_saved, sync,
}

module _ (ms : Store) (mm : IsMap ms) where
  -- A node's metadata can be saved: there is nothing to save, or the version map takes its version.
  abbrev pub is_saved : CryptNode → Entries → Bool
  is_saved node a = not node.should_save_metadata || accepts (node.version + 1) (a node.key)

  -- The node after its metadata.
  abbrev pub after_metadata : CryptNode → Entries → CryptNode
  after_metadata node a =
      if node.should_save_metadata
      then (if accepts (node.version + 1) (a node.key)
          then record node { version = node.version + 1; should_save_metadata = false }
          else record node { should_reload_metadata = true })
      else node

  abbrev pub entries_after : CryptNode → Entries → Entries
  entries_after node a =
      if node.should_save_metadata
      then put_entry (node.version + 1) node.key (metadata_bytes node.metadata) a
      else a

  sync_metadata-after :
      (node : CryptNode) (m : ms.State) (a : Entries)
      → IsSerializable node.metadata
      → node.version + 1 < 2 ^ 64
      → Refines ms mm m a
      → (m' : ms.State) × (sync_metadata (new_versioned_wrapper ms) node m
          ≡ some (after_metadata node a, m', if is_saved node a then ok else eio))
        × Refines ms mm m' (entries_after node a)
  unfolding sync_metadata save_metadata is_stale_put
  sync_metadata-after node m a s h r = elim (Bool-cases node.should_save_metadata) [
    | inr clean ↦ (m, ground arith, rw clean r)
    | inl dirty ↦
        let whole : (node.version + 1) % 2 ^ 64 ≡ node.version + 1 = omega (arith, h) in
        let (m', put_it, r') =
          wrapper_put-Refines ms mm (node.version + 1) node.key (metadata_bytes node.metadata) m a h
            r in
        (
          m',
          rw (dirty, serialize-metadata_bytes node.metadata s, whole, put_it)
              (ground (arith, whole)),
          rw dirty r',
        )
  ]

module _ (sum512 : Bytes → Bytes) (bs : Store) (bm : IsMap bs) where
  -- The node after its content.
  abbrev pub after_content : CryptNode → CryptNode
  after_content node =
      if node.should_save_content
      then record node {
        metadata = record node.metadata { content_key = sum512 node.content };
        should_save_content = false;
        should_save_metadata =
            not (bytes_eq node.metadata.content_key (sum512 node.content))
            || node.should_save_metadata;
      }
      else node

  save_content-after :
      (node : CryptNode) (b : bs.State)
      → (b' : bs.State) × (save_content sum512 bs node b ≡ (after_content node, b', none))
        × ((k : Bytes)
            → bm.view b' k ≡ (
                if node.should_save_content && bytes_eq (sum512 node.content) k
                then some node.content
                else bm.view b k))
  unfolding save_content blob_put
  save_content-after node b = elim (Bool-cases node.should_save_content) [
    | inr clean ↦ (b, rw clean, λ k. rw clean)
    | inl dirty ↦ (
      (bs.put (sum512 node.content) node.content b).0,
      rw (dirty, bm.put_succeeds),
      λ k. rw (dirty, bm.put_view),
    )
  ]

  IsSerializable-after :
      (node : CryptNode)
      → length (sum512 node.content) < 2 ^ 16
      → IsSerializable node.metadata
      → IsSerializable (after_content node).metadata
  IsSerializable-after node h s = elim (Bool-cases node.should_save_content) [
    | inr clean ↦ rw clean s
    | inl dirty ↦
        rw dirty
          (record { content_key = h; xattrs = s.xattrs; children = s.children; keys = s.keys })
  ]

module _ (sum512 : Bytes → Bytes) (bs ms : Store) (bm : IsMap bs) (mm : IsMap ms) where
  -- What `sync` leaves: the node, the blobs and the metadata's entries.
  pub record Synced (node : CryptNode) (b b' : bs.State) (m' : ms.State) (a : Entries)
      : Type 0 where
    pub blobs :
        (k : Bytes)
        → bm.view b' k ≡ (
            if node.should_save_content && bytes_eq (sum512 node.content) k
            then some node.content
            else bm.view b k)
    pub entries : Refines ms mm m' (entries_after ms mm (after_content sum512 bs bm node) a)

  -- Over a map of blobs and a versioned map of metadata, `sync` of a node that can be serialized does
  -- not panic. It saves the content, if that is due, under its hash, which becomes the node's content
  -- key, and no other blob changes. It then saves the metadata, if that or a new content key is due,
  -- with the next version: where the map takes that version, the node has it and nothing more is
  -- due; where it does not, `sync` returns EIO, the entries stay, and the node is marked to be
  -- reloaded.
  pub sync_lem :
      (node : CryptNode) (b : bs.State) (m : ms.State) (a : Entries)
      → length (sum512 node.content) < 2 ^ 16
      → IsSerializable node.metadata
      → node.version + 1 < 2 ^ 64
      → Refines ms mm m a
      → (b' : bs.State) × (m' : ms.State) × (sync sum512 bs (new_versioned_wrapper ms) node (b, m)
          ≡ some (
            after_metadata ms mm (after_content sum512 bs bm node) a,
            (b', m'),
            if is_saved ms mm (after_content sum512 bs bm node) a then ok else eio,
          ))
        × Synced node b b' m' a
  unfolding sync sync_saved
  sync_lem node b m a k s h r =
      let n = after_content sum512 bs bm node in
      let (b', put_it, shown) = save_content-after sum512 bs bm node b in
      let h' : n.version + 1 < 2 ^ 64 = ground arith in
      let (m', saved, r') =
        sync_metadata-after ms mm n m a (IsSerializable-after sum512 bs bm node k s) h' r in
      (b', m', rw (put_it, saved), record { blobs = shown; entries = r' })
