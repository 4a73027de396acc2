-- ===== src/Node/Metadata/Format.antt =====
-- The bytes of a node's metadata, and that `serialize` of pkg/node/metadata.go fills its buffer with
-- them.
use crypt_fs.Prelude.{
  ℕ, ◌%◌, ◌^◌, ◌<◌, ◌≡◌, refl, some, [], ◌∷◌, ◌++◌, Bytes, length, replicate, length-append,
  length-replicate, arith, append-nil, Assoc, drop-all,
}
use crypt_fs.Bits.Wire.{little_endian, prefixed}
use crypt_fs.Node.Metadata.{
  Metadata, node_key_len, xattrs_size, children_size, serialize_size, serialize_into, serialize,
}
use crypt_fs.Node.Metadata.Writers.{
  Emits, Emits-seq, Emits-put16, Emits-put32, Emits-put64, Emits-putb, Emits-put_entries, Fits,
  entries_bytes,
}

unfoldable pub metadata_bytes : Metadata → Bytes
metadata_bytes m =
    little_endian 4 m.user
    ++ (little_endian 4 m.group
        ++ (little_endian 4 m.mode
            ++ (little_endian 8 m.time
                ++ (prefixed m.content_key
                    ++ (little_endian 2 (length m.xattrs % 2 ^ 16)
                        ++ (entries_bytes m.xattrs ++ entries_bytes m.children))))))

-- Every child's key has the length of a node key.
abbrev pub HasNodeKeys : Assoc Bytes → Type 0
HasNodeKeys [] = Unit {0}
HasNodeKeys ((name, key) ∷ children) = (length key ≡ node_key_len) × HasNodeKeys children

-- Metadata whose parts the format can state.
pub record IsSerializable (m : Metadata) : Type 0 where
  pub content_key : length m.content_key < 2 ^ 16
  pub xattrs : Fits m.xattrs
  pub children : Fits m.children
  pub keys : HasNodeKeys m.children

serialize_into-Emits :
    (m : Metadata) → IsSerializable m → Emits (serialize_into m) (metadata_bytes m)
unfolding serialize_into metadata_bytes
serialize_into-Emits m h = Emits-seq (Emits-put32 m.user) (
    Emits-seq (Emits-put32 m.group) (
      Emits-seq (Emits-put32 m.mode) (
        Emits-seq (Emits-put64 m.time) (
          Emits-seq (Emits-putb m.content_key h.content_key) (
            Emits-seq (Emits-put16 (length m.xattrs % 2 ^ 16)) (
              Emits-seq (Emits-put_entries m.xattrs h.xattrs)
                (Emits-put_entries m.children h.children)))))))

length-entries_bytes : (xattrs : Assoc Bytes) → length (entries_bytes xattrs) ≡ xattrs_size xattrs
unfolding xattrs_size
length-entries_bytes [] = refl
length-entries_bytes ((attr, value) ∷ xattrs) = omega (
  arith,
  length-entries_bytes xattrs,
  length-append (prefixed attr) (prefixed value ++ entries_bytes xattrs),
  length-append (prefixed value) (entries_bytes xattrs),
)

length-children_bytes :
    (children : Assoc Bytes)
    → HasNodeKeys children
    → length (entries_bytes children) ≡ children_size children
unfolding children_size
length-children_bytes [] h = refl
length-children_bytes ((name, key) ∷ children) (hk, h) = omega (
  arith,
  length-children_bytes children h,
  length-append (prefixed name) (prefixed key ++ entries_bytes children),
  length-append (prefixed key) (entries_bytes children),
)

-- The size that `serialize` computes in advance is the length of what it writes.
serialize_size_lem :
    (m : Metadata) → IsSerializable m → length (metadata_bytes m) ≡ serialize_size m
unfolding serialize_size metadata_bytes
serialize_size_lem m h = omega (
  arith,
  length-append (prefixed m.content_key) (
      little_endian 2 (length m.xattrs % 2 ^ 16)
      ++ (entries_bytes m.xattrs ++ entries_bytes m.children)),
  length-append (entries_bytes m.xattrs) (entries_bytes m.children),
  length-entries_bytes m.xattrs,
  length-children_bytes m.children h.keys,
)

-- Where every string fits 16 bits and every child's key has 20 bytes, `serialize` does not panic:
-- the buffer that it allocates is exactly filled, and holds the format's bytes.
pub serialize-metadata_bytes :
    (m : Metadata) → IsSerializable m → serialize m ≡ some (metadata_bytes m)
unfolding serialize
serialize-metadata_bytes m h =
    let size = serialize_size_lem m h in
    let zeros : Bytes = replicate (serialize_size m) 0 in
    let room = length-replicate {A = ℕ} (serialize_size m) 0 in
    rw (
      (serialize_into-Emits m h).into zeros (omega (arith, size, room)),
      drop-all (length (metadata_bytes m)) zeros (omega (arith, size, room)),
      append-nil,
    )
