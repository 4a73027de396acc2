-- ===== src/Tests/Node.antt =====
-- Runs of pkg/node/metadata.go.
use crypt_fs.Prelude.{
  ℕ, ◌≡◌, refl, inl, arith, some, false, [], ◌∷◌, replicate, ◌>>=◌, lookup, bytes_eq,
}
use crypt_fs.Node.Metadata.{Metadata, node_key_len, serialize, unserialize}
use crypt_fs.Node.Metadata.Format.{IsSerializable, metadata_bytes, serialize-metadata_bytes}
use crypt_fs.Node.Metadata.RoundTrip.{IsStored, unserialize-serialize}

-- A directory with an attribute and two children.
abbrev directory : Metadata
directory = record {
  user = 1000;
  group = 70000;
  mode = 0x41ed;
  time = 1600000000000000000;
  content_key = replicate {A = ℕ} node_key_len 255;
  xattrs = (b'a' ∷ [], b'1' ∷ b'2' ∷ []) ∷ [];
  children =
      (b'x' ∷ [], replicate {A = ℕ} node_key_len 1)
      ∷ (b'y' ∷ [], replicate {A = ℕ} node_key_len 2)
      ∷ [];
}

directory-IsSerializable : IsSerializable directory
directory-IsSerializable = record {
  content_key = omega arith;
  xattrs = (omega arith, omega arith, tt);
  children = (omega arith, omega arith, (omega arith, omega arith, tt));
  keys = (refl, (refl, tt));
}

directory-IsStored : IsStored directory
unfolding lookup bytes_eq
directory-IsStored = record {
  serializable = directory-IsSerializable;
  user = omega arith;
  group = omega arith;
  mode = omega arith;
  time = omega arith;
  count = omega arith;
  distinct_xattrs = (refl, tt);
  distinct_children = (refl, (refl, tt));
  directory = inl (omega arith);
}

serialize-metadata_bytes_example : serialize directory ≡ some (metadata_bytes directory)
serialize-metadata_bytes_example = serialize-metadata_bytes directory directory-IsSerializable

-- A directory that had other attributes and children before.
abbrev older : Metadata
older = record directory { xattrs = (b'b' ∷ [], []) ∷ []; children = [] }

unserialize-serialize_example :
    (serialize directory >>= λ b. unserialize older false b) ≡ some directory
unserialize-serialize_example = unserialize-serialize false older directory directory-IsStored
