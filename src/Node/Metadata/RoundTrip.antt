-- ===== src/Node/Metadata/RoundTrip.antt =====
-- `unserialize` of pkg/node/metadata.go reads back what `serialize` wrote.
use crypt_fs.Prelude.{
  IsDistinct, ℕ, ◌%◌, ◌^◌, ◌<◌, ◌≡◌, ◌⊎◌, ◌≢◌, inl, inr, refl, Bool, false, not, ◌&&◌, ◌==◌, some,
  [], ◌∷◌, ◌++◌, Bytes, ◌==◌, if◌then◌else◌, ◌>>=◌, length, arith, Assoc, bit_and,
}
use crypt_fs.Bits.Wire.{
  little_endian, prefixed, get16-little_endian, get32-little_endian, get64-little_endian,
  gets-prefixed, getb-gets,
}
use crypt_fs.Node.Metadata.{
  Metadata, s_ifdir, get_xattrs, get_children, guard_children, unserialize, serialize,
}
use crypt_fs.Node.Metadata.Writers.{entries_bytes}
use crypt_fs.Node.Metadata.Format.{metadata_bytes, IsSerializable, serialize-metadata_bytes}
use crypt_fs.Node.Metadata.Loops.{get_xattrs-all, get_children-all}

-- Metadata that a node can hold: its numbers in their ranges, no name twice, and children only on
-- a directory.
pub record IsStored (m : Metadata) : Type 0 where
  pub serializable : IsSerializable m
  pub user : m.user < 2 ^ 32
  pub group : m.group < 2 ^ 32
  pub mode : m.mode < 2 ^ 32
  pub time : m.time < 2 ^ 64
  pub count : length m.xattrs < 2 ^ 16
  pub distinct_xattrs : IsDistinct m.xattrs
  pub distinct_children : IsDistinct m.children
  pub directory : (bit_and m.mode s_ifdir ≢ 0) ⊎ (m.children ≡ [])

allowed :
    (n : ℕ) (nil_children : Bool) (children : Assoc Bytes)
    → (n ≢ 0) ⊎ (children ≡ [])
    → (n == 0 && nil_children && not (length (entries_bytes children) == 0)) ≡ false
allowed n nil_children children (inl h) = ground arith
allowed n nil_children [] (inr e) = ground arith
allowed n nil_children ((k, v) ∷ children) (inr e) = cc

-- The bytes from each part of the metadata on.
abbrev from_count : Metadata → Bytes
from_count m =
    little_endian 2 (length m.xattrs % 2 ^ 16)
    ++ (entries_bytes m.xattrs ++ entries_bytes m.children)

abbrev from_time : Metadata → Bytes
from_time m = little_endian 8 m.time ++ (prefixed m.content_key ++ from_count m)

abbrev from_group : Metadata → Bytes
from_group m = little_endian 4 m.group ++ (little_endian 4 m.mode ++ from_time m)

same32 : (n : ℕ) → n < 2 ^ 32 → n % 2 ^ 32 ≡ n
same32 n h = omega arith

same64 : (n : ℕ) → n < 2 ^ 64 → n % 2 ^ 64 ≡ n
same64 n h = omega arith

same16 : (n : ℕ) → n < 2 ^ 16 → n % 2 ^ 16 % 2 ^ 16 ≡ n
same16 n h = omega arith

-- The maps that a node which held `old` has afterwards.
abbrev pub xattrs_after : Metadata → Metadata → Assoc Bytes
xattrs_after old m = if length m.xattrs == 0 then old.xattrs else m.xattrs

abbrev pub children_after : Metadata → Metadata → Assoc Bytes
children_after old m = if bit_and m.mode s_ifdir == 0 then old.children else m.children

-- The maps at the end.
unserialize-maps :
    (nil_children : Bool) (old m : Metadata) (head : Assoc Bytes → Assoc Bytes → Metadata)
    → IsStored m
    → (do
      (xattrs, b) ←
          get_xattrs
            (length m.xattrs)
            (entries_bytes m.xattrs ++ entries_bytes m.children)
            (if length m.xattrs == 0 then old.xattrs else [])
      children ←
          get_children (length b) b (if bit_and m.mode s_ifdir == 0 then old.children else [])
      guard_children
          (bit_and m.mode s_ifdir == 0 && nil_children && not (length b == 0))
          (head xattrs children))
      ≡ some (head (xattrs_after old m) (children_after old m))
unserialize-maps nil_children old m head h =
    let s = h.serializable in
    rw
      (
        get_xattrs-all old.xattrs m.xattrs (entries_bytes m.children) s.xattrs h.distinct_xattrs,
        get_children-all (bit_and m.mode s_ifdir) old.children m.children s.children s.keys
            h.distinct_children h.directory,
        allowed (bit_and m.mode s_ifdir) nil_children m.children h.directory,
      )
      (unfold guard_children in refl)

-- `unserialize` reads the bytes that `serialize` wrote for `m` without a panic, on a node that held
-- whatever `old`, and the node then holds `m`, but for two maps: it keeps its old attributes if `m`
-- has none, and its old children if `m` is no directory.
pub unserialize-serialize :
    (nil_children : Bool) (old m : Metadata)
    → IsStored m
    → (serialize m >>= λ b. unserialize old nil_children b)
      ≡ some (record m { xattrs = xattrs_after old m; children = children_after old m })
unfolding unserialize metadata_bytes
unserialize-serialize nil_children old m h =
    let s = h.serializable in
    rw
      (
        serialize-metadata_bytes m s,
        get32-little_endian m.user (from_group m),
        get32-little_endian m.group (little_endian 4 m.mode ++ from_time m),
        get32-little_endian m.mode (from_time m),
        get64-little_endian m.time (prefixed m.content_key ++ from_count m),
        getb-gets,
        gets-prefixed m.content_key (from_count m) s.content_key,
        get16-little_endian (length m.xattrs % 2 ^ 16)
            (entries_bytes m.xattrs ++ entries_bytes m.children),
        same32 m.user h.user,
        same32 m.group h.group,
        same32 m.mode h.mode,
        same64 m.time h.time,
        same16 (length m.xattrs) h.count,
      )
      (unserialize-maps nil_children old m
        (λ xattrs children. record m { xattrs = xattrs; children = children }) h)
