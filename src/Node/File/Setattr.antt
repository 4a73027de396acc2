-- ===== src/Node/File/Setattr.antt =====
-- Setattr of pkg/node/node.go, which undoes its change where the node cannot be saved.
use mathlib.Core.Option.{some-injective}
use mathlib.Core.Option
use crypt_fs.Prelude.{
  subst, ℕ, ◌+◌, ◌^◌, ◌<◌, length, ◌≡◌, refl, ap, ◌∙◌, sym, Option, none, some, Bool, true, false,
  Bytes, if◌then◌else◌, arith, ◌>>=◌, >>=-eq-some, bit_and, bit_or,
}
use crypt_fs.Storage.{Store, IsMap}
use crypt_fs.Storage.Versioned.{VersionedStore, new_versioned_wrapper}
use crypt_fs.Node.File.{ok, eio, is_ok, Errno, CryptNode, resize, Stores, sync}
use crypt_fs.Node.File.Sync.{Keeps, sync-Keeps}
use crypt_fs.Node.File.Saved.{after_content, after_metadata, is_saved, sync_lem}
use crypt_fs.Node.Metadata.Writers.{Fits}
use crypt_fs.Node.Metadata.Format.{IsSerializable, HasNodeKeys}
use crypt_fs.Storage.Versioned.Refinement.{Entries, Refines, accepts}

-- fuse.SetAttrIn: what is to be set.
pub record SetAttrIn : Type 0 where
  pub mtime : Option ℕ
  pub uid : Option ℕ
  pub gid : Option ℕ
  pub mode : Option ℕ
  pub size : Option ℕ

-- node.Mode&0xfffff000 | mode&0x00000fff
abbrev pub change_mode : ℕ → Option ℕ → ℕ
change_mode old none = old
change_mode old (some mode) = bit_or (bit_and old 0xfffff000) (bit_and mode 0x00000fff)

abbrev pub set_mtime : Option ℕ → CryptNode → CryptNode
set_mtime none node = node
set_mtime (some t) node = record node { metadata = record node.metadata { time = t } }

-- `now` is the clock's time.
unfoldable pub set_size : Option ℕ → ℕ → CryptNode → CryptNode
unfolding resize
set_size none now node = node
set_size (some size) now node =
    let node' = resize size node in
    record node' { should_save_content = true; metadata = record node'.metadata { time = now } }

unfoldable pub set_attrs : SetAttrIn → ℕ → CryptNode → CryptNode
unfolding set_size
set_attrs in_ now node =
    let n = set_mtime in_.mtime node in
    let n' = set_size in_.size now (record n {
      metadata = record n.metadata {
        user = Option.get_or in_.uid n.metadata.user;
        group = Option.get_or in_.gid n.metadata.group;
        mode = change_mode n.metadata.mode in_.mode;
      };
    }) in
    record n' { should_save_metadata = true }

-- Where something was set, it is set back.
abbrev pub set_back {ℓ} : {A : Type ℓ} → Option ℕ → A → A → A
set_back none now old = now
set_back (some x) now old = old

unfoldable pub restore_attrs : SetAttrIn → CryptNode → CryptNode → CryptNode
restore_attrs in_ old node = record node {
  metadata = record node.metadata {
    time = set_back in_.mtime node.metadata.time old.metadata.time;
    user = set_back in_.uid node.metadata.user old.metadata.user;
    group = set_back in_.gid node.metadata.group old.metadata.group;
    mode = set_back in_.mode node.metadata.mode old.metadata.mode;
  };
  content = set_back in_.size node.content old.content;
  spare = set_back in_.size node.spare old.spare;
}

module _ (sum512 : Bytes → Bytes) (blobs : Store) (meta : VersionedStore) where
  unfoldable pub setattr :
      SetAttrIn
      → ℕ
      → CryptNode
      → Stores sum512 blobs meta
      → Option (CryptNode × Stores sum512 blobs meta × Errno)
  unfolding set_attrs restore_attrs sync
  setattr in_ now node st = do
    (node', st', errno) ← sync sum512 blobs meta (set_attrs in_ now node) st
    some (if is_ok errno then node' else restore_attrs in_ node node', st', errno)

-- The content's new bytes.
abbrev pub resized : Option ℕ → CryptNode → Bytes
resized none node = node.content
resized (some size) node = (resize size node).content

-- The time after a Setattr that succeeded, and after one that failed.
abbrev pub time_set : SetAttrIn → ℕ → ℕ → ℕ
time_set in_ now old = set_back in_.size (Option.get_or in_.mtime old) now

abbrev pub time_left : SetAttrIn → ℕ → ℕ → ℕ
time_left in_ now old = set_back in_.mtime (set_back in_.size old now) old

-- The content key after a Setattr: the hash of the content that was due to be saved, by a resize or
-- before, and otherwise what it was.
abbrev pub key_left : (Bytes → Bytes) → SetAttrIn → CryptNode → Bytes
key_left sum512 in_ node = elim in_.size [
  | some size ↦ sum512 (resize size node).content
  | none ↦ if node.should_save_content then sum512 node.content else node.metadata.content_key
]

-- What a Setattr leaves.
pub record AttrsSet (in_ : SetAttrIn) (now : ℕ) (node node' : CryptNode) (errno : Errno)
    : Type 0 where
  pub user :
      node'.metadata.user
      ≡ (if is_ok errno then Option.get_or in_.uid node.metadata.user else node.metadata.user)
  pub group :
      node'.metadata.group
      ≡ (if is_ok errno then Option.get_or in_.gid node.metadata.group else node.metadata.group)
  pub mode :
      node'.metadata.mode
      ≡ (if is_ok errno then change_mode node.metadata.mode in_.mode else node.metadata.mode)
  pub time : node'.metadata.time ≡ (
      if is_ok errno
      then time_set in_ now node.metadata.time
      else time_left in_ now node.metadata.time)
  pub content : node'.content ≡ (if is_ok errno then resized in_.size node else node.content)
  pub xattrs : node'.metadata.xattrs ≡ node.metadata.xattrs
  pub children : node'.metadata.children ≡ node.metadata.children

set_attrs-done :
    (in_ : SetAttrIn) (now : ℕ) (node n : CryptNode) (x : Errno)
    → Keeps (set_attrs in_ now node) n
    → AttrsSet in_ now node (if is_ok x then n else restore_attrs in_ node n) x
unfolding set_attrs set_size restore_attrs resize
set_attrs-done in_ now node n x k = record {
  user = ground (arith, k.user);
  group = ground (arith, k.group);
  mode = ground (arith, k.mode);
  time = ground (arith, k.time);
  content = ground (arith, k.content);
  xattrs = ground (arith, k.xattrs);
  children = ground (arith, k.children);
}

module _ (sum512 : Bytes → Bytes) (blobs : Store) (meta : VersionedStore) where
  setattr-AttrsSet :
      (in_ : SetAttrIn) (now : ℕ) (node node' : CryptNode) (st st' : Stores sum512 blobs meta)
      (errno : Errno)
      → setattr sum512 blobs meta in_ now node st ≡ some (node', st', errno)
      → AttrsSet in_ now node node' errno
  unfolding setattr
  setattr-AttrsSet in_ now node node' st st' errno e =
      let ((n, s, x), done, same) =
        >>=-eq-some (sync sum512 blobs meta (set_attrs in_ now node) st) _ e in
      subst (λ k. AttrsSet in_ now node k.0 k.2) (some-injective _ _ same)
        (set_attrs-done in_ now node n x
          (sync-Keeps sum512 blobs meta (set_attrs in_ now node) n st s x done))

restore_attrs-content_key :
    (b : Bool) (in_ : SetAttrIn) (node n : CryptNode)
    → (if b then n else restore_attrs in_ node n).metadata.content_key ≡ n.metadata.content_key
unfolding restore_attrs
restore_attrs-content_key true in_ node n = refl
restore_attrs-content_key false in_ node n = refl

set_attrs-content_key :
    (in_ : SetAttrIn) (now : ℕ) (node : CryptNode)
    → (set_attrs in_ now node).metadata.content_key ≡ node.metadata.content_key
unfolding set_attrs set_size resize
set_attrs-content_key in_ now node = ground arith

set_attrs-xattrs :
    (in_ : SetAttrIn) (now : ℕ) (node : CryptNode)
    → (set_attrs in_ now node).metadata.xattrs ≡ node.metadata.xattrs
unfolding set_attrs set_size resize
set_attrs-xattrs in_ now node = ground arith

set_attrs-children :
    (in_ : SetAttrIn) (now : ℕ) (node : CryptNode)
    → (set_attrs in_ now node).metadata.children ≡ node.metadata.children
unfolding set_attrs set_size resize
set_attrs-children in_ now node = ground arith

set_attrs-IsSerializable :
    (in_ : SetAttrIn) (now : ℕ) (node : CryptNode)
    → IsSerializable node.metadata
    → IsSerializable (set_attrs in_ now node).metadata
set_attrs-IsSerializable in_ now node s = record {
  content_key =
      subst (λ k. length k < 2 ^ 16) (sym (set_attrs-content_key in_ now node)) s.content_key;
  xattrs = subst Fits (sym (set_attrs-xattrs in_ now node)) s.xattrs;
  children = subst Fits (sym (set_attrs-children in_ now node)) s.children;
  keys = subst HasNodeKeys (sym (set_attrs-children in_ now node)) s.keys;
}

set_attrs-due :
    (in_ : SetAttrIn) (now : ℕ) (node : CryptNode)
    → (set_attrs in_ now node).should_save_metadata ≡ true
unfolding set_attrs
set_attrs-due in_ now node = refl

set_attrs-version :
    (in_ : SetAttrIn) (now : ℕ) (node : CryptNode) → (set_attrs in_ now node).version ≡ node.version
unfolding set_attrs set_size resize
set_attrs-version in_ now node = ground arith

set_attrs-key :
    (in_ : SetAttrIn) (now : ℕ) (node : CryptNode) → (set_attrs in_ now node).key ≡ node.key
unfolding set_attrs set_size resize
set_attrs-key in_ now node = ground arith

module _ (sum512 : Bytes → Bytes) (bs ms : Store) (bm : IsMap bs) (mm : IsMap ms) where
  saves :
      (node : CryptNode) (a : Entries)
      → node.should_save_metadata ≡ true
      → is_saved ms mm (after_content sum512 bs bm node) a ≡ accepts (node.version + 1) (a node.key)
  saves node a due = ground (arith, due)

  after_metadata-content_key :
      (n : CryptNode) (a : Entries)
      → (after_metadata ms mm n a).metadata.content_key ≡ n.metadata.content_key
  after_metadata-content_key n a = ground arith

  after_content-content_key :
      (n : CryptNode)
      → (after_content sum512 bs bm n).metadata.content_key
        ≡ (if n.should_save_content then sum512 n.content else n.metadata.content_key)
  after_content-content_key n = ground arith

  set_attrs-key_left :
      (in_ : SetAttrIn) (now : ℕ) (node : CryptNode)
      → (if (set_attrs in_ now node).should_save_content
          then sum512 (set_attrs in_ now node).content
          else (set_attrs in_ now node).metadata.content_key)
        ≡ key_left sum512 in_ node
  unfolding set_attrs set_size resize
  set_attrs-key_left in_ now node = ground arith

  -- The content key that is left is that of the content that was saved.
  left-content_key :
      (in_ : SetAttrIn) (now : ℕ) (node : CryptNode) (a : Entries) (x : Errno)
      → (let n' = after_metadata ms mm (after_content sum512 bs bm (set_attrs in_ now node)) a in
          if is_ok x then n' else restore_attrs in_ node n').metadata.content_key
        ≡ key_left sum512 in_ node
  left-content_key in_ now node a x =
      let n = set_attrs in_ now node in
      restore_attrs-content_key (is_ok x) in_ node
        (after_metadata ms mm (after_content sum512 bs bm n) a)
      ∙ after_metadata-content_key (after_content sum512 bs bm n) a
      ∙ after_content-content_key n
      ∙ set_attrs-key_left in_ now node

  -- Setattr over maps of blobs and of versioned metadata does not panic: it returns no error where the
  -- map takes the node's next version, and EIO otherwise. With no error the owner, the group, the
  -- permission bits, the content's length and the time are as asked for, and a resize makes the time
  -- the clock's. With EIO each is what it was, but for the time that a resize without a time has set.
  -- The content key is not set back: with EIO too it is left the hash of the resized content, or of
  -- content that was due to be saved before. Extended attributes and children stay. The hash is short, the version is not the largest, and the
  -- node can be serialized.
  pub setattr_lem :
      (in_ : SetAttrIn) (now : ℕ) (node : CryptNode) (b : bs.State) (m : ms.State) (a : Entries)
      → length (sum512 (set_attrs in_ now node).content) < 2 ^ 16
      → IsSerializable node.metadata
      → node.version + 1 < 2 ^ 64
      → Refines ms mm m a
      → (node' : CryptNode) × (st' : Stores sum512 bs (new_versioned_wrapper ms)) × (setattr sum512
            bs
            (new_versioned_wrapper ms)
            in_
            now
            node
            (b, m)
          ≡ some (node', st', if accepts (node.version + 1) (a node.key) then ok else eio))
        × AttrsSet in_ now node node' (if accepts (node.version + 1) (a node.key) then ok else eio)
        × (node'.metadata.content_key ≡ key_left sum512 in_ node)
  unfolding setattr
  setattr_lem in_ now node b m a short s h r =
      let n = set_attrs in_ now node in
      let v = set_attrs-version in_ now node in
      let k = set_attrs-key in_ now node in
      let (b', m', synced, leaves) =
        sync_lem sum512 bs ms bm mm n b m a short (set_attrs-IsSerializable in_ now node s)
          (omega (arith, v, h)) r in
      let n' = after_metadata ms mm (after_content sum512 bs bm n) a in
      let takes =
        saves n a (set_attrs-due in_ now node)
        ∙ ap (λ ve. accepts (ve + 1) (a n.key)) v
        ∙ ap (λ ke. accepts (node.version + 1) (a ke)) k in
      let done = synced ∙ ap (λ t. some (n', (b', m'), if t then ok else eio)) takes in
      let x = if accepts (node.version + 1) (a node.key) then ok else eio in
      let returned : setattr sum512 bs (new_versioned_wrapper ms) in_ now node (b, m)
          ≡ some (if is_ok x then n' else restore_attrs in_ node n', (b', m'), x) =
        rw (done, setattr) in
      (
        if is_ok x then n' else restore_attrs in_ node n',
        (b', m'),
        returned,
        setattr-AttrsSet sum512 bs (new_versioned_wrapper ms) in_ now node _ (b, m) (b', m') x
            returned,
        left-content_key in_ now node a x,
      )
