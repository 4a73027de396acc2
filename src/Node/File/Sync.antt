-- ===== src/Node/File/Sync.antt =====
-- What saving a node changes (pkg/node/metadata.go), and the operations of pkg/node/node.go that undo
-- their change where it cannot be saved.
use mathlib.Core.Option.{some-injective}
use crypt_fs.Prelude.{
  subst, ℕ, ◌≡◌, inl, inr, refl, ap, ◌∙◌, Option, none, some, ◌&&◌, Bytes, bytes_eq, bytes_eq_iff,
  if◌then◌else◌, lookup, insert, delete, lookup-insert, lookup-delete, arith, Bool-cases,
  Option-cases,
}
use crypt_fs.Storage.{Error, Store}
use crypt_fs.Storage.Versioned.{VersionedStore}
use crypt_fs.Node.File.{
  is_ok, Errno, CryptNode, check_flags, set_attr, restore_attr, remove_child, restore_child,
  save_content, save_metadata, sync_metadata, Stores, sync_saved, sync, setxattr, unlink,
}

-- What saving never changes.
pub record Keeps (node node' : CryptNode) : Type 0 where
  pub xattrs : node'.metadata.xattrs ≡ node.metadata.xattrs
  pub children : node'.metadata.children ≡ node.metadata.children
  pub content : node'.content ≡ node.content
  pub user : node'.metadata.user ≡ node.metadata.user
  pub group : node'.metadata.group ≡ node.metadata.group
  pub mode : node'.metadata.mode ≡ node.metadata.mode
  pub time : node'.metadata.time ≡ node.metadata.time

Keeps-trans : {a b c : CryptNode} → Keeps a b → Keeps b c → Keeps a c
Keeps-trans h k = record {
  xattrs = k.xattrs ∙ h.xattrs;
  children = k.children ∙ h.children;
  content = k.content ∙ h.content;
  user = k.user ∙ h.user;
  group = k.group ∙ h.group;
  mode = k.mode ∙ h.mode;
  time = k.time ∙ h.time;
}

module _ (sum512 : Bytes → Bytes) (blobs : Store) (meta : VersionedStore) where
  save_content-Keeps :
      (node : CryptNode) (b : blobs.State) → Keeps node (save_content sum512 blobs node b).0
  unfolding save_content
  save_content-Keeps node b = record {
    xattrs = ground arith;
    children = ground arith;
    content = ground arith;
    user = ground arith;
    group = ground arith;
    mode = ground arith;
    time = ground arith;
  }

  sync_metadata-Keeps :
      (node node' : CryptNode) (m m' : meta.State) (errno : Errno)
      → sync_metadata meta node m ≡ some (node', m', errno)
      → Keeps node node'
  unfolding sync_metadata save_metadata
  sync_metadata-Keeps node node' m m' errno e = record {
    xattrs = ground arith;
    children = ground arith;
    content = ground arith;
    user = ground arith;
    group = ground arith;
    mode = ground arith;
    time = ground arith;
  }

  sync_saved-Keeps :
      (saved node' : CryptNode) (b : blobs.State) (m : meta.State) (err : Option Error)
      (st' : Stores sum512 blobs meta) (errno : Errno)
      → sync_saved sum512 blobs meta saved b m err ≡ some (node', st', errno)
      → Keeps saved node'
  unfolding sync_saved
  sync_saved-Keeps saved node' b m (some x) st' errno e = record {
    xattrs = ground arith;
    children = ground arith;
    content = ground arith;
    user = ground arith;
    group = ground arith;
    mode = ground arith;
    time = ground arith;
  }
  sync_saved-Keeps saved node' b m none st' errno e =
      elim (Option-cases (sync_metadata meta saved m)) [
        | inl panicked ↦ let gone = rw panicked at e in cc
        | inr ((n, m', x), done) ↦
            let same : n ≡ node' = let found = rw done at e in ground arith in
            sync_metadata-Keeps saved node' m m' x (done ∙ ap (λ k. some (k, m', x)) same)
      ]

  pub sync-Keeps :
      (node node' : CryptNode) (st st' : Stores sum512 blobs meta) (errno : Errno)
      → sync sum512 blobs meta node st ≡ some (node', st', errno)
      → Keeps node node'
  unfolding sync
  sync-Keeps node node' (b, m) st' errno e =
      let (saved, b', err) = save_content sum512 blobs node b in
      Keeps-trans (save_content-Keeps node b) (sync_saved-Keeps saved node' b' m err st' errno e)

  lookup-restore_attr :
      (attr name value : Bytes) (old : Option Bytes) (node node' : CryptNode)
      → lookup attr node.metadata.xattrs ≡ old
      → node'.metadata.xattrs ≡ insert attr value node.metadata.xattrs
      → lookup name (restore_attr attr old node').metadata.xattrs ≡ lookup name node.metadata.xattrs
  unfolding restore_attr
  lookup-restore_attr attr name value none node node' was is =
      rw (is, lookup-delete, lookup-insert) (ground (arith, bytes_eq_iff attr name))
  lookup-restore_attr attr name value (some old) node node' was is =
      rw (is, lookup-insert, lookup-insert) (ground (arith, bytes_eq_iff attr name))

  lookup-restore_child :
      (child name : Bytes) (old : Option Bytes) (node node' : CryptNode)
      → lookup child node.metadata.children ≡ old
      → node'.metadata.children ≡ delete child node.metadata.children
      → lookup name (restore_child child old node').metadata.children
        ≡ lookup name node.metadata.children
  unfolding restore_child
  lookup-restore_child child name none node node' was is =
      rw (is, lookup-delete) (ground (arith, bytes_eq_iff child name))
  lookup-restore_child child name (some old) node node' was is =
      rw (is, lookup-insert, lookup-delete) (ground (arith, bytes_eq_iff child name))

  set_attr_done :
      (attr value name : Bytes) (node n : CryptNode) (x : Errno)
      → Keeps (set_attr attr value node) n
      → lookup name
          (if is_ok x
            then n
            else restore_attr attr (lookup attr node.metadata.xattrs) n).metadata.xattrs
        ≡ (if is_ok x && bytes_eq attr name then some value else lookup name node.metadata.xattrs)
  unfolding set_attr
  set_attr_done attr value name node n x k = elim (Bool-cases (is_ok x)) [
    | inl good ↦ rw (good, k.xattrs, lookup-insert)
    | inr failed ↦ rw failed (
        lookup-restore_attr attr name value (lookup attr node.metadata.xattrs) node n refl k.xattrs)
  ]

  -- How an attribute reads in the node of a result.
  abbrev Reads :
      Bytes → Bytes → Bytes → CryptNode → CryptNode × Stores sum512 blobs meta × Errno → Type 0
  Reads attr value name node (node', st', errno) =
      lookup name node'.metadata.xattrs
      ≡ (if is_ok errno && bytes_eq attr name then some value else lookup name node.metadata.xattrs)

  -- Setxattr, where it returns, sets the one attribute if it returns no error; if it returns one,
  -- whether for its flags or because the node could not be saved, each attribute reads as before.
  pub setxattr_lem :
      (attr value : Bytes) (flags : ℕ) (node node' : CryptNode) (st st' : Stores sum512 blobs meta)
      (errno : Errno)
      → setxattr sum512 blobs meta attr value flags node st ≡ some (node', st', errno)
      → (name : Bytes)
      → lookup name node'.metadata.xattrs ≡ (
          if is_ok errno && bytes_eq attr name
          then some value
          else lookup name node.metadata.xattrs)
  unfolding setxattr
  setxattr_lem attr value flags node node' st st' errno e name =
      elim (Bool-cases (is_ok (check_flags flags attr node))) [
        | inl allowed ↦ elim (Option-cases (sync sum512 blobs meta (set_attr attr value node) st)) [
          | inl panicked ↦ let gone = rw (allowed, panicked, setxattr) at e in cc
          | inr ((n, s, x), done) ↦
              let found = rw (allowed, done, setxattr) at e in
              let kept =
                set_attr_done attr value name node n x
                  (sync-Keeps (set_attr attr value node) n st s x done) in
              subst (Reads attr value name node) (some-injective _ _ found) kept
        ]
        | inr refused ↦
            let found = rw (refused, setxattr) at e in
            subst (Reads attr value name node) (some-injective _ _ found) (rw refused)
      ]

  abbrev Shows : Bytes → Bytes → CryptNode → CryptNode × Stores sum512 blobs meta × Errno → Type 0
  Shows child name node (node', st', errno) =
      lookup name node'.metadata.children
      ≡ (if is_ok errno && bytes_eq child name then none else lookup name node.metadata.children)

  remove_child_done :
      (child name : Bytes) (node n : CryptNode) (x : Errno)
      → Keeps (remove_child child node) n
      → lookup name
          (if is_ok x
            then n
            else restore_child child (lookup child node.metadata.children) n).metadata.children
        ≡ (if is_ok x && bytes_eq child name then none else lookup name node.metadata.children)
  unfolding remove_child
  remove_child_done child name node n x k = elim (Bool-cases (is_ok x)) [
    | inl good ↦ rw (good, k.children, lookup-delete)
    | inr failed ↦ rw failed (
        lookup-restore_child child name (lookup child node.metadata.children) node n refl
          k.children)
  ]

  -- Unlink, where it returns, removes the one child if it returns no error; if it returns one, each
  -- name leads to the child that it led to before.
  pub unlink_lem :
      (child : Bytes) (node node' : CryptNode) (st st' : Stores sum512 blobs meta) (errno : Errno)
      → unlink sum512 blobs meta child node st ≡ some (node', st', errno)
      → (name : Bytes)
      → lookup name node'.metadata.children
        ≡ (if is_ok errno && bytes_eq child name then none else lookup name node.metadata.children)
  unfolding unlink
  unlink_lem child node node' st st' errno e name =
      elim (Option-cases (sync sum512 blobs meta (remove_child child node) st)) [
        | inl panicked ↦ let gone = rw (panicked, unlink) at e in cc
        | inr ((n, s, x), done) ↦
            let found = rw (done, unlink) at e in
            subst (Shows child name node) (some-injective _ _ found) (
              remove_child_done child name node n x
                (sync-Keeps (remove_child child node) n st s x done))
      ]
