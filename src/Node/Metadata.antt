-- ===== src/Node/Metadata.antt =====
-- pkg/node/metadata.go: a node's metadata to bytes and back.
-- The loops over the maps of attributes and children visit the entries in the order of the lists.
-- `none` is a panic.
pub mod Writers
pub mod Format
pub mod Loops
pub mod RoundTrip
use crypt_fs.Prelude.{
  ℕ, zero, suc, ◌+◌, ◌%◌, ◌^◌, Option, none, some, Bool, true, false, not, ◌&&◌, List, [], ◌∷◌,
  ◌++◌, Bytes, ◌==◌, ◌>>=◌, if◌then◌else◌, length, replicate, Assoc, insert, bit_and,
}
use crypt_fs.Bits.{put16, put32, put64, putb, puts, get16, get32, get64, getb, gets, copy}

abbrev pub node_key_len : ℕ
node_key_len = 20

-- fuse.S_IFDIR
abbrev pub s_ifdir : ℕ
s_ifdir = 0x4000

-- What a node's metadata holds: the fields of CryptNode that `serialize` writes. `time` is the
-- time's UnixNano as a uint64, and each child stands with its key.
pub record Metadata : Type 0 where
  pub user : ℕ
  pub group : ℕ
  pub mode : ℕ
  pub time : ℕ
  pub content_key : Bytes
  pub xattrs : Assoc Bytes
  pub children : Assoc Bytes

-- b = p(b); b = q(b)
infixr 20 ◌▸◌
abbrev pub ◌▸◌ :
    (Bytes → Option (Bytes × Bytes))
    → (Bytes → Option (Bytes × Bytes))
    → Bytes
    → Option (Bytes × Bytes)
◌▸◌ p q b = do (front, rest) ← p b; (front', rest') ← q rest; some (front ++ front', rest')

-- The loops over a map of strings to byte slices.
unfoldable pub put_entries : Assoc Bytes → Bytes → Option (Bytes × Bytes)
put_entries [] b = some ([], b)
put_entries ((name, value) ∷ entries) b =
    ((λ b. puts b name) ▸ (λ b. putb b value) ▸ (λ b. put_entries entries b)) b

unfoldable pub xattrs_size : Assoc Bytes → ℕ
xattrs_size [] = 0
xattrs_size ((attr, value) ∷ xattrs) = 4 + length attr + length value + xattrs_size xattrs

unfoldable pub children_size : Assoc Bytes → ℕ
children_size [] = 0
children_size ((name, key) ∷ children) = 4 + node_key_len + length name + children_size children

unfoldable pub serialize_size : Metadata → ℕ
unfolding xattrs_size children_size
serialize_size m = 24 + length m.content_key + xattrs_size m.xattrs + children_size m.children

unfoldable pub serialize_into : Metadata → Bytes → Option (Bytes × Bytes)
serialize_into m =
    (λ b. put32 b m.user)
    ▸ (λ b. put32 b m.group)
    ▸ (λ b. put32 b m.mode)
    ▸ (λ b. put64 b m.time)
    ▸ (λ b. putb b m.content_key)
    ▸ (λ b. put16 b (length m.xattrs % 2 ^ 16))
    ▸ (λ b. put_entries m.xattrs b)
    ▸ (λ b. put_entries m.children b)

-- The buffer after all writes.
unfoldable pub serialize : Metadata → Option Bytes
unfolding serialize_size serialize_into
serialize m = do
  (front, rest) ← serialize_into m (replicate (serialize_size m) 0)
  some (front ++ rest)

-- for ; nxattr > 0; nxattr--
unfoldable pub get_xattrs : ℕ → Bytes → Assoc Bytes → Option (Assoc Bytes × Bytes)
get_xattrs zero b xattrs = some (xattrs, b)
get_xattrs (suc n) b xattrs = do
  (attr, b₁) ← gets b
  (value, b₂) ← getb b₁
  get_xattrs n b₂ (insert attr value xattrs)

-- var key [NodeKeyLen]byte; copy(key[:], childKey)
unfoldable pub to_node_key : Bytes → Bytes
unfolding copy
to_node_key key = copy (replicate node_key_len 0) key

-- for len(b) > 0: the names and keys of the children. Each round takes four bytes or more, so the
-- length of `b` is enough fuel.
unfoldable pub get_children : ℕ → Bytes → Assoc Bytes → Option (Assoc Bytes)
get_children fuel [] children = some children
get_children zero (x ∷ b) children = none
get_children (suc fuel) (x ∷ b) children = do
  (name, b₁) ← gets (x ∷ b)
  (key, b₂) ← getb b₁
  get_children fuel b₂ (insert name (to_node_key key) children)

guard_children : Bool → Metadata → Option Metadata
guard_children true m = none
guard_children false m = some m

-- What `unserialize` makes of a node that holds `old`, whose map of children may be nil. A directory
-- gets a new map of children; another node keeps its own, where adding a child to nil panics.
-- Without attributes among the bytes, the node keeps its own.
unfoldable pub unserialize : Metadata → Bool → Bytes → Option Metadata
unfolding get_xattrs get_children guard_children
unserialize old nil_children b = do
  (user, b₁) ← get32 b
  (group, b₂) ← get32 b₁
  (mode, b₃) ← get32 b₂
  (time, b₄) ← get64 b₃
  (content_key, b₅) ← getb b₄
  (nxattr, b₆) ← get16 b₅
  (xattrs, b₇) ← get_xattrs nxattr b₆ (if nxattr == 0 then old.xattrs else [])
  children ← get_children (length b₇) b₇ (if bit_and mode s_ifdir == 0 then old.children else [])
  guard_children (bit_and mode s_ifdir == 0 && nil_children && not (length b₇ == 0)) (record {
    user = user;
    group = group;
    mode = mode;
    time = time;
    content_key = content_key;
    xattrs = xattrs;
    children = children;
  })
