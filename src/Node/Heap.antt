-- ===== src/Node/Heap.antt =====
-- pkg/node/nodefcatory.go, and the nodes that it makes: a heap of nodes that lead to each other.
-- A pointer to a node is a number. go-fuse's own tree of inodes, which follows the children, and the
-- inode numbers are left out; so are the locks of the nodes, which make each operation one step.
use crypt_fs.Prelude.{
  ℕ, suc, Option, none, some, Bool, true, false, [], Bytes, ◌==◌, ◌>>=◌, if◌then◌else◌, Assoc,
  lookup, insert, length, leb,
}
use crypt_fs.Message.{Message, get_key, get_version}
use crypt_fs.Node.Metadata.{node_key_len, to_node_key}
use crypt_fs.Node.File.{CryptNode}

abbrev pub mode_not_loaded : ℕ
mode_not_loaded = 0xffffffff

-- A CryptNode of the heap. `links` is its map of children, which may be nil; the children in its
-- metadata are filled in from there when it is saved.
pub record TreeNode : Type 0 where
  pub node : CryptNode
  pub name : Bytes
  pub links : Assoc ℕ
  pub nil_links : Bool

abbrev pub Cells : Type 0
Cells = ℕ → Option TreeNode

unfoldable pub set_cell : Cells → ℕ → TreeNode → Cells
set_cell cells p t q = if p == q then some t else cells q

-- The nodes, the next free pointer, the factory's map of known nodes, and the states of the stores.
pub record World (S : Type 0) : Type 0 where
  pub cells : Cells
  pub next : ℕ
  pub known : Assoc ℕ
  pub stores : S

-- A new CryptNode with a key.
abbrev pub new_node : Bytes → Bytes → ℕ → ℕ → TreeNode
new_node key name mode time = record {
  node = record {
    should_save_metadata = false;
    should_reload_metadata = false;
    should_save_content = false;
    metadata = record {
      user = 0;
      group = 0;
      mode = mode;
      time = time;
      content_key = [];
      xattrs = [];
      children = [];
    };
    key = key;
    version = 0;
    content = [];
    spare = [];
  };
  name = name;
  links = [];
  nil_links = true;
}

abbrev pub mark_for_reload : TreeNode → TreeNode
mark_for_reload t = record t { node = record t.node { should_reload_metadata = true } }

module _ {S : Type 0} where
  -- *p = t
  unfoldable pub store_node : ℕ → TreeNode → World S → World S
  unfolding set_cell
  store_node p t w = record w { cells = set_cell w.cells p t }

  unfoldable pub add_known : Bytes → ℕ → World S → World S
  add_known key p w = elim (lookup key w.known) [
    | some q ↦ w
    | none ↦ record w { known = insert key p w.known }
  ]

  unfoldable pub get_known : Bytes → World S → Option ℕ
  get_known key w = lookup key w.known

  -- &t
  unfoldable pub new_cell : TreeNode → World S → ℕ × World S
  unfolding store_node
  new_cell t w = (w.next, record (store_node w.next t w) { next = suc w.next })

  -- The zero time is written as 0.
  unfoldable pub existing_node : Bytes → Bytes → World S → ℕ × World S
  unfolding new_cell add_known
  existing_node name key w =
      let (p, w') = new_cell (new_node key name mode_not_loaded 0) w in (p, add_known key p w')

  -- `random` is what rand.Read puts into the key, or none for its error; `now` is the clock's time.
  unfoldable pub allocate_node : Option Bytes → ℕ → World S → Option (ℕ × World S)
  unfolding new_cell add_known
  allocate_node none now w = none
  allocate_node (some key) now w =
      let (p, w') = new_cell (new_node key [] 0 now) w in some (p, add_known key p w')

  unfoldable pub invalidate_known : ℕ → ℕ → World S → Option (World S)
  unfolding store_node
  invalidate_known version p w = do
    t ← w.cells p
    some (if leb version t.node.version then w else store_node p (mark_for_reload t) w)

  unfoldable pub invalidate_key : Bytes → Message → World S → Option (World S)
  unfolding get_known invalidate_known
  invalidate_key key mutation w = elim (get_known (to_node_key key) w) [
    | none ↦ some w
    | some p ↦ do version ← get_version mutation; invalidate_known version p w
  ]

  -- `none` is a panic: of the accessors, at a message that is not a put.
  unfoldable pub invalidate_cache : Message → World S → Option (World S)
  unfolding invalidate_key
  invalidate_cache mutation w = do
    key ← get_key mutation
    if length key == node_key_len then invalidate_key key mutation w else some w
