-- ===== src/Node/Metadata/Loops.antt =====
-- The loops of `unserialize` in pkg/node/metadata.go, on the entries of a map.
use crypt_fs.Prelude.{
  ℕ, zero, suc, ◌^◌, ◌≤◌, ◌<◌, ◌≡◌, ◌⊎◌, ◌≢◌, inl, inr, refl, ap, ◌∙◌, false, ◌==◌, some, [], ◌∷◌,
  ◌++◌, Bytes, if◌then◌else◌, ◌==◌, length, length-append, arith, append-nil, append_assoc, Assoc,
  take-all, insert, IsDistinct, IsApart, insert-new, IsApart-nil, IsApart-insert,
}
use crypt_fs.Bits.Wire.{prefixed, gets-prefixed, getb-gets}
use crypt_fs.Node.Metadata.{node_key_len, get_xattrs, get_children, to_node_key}
use crypt_fs.Node.Metadata.Writers.{Fits, entries_bytes}
use crypt_fs.Node.Metadata.Format.{HasNodeKeys}

entries_split :
    (k v : Bytes) (entries : Assoc Bytes) (rest : Bytes)
    → entries_bytes ((k, v) ∷ entries) ++ rest
      ≡ prefixed k ++ (prefixed v ++ (entries_bytes entries ++ rest))
entries_split k v entries rest =
    append_assoc (prefixed k) (prefixed v ++ entries_bytes entries) rest
    ∙ ap (λ t. prefixed k ++ t) (append_assoc (prefixed v) (entries_bytes entries) rest)

-- The loop over the attributes adds the entries that it reads.
get_xattrs-entries_bytes :
    (entries acc : Assoc Bytes) (rest : Bytes)
    → Fits entries
    → IsDistinct entries
    → IsApart acc entries
    → get_xattrs (length entries) (entries_bytes entries ++ rest) acc ≡ some (acc ++ entries, rest)
unfolding get_xattrs
get_xattrs-entries_bytes [] acc rest f d a = rw append-nil
get_xattrs-entries_bytes ((k, v) ∷ entries) acc rest f d a =
    let tail = entries_bytes entries ++ rest in
    rw (
      entries_split k v entries rest,
      gets-prefixed k (prefixed v ++ tail) f.0,
      getb-gets,
      gets-prefixed v tail f.1,
      get_xattrs-entries_bytes entries (insert k v acc) rest f.2 d.1
          (IsApart-insert k v acc entries d.0 a.1),
      insert-new k v acc a.0,
      append_assoc,
    )

-- A key of 20 bytes goes whole into a node key.
pub to_node_key_lem : (key : Bytes) → length key ≡ node_key_len → to_node_key key ≡ key
unfolding to_node_key
to_node_key_lem key h = rw (take-all node_key_len key (omega arith), h) (append-nil key)

-- One round of the loop over the children.
get_children_step :
    (fuel : ℕ) (k v : Bytes) (entries acc : Assoc Bytes)
    → length k < 2 ^ 16
    → length v < 2 ^ 16
    → get_children (suc fuel) (entries_bytes ((k, v) ∷ entries)) acc
      ≡ get_children fuel (entries_bytes entries) (insert k (to_node_key v) acc)
unfolding get_children
get_children_step fuel k v entries acc hk hv = rw (
  gets-prefixed k (prefixed v ++ entries_bytes entries) hk,
  getb-gets,
  gets-prefixed v (entries_bytes entries) hv,
)

-- The loop over the children adds the entries that it reads, to the end of the bytes. It takes no
-- more rounds than there are bytes.
get_children-entries_bytes :
    (fuel : ℕ) (entries acc : Assoc Bytes)
    → length (entries_bytes entries) ≤ fuel
    → Fits entries
    → HasNodeKeys entries
    → IsDistinct entries
    → IsApart acc entries
    → get_children fuel (entries_bytes entries) acc ≡ some (acc ++ entries)
unfolding get_children
get_children-entries_bytes zero [] acc h f n d a = rw append-nil
get_children-entries_bytes (suc fuel) [] acc h f n d a = rw append-nil
get_children-entries_bytes zero ((k, v) ∷ entries) acc h f n d a = absurd (omega arith)
get_children-entries_bytes (suc fuel) ((k, v) ∷ entries) acc h f n d a =
    let shorter : length (entries_bytes entries) ≤ fuel = omega (
      arith,
      length-append (prefixed k) (prefixed v ++ entries_bytes entries),
      length-append (prefixed v) (entries_bytes entries),
    ) in
    get_children_step fuel k v entries acc f.0 f.1
    ∙ rw (
      to_node_key_lem v n.0,
      get_children-entries_bytes fuel entries (insert k v acc) shorter f.2 n.1 d.1
          (IsApart-insert k v acc entries d.0 a.1),
      insert-new k v acc a.0,
      append_assoc,
    )

pub get_xattrs-all :
    (old entries : Assoc Bytes) (rest : Bytes)
    → Fits entries
    → IsDistinct entries
    → get_xattrs
        (length entries)
        (entries_bytes entries ++ rest)
        (if length entries == 0 then old else [])
      ≡ some (if length entries == 0 then old else entries, rest)
unfolding get_xattrs
get_xattrs-all old [] rest f d = refl
get_xattrs-all old ((k, v) ∷ entries) rest f d =
    let some_entry : (length ((k, v) ∷ entries) == 0) ≡ false = ground arith in
    rw some_entry (
      get_xattrs-entries_bytes ((k, v) ∷ entries) [] rest f d
        (IsApart-nil Bytes ((k, v) ∷ entries)))

pub get_children-all :
    (n : ℕ) (old entries : Assoc Bytes)
    → Fits entries
    → HasNodeKeys entries
    → IsDistinct entries
    → (n ≢ 0) ⊎ (entries ≡ [])
    → get_children
        (length (entries_bytes entries))
        (entries_bytes entries)
        (if n == 0 then old else [])
      ≡ some (if n == 0 then old else entries)
unfolding get_children
get_children-all n old [] f k d h = ground arith
get_children-all n old (e ∷ entries) f k d (inr h) = cc
get_children-all n old (e ∷ entries) f k d (inl h) =
    let self : length (entries_bytes (e ∷ entries)) ≤ length (entries_bytes (e ∷ entries)) =
      omega arith in
    let other : (n == 0) ≡ false = ground arith in
    rw other (
      get_children-entries_bytes (length (entries_bytes (e ∷ entries))) (e ∷ entries) [] self f k d
        (IsApart-nil Bytes (e ∷ entries)))
