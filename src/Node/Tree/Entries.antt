-- ===== src/Node/Tree/Entries.antt =====
-- Where the names of each directory lead after the operations of pkg/node/node.go.
use mathlib.Core.Option.{some-injective}
use crypt_fs.Prelude.{
  subst, ℕ, ◌≡◌, inl, inr, refl, ap, ◌∙◌, Option, none, some, Bool, false, ◌&&◌, Bytes, ◌==◌,
  bytes_eq, ==_iff, ◌>>=◌, >>=-eq-some, if◌then◌else◌, lookup, delete, lookup-insert, lookup-delete,
  arith, Bool-cases,
}
use crypt_fs.Storage.{Store}
use crypt_fs.Storage.Versioned.{VersionedStore}
use crypt_fs.Node.File.{Errno, sync}
use crypt_fs.Node.Heap.{TreeNode, World, set_cell, store_node}
use crypt_fs.Node.Tree.{with_link, keys_of, edit, link, Tree, sync_at}

-- Where a name of the directory at a pointer leads.
abbrev pub child_of : Option TreeNode → Bytes → Option ℕ
child_of none name = none
child_of (some t) name = lookup name t.links

abbrev pub entry : {S : Type 0} → World S → ℕ → Bytes → Option ℕ
entry w p name = child_of (w.cells p) name

-- The names lead where they led before.
pub record SameEntries {S : Type 0} (w w' : World S) : Type 0 where
  pub at : (q : ℕ) (j : Bytes) → entry w' q j ≡ entry w q j

-- One name of one directory leads to `x` afterwards, or nowhere, and the others where they led.
pub record Leads {S : Type 0} (w w' : World S) (p : ℕ) (name : Bytes) (x : Option ℕ) : Type 0 where
  pub at :
      (q : ℕ) (j : Bytes) → entry w' q j ≡ (if p == q && bytes_eq name j then x else entry w q j)

with_link-lookup :
    (name : Bytes) (child : ℕ) (t t' : TreeNode) (j : Bytes)
    → with_link name child t ≡ some t'
    → lookup j t'.links ≡ (if bytes_eq name j then some child else lookup j t.links)
unfolding with_link
with_link-lookup name child t t' j e = ground (arith, lookup-insert name j child t.links)

module _ {S : Type 0} where
  pub SameEntries-trans : {u w v : World S} → SameEntries u w → SameEntries w v → SameEntries u v
  SameEntries-trans h k = record { at = λ q j. k.at q j ∙ h.at q j }

  -- A node is written over one whose links differ at a name, where `b` holds, and lead to `x` there.
  pub entry-store_node :
      (p q : ℕ) (t t' : TreeNode) (w : World S) (j : Bytes) (b : Bool) (x : Option ℕ)
      → w.cells p ≡ some t
      → lookup j t'.links ≡ (if b then x else lookup j t.links)
      → entry (store_node p t' w) q j ≡ (if p == q && b then x else entry w q j)
  unfolding store_node set_cell
  entry-store_node p q t t' w j b x h l = elim (Bool-cases (p == q)) [
    | inr other ↦ rw other
    | inl same ↦
        let here' : entry w q j ≡ lookup j t.links =
          rw ((==_iff p q).0 same) at (ap (λ c. child_of c j) h) in
        rw (same, here') l
  ]

  pub edited :
      (p : ℕ) (f : TreeNode → TreeNode) (w w' : World S)
      → edit p f w ≡ some w'
      → (t : TreeNode) × (w.cells p ≡ some t) × (store_node p (f t) w ≡ w')
  unfolding edit
  edited p f w w' e =
      let (t, h, e') = >>=-eq-some (w.cells p) (λ t. some (store_node p (f t) w)) e in
      (t, h, some-injective _ _ e')

  -- An edit that keeps the links.
  pub edit-entry :
      (p : ℕ) (f : TreeNode → TreeNode) (w w' : World S)
      → ((t : TreeNode) → (f t).links ≡ t.links)
      → edit p f w ≡ some w'
      → SameEntries w w'
  edit-entry p f w w' keeps e =
      let (t, h, e') = edited p f w w' e in
      subst (SameEntries w) e' (record {
        at = λ q j.
            entry-store_node p q t (f t) w j false none h (ap (λ l. lookup j l) (keeps t))
            ∙ ground arith;
      })

  pub edit-without_link :
      (p : ℕ) (name : Bytes) (f : TreeNode → TreeNode) (w w' : World S)
      → ((t : TreeNode) → (f t).links ≡ delete name t.links)
      → edit p f w ≡ some w'
      → Leads w w' p name none
  edit-without_link p name f w w' cuts e =
      let (t, h, e') = edited p f w w' e in
      subst (λ v. Leads w v p name none) e'
        (record {
          at = λ q j.
              entry-store_node p q t (f t) w j (bytes_eq name j) none h
                (rw cuts (lookup-delete name j t.links));
        })

  pub link-entry :
      (p : ℕ) (name : Bytes) (child : ℕ) (w w' : World S)
      → link p name child w ≡ some w'
      → Leads w w' p name (some child)
  unfolding link
  link-entry p name child w w' e =
      let (t, h, e₁) =
        >>=-eq-some (w.cells p) (λ t. do t' ← with_link name child t; some (store_node p t' w)) e in
      let (t', h', e₂) = >>=-eq-some (with_link name child t) (λ t'. some (store_node p t' w)) e₁ in
      subst (λ v. Leads w v p name (some child)) (some-injective _ _ e₂)
        (record {
          at = λ q j.
              entry-store_node p q t t' w j (bytes_eq name j) (some child) h
                (with_link-lookup name child t t' j h');
        })

module _ (sum512 : Bytes → Bytes) (blobs : Store) (meta : VersionedStore) where
  pub sync_at-entry :
      (p : ℕ) (w w' : Tree sum512 blobs meta) (errno : Errno)
      → sync_at sum512 blobs meta p w ≡ some (w', errno)
      → SameEntries w w'
  unfolding sync_at
  sync_at-entry p w w' errno e =
      let (t, h, e₁) = >>=-eq-some (w.cells p) _ e in
      let (children, h₁, e₂) = >>=-eq-some (keys_of w.cells t.links) _ e₁ in
      let ((node, stores, x), h₂, e₃) = >>=-eq-some (sync sum512 blobs meta _ w.stores) _ e₂ in
      subst (λ v. SameEntries w v.0) (some-injective _ _ e₃)
        (record {
          at = λ q j.
              entry-store_node p q t (record t { node = node }) w j false none h refl
              ∙ ground arith;
        })
