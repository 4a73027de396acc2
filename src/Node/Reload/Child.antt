-- ===== src/Node/Reload/Child.antt =====
-- One child of a node that is reloaded (reloadIfNeeded of pkg/node/node.go).
use mathlib.Core.Option.{some-injective}
use crypt_fs.Prelude.{
  subst, ℕ, ◌≡◌, ◌⊎◌, inl, inr, refl, ap, ◌∙◌, Option, none, some, true, false, Bytes, ◌==◌, ==_iff,
  bytes_eq, bytes_eq_iff, ◌>>=◌, >>=-eq-some, if◌then◌else◌, arith, Bool-cases, Option-cases,
  lookup,
}
use crypt_fs.Node.Heap.{TreeNode, World, set_cell, store_node}
use crypt_fs.Node.Tree.{edit, link, with_link}
use crypt_fs.Node.Tree.Entries.{child_of, entry, entry-store_node, edited, edit-entry, link-entry}
use crypt_fs.Node.Reload.{keep_child, merge_child}

abbrev pub key_of : Option TreeNode → Option Bytes
key_of none = none
key_of (some t) = some t.node.key

-- The key of the child that a name leads to.
abbrev pub key_at : {S : Type 0} → World S → ℕ → Bytes → Option Bytes
key_at w p j = entry w p j >>= λ c. key_of (w.cells c)

-- No two names of a directory lead to one child.
pub record IsSeparate {S : Type 0} (w : World S) (p : ℕ) : Type 0 where
  pub apart :
      (i j : Bytes) (r : ℕ) → entry w p i ≡ some r → entry w p j ≡ some r → bytes_eq i j ≡ true

-- What a new child does to a directory: its name leads to the `target`, which was there or is the new
-- child, and has the new child's key.
pub record Merged {S : Type 0} (w w' : World S) (p : ℕ) (name : Bytes) (child : ℕ) : Type 0 where
  pub target : ℕ
  pub was : (entry w p name ≡ some target) ⊎ ((entry w p name ≡ none) × (target ≡ child))
  pub entries : (j : Bytes) → entry w' p j ≡ (if bytes_eq name j then some target else entry w p j)
  pub keys :
      (r : ℕ)
      → key_of (w'.cells r) ≡ (if target == r then key_of (w.cells child) else key_of (w.cells r))

with_link-key :
    (name : Bytes) (child : ℕ) (t t' : TreeNode)
    → with_link name child t ≡ some t'
    → t'.node.key ≡ t.node.key
unfolding with_link
with_link-key name child t t' e = ground arith

module _ {S : Type 0} where
  key_of-store_node :
      (p r : ℕ) (t : TreeNode) (w : World S)
      → key_of ((store_node p t w).cells r)
        ≡ (if p == r then some t.node.key else key_of (w.cells r))
  unfolding store_node set_cell
  key_of-store_node p r t w = ground arith

  -- An edit that keeps the key.
  pub edit-key_of :
      (p : ℕ) (f : TreeNode → TreeNode) (w w' : World S)
      → ((t : TreeNode) → (f t).node.key ≡ t.node.key)
      → edit p f w ≡ some w'
      → (r : ℕ) → key_of (w'.cells r) ≡ key_of (w.cells r)
  edit-key_of p f w w' keeps e r =
      let (t, h, e') = edited p f w w' e in
      subst (λ v. key_of (v.cells r) ≡ key_of (w.cells r)) e'
        (key_of-store_node p r (f t) w ∙ ground (arith, keeps t, h, ==_iff p r))

  link-key_of :
      (p : ℕ) (name : Bytes) (child : ℕ) (w w' : World S)
      → link p name child w ≡ some w'
      → (r : ℕ) → key_of (w'.cells r) ≡ key_of (w.cells r)
  unfolding link
  link-key_of p name child w w' e r =
      let (t, h, e₁) = >>=-eq-some (w.cells p) _ e in
      let (t', h', e₂) = >>=-eq-some (with_link name child t) _ e₁ in
      let key = with_link-key name child t t' h' in
      subst (λ v. key_of (v.cells r) ≡ key_of (w.cells r)) (some-injective _ _ e₂)
        (key_of-store_node p r t' w ∙ ground (arith, key, h, ==_iff p r))

  module _ (p : ℕ) (name : Bytes) (prev child : ℕ) (w : World S)
      (was : entry w p name ≡ some prev) where
    same_entries : (j : Bytes) → entry w p j ≡ (if bytes_eq name j then some prev else entry w p j)
    same_entries j = ground (arith, was, bytes_eq_iff name j)

    same_key-Merged :
        (old new : TreeNode)
        → w.cells prev ≡ some old
        → w.cells child ≡ some new
        → bytes_eq old.node.key new.node.key ≡ true
        → Merged w w p name child
    same_key-Merged old new h k same = record {
      target = prev;
      was = inl was;
      entries = same_entries;
      keys =
          λ r. ground (arith, h, k, (bytes_eq_iff old.node.key new.node.key).0 same, ==_iff prev r);
    }

    new_key-Merged :
        (old new t : TreeNode)
        → w.cells prev ≡ some old
        → w.cells child ≡ some new
        → t.links ≡ old.links
        → t.node.key ≡ new.node.key
        → Merged w (store_node prev t w) p name child
    new_key-Merged old new t h k links key = record {
      target = prev;
      was = inl was;
      entries = λ j.
          entry-store_node prev p old t w j false none h (ap (λ l. lookup j l) links)
          ∙ ground (arith, same_entries j);
      keys = λ r. key_of-store_node prev r t w ∙ rw (k, key);
    }

    keep_child-Merged :
        (w' : World S) → keep_child prev child w ≡ some w' → Merged w w' p name child
    unfolding keep_child
    keep_child-Merged w' e =
        let (old, h, e₁) = >>=-eq-some (w.cells prev) _ e in
        let (new, k, e₂) = >>=-eq-some (w.cells child) _ e₁ in
        let same = some-injective _ _ e₂ in
        subst (λ v. Merged w v p name child) same
          (elim (Bool-cases (bytes_eq old.node.key new.node.key)) [
            | inl equal ↦ rw equal (same_key-Merged old new h k equal)
            | inr differ ↦ rw differ (new_key-Merged old new _ h k refl refl)
          ])

  pub merge_child-Merged :
      (p : ℕ) (name : Bytes) (child : ℕ) (w w' : World S)
      → merge_child p name child w ≡ some w'
      → Merged w w' p name child
  unfolding merge_child
  merge_child-Merged p name child w w' e =
      let (t, h, e₁) = >>=-eq-some (w.cells p) _ e in
      let here' : entry w p name ≡ lookup name t.links = ap (λ c. child_of c name) h in
      elim (Option-cases (lookup name t.links)) [
        | inr (prev, leads) ↦
            keep_child-Merged p name prev child w (here' ∙ leads) w' (rw leads at e₁)
        | inl missing ↦
            let (w₁, h₁, e₂) =
              >>=-eq-some (edit child (λ c. record c { name = name }) w) _ (rw missing at e₁) in
            let named = edit-entry child (λ c. record c { name = name }) w w₁ (λ c. refl) h₁ in
            let linked = link-entry p name child w₁ w' e₂ in
            record {
              target = child;
              was = inr (here' ∙ missing, refl);
              entries = λ j. linked.at p j ∙ ground (arith, named.at p j);
              keys = λ r.
                  link-key_of p name child w₁ w' e₂ r
                  ∙ edit-key_of child (λ c. record c { name = name }) w w₁ (λ c. refl) h₁ r
                  ∙ ground (arith, ==_iff child r);
            }
      ]
