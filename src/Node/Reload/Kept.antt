-- ===== src/Node/Reload/Kept.antt =====
-- What the merging of children keeps of every node (reloadIfNeeded of pkg/node/node.go).
use mathlib.Core.Option.{some-injective}
use crypt_fs.Prelude.{
  subst, ℕ, ◌≡◌, inl, inr, refl, sym, ap, ◌∙◌, Option, none, some, [], ◌∷◌, Bytes, ◌==◌, ==_iff,
  bytes_eq, >>=-eq-some, arith, Bool-cases, Option-cases, Assoc, lookup,
}
use crypt_fs.Node.Metadata.{Metadata}
use crypt_fs.Node.Heap.{TreeNode, World, set_cell, store_node}
use crypt_fs.Node.Tree.{edit, link, with_link}
use crypt_fs.Node.Tree.Entries.{edited}
use crypt_fs.Node.Reload.{
  keep_child, merge_child, merge_children, merge_loaded, prune_links, take_over,
}

-- What a node has from the metadata server, but for its children.
abbrev pub loaded_of : Option TreeNode → Option (Metadata × ℕ)
loaded_of none = none
loaded_of (some t) = some (t.node.metadata, t.node.version)

abbrev SameLoaded : {S : Type 0} → World S → World S → Type 0
SameLoaded w w' = (r : ℕ) → loaded_of (w'.cells r) ≡ loaded_of (w.cells r)

with_link-loaded :
    (name : Bytes) (child : ℕ) (t t' : TreeNode)
    → with_link name child t ≡ some t'
    → loaded_of (some t') ≡ loaded_of (some t)
unfolding with_link
with_link-loaded name child t t' e = ground arith

module _ {S : Type 0} where
  loaded_of-store_node :
      (p : ℕ) (t t' : TreeNode) (w : World S)
      → w.cells p ≡ some t
      → loaded_of (some t') ≡ loaded_of (some t)
      → SameLoaded w (store_node p t' w)
  unfolding store_node set_cell
  loaded_of-store_node p t t' w h same r = elim (Bool-cases (p == r)) [
    | inl here ↦
        rw here
          (same ∙ ap loaded_of (sym h) ∙ ap (λ q. loaded_of (w.cells q)) ((==_iff p r).0 here))
    | inr other ↦ rw other
  ]

  loaded_of-stored :
      (p : ℕ) (t : TreeNode) (w : World S)
      → loaded_of ((store_node p t w).cells p) ≡ loaded_of (some t)
  unfolding store_node set_cell
  loaded_of-stored p t w = ground arith

  edit-loaded :
      (p : ℕ) (f : TreeNode → TreeNode) (w w' : World S)
      → ((t : TreeNode) → loaded_of (some (f t)) ≡ loaded_of (some t))
      → edit p f w ≡ some w'
      → SameLoaded w w'
  edit-loaded p f w w' keeps e =
      let (t, h, e') = edited p f w w' e in
      subst (SameLoaded w) e' (loaded_of-store_node p t (f t) w h (keeps t))

  link-loaded :
      (p : ℕ) (name : Bytes) (child : ℕ) (w w' : World S)
      → link p name child w ≡ some w'
      → SameLoaded w w'
  unfolding link
  link-loaded p name child w w' e =
      let (t, h, e₁) = >>=-eq-some (w.cells p) _ e in
      let (t', h', e₂) = >>=-eq-some (with_link name child t) _ e₁ in
      subst (SameLoaded w) (some-injective _ _ e₂)
        (loaded_of-store_node p t t' w h (with_link-loaded name child t t' h'))

  keep_child-loaded :
      (prev child : ℕ) (w w' : World S) → keep_child prev child w ≡ some w' → SameLoaded w w'
  unfolding keep_child
  keep_child-loaded prev child w w' e =
      let (old, h, e₁) = >>=-eq-some (w.cells prev) _ e in
      let (new, k, e₂) = >>=-eq-some (w.cells child) _ e₁ in
      subst (SameLoaded w) (some-injective _ _ e₂)
        (elim (Bool-cases (bytes_eq old.node.key new.node.key)) [
          | inl equal ↦ rw equal (λ r. refl)
          | inr differ ↦ rw differ (loaded_of-store_node prev old _ w h refl)
        ])

  merge_child-loaded :
      (p : ℕ) (name : Bytes) (child : ℕ) (w w' : World S)
      → merge_child p name child w ≡ some w'
      → SameLoaded w w'
  unfolding merge_child
  merge_child-loaded p name child w w' e =
      let (t, h, e₁) = >>=-eq-some (w.cells p) _ e in
      elim (Option-cases (lookup name t.links)) [
        | inr (prev, leads) ↦ keep_child-loaded prev child w w' (rw leads at e₁)
        | inl missing ↦
            let (w₁, h₁, e₂) =
              >>=-eq-some (edit child (λ c. record c { name = name }) w) _ (rw missing at e₁) in
            λ r.
              link-loaded p name child w₁ w' e₂ r
              ∙ edit-loaded child (λ c. record c { name = name }) w w₁ (λ c. refl) h₁ r
      ]

  merge_children-loaded :
      (p : ℕ) (links : Assoc ℕ) (w w' : World S)
      → merge_children p links w ≡ some w'
      → SameLoaded w w'
  unfolding merge_children
  merge_children-loaded p [] w w' e =
      λ r. ap (λ v. loaded_of (v.cells r)) (sym (some-injective _ _ e))
  merge_children-loaded p ((name, child) ∷ links) w w' e =
      let (w₁, h, e₁) = >>=-eq-some (merge_child p name child w) _ e in
      λ r. merge_children-loaded p links w₁ w' e₁ r ∙ merge_child-loaded p name child w w₁ h r

  pub merge_loaded-loaded :
      (p : ℕ) (loaded : TreeNode) (w w' : World S)
      → merge_loaded p loaded w ≡ some w'
      → loaded_of (w'.cells p) ≡ loaded_of (some loaded)
  unfolding merge_loaded
  merge_loaded-loaded p loaded w w' e =
      let (w₁, h₁, e₁) = >>=-eq-some (edit p (take_over loaded) w) _ e in
      let (w₂, h₂, e₂) = >>=-eq-some (merge_children p loaded.links w₁) _ e₁ in
      edit-loaded p (λ t. record t { links = prune_links loaded.links t.links }) w₂ w' (λ t. refl)
        e₂ p
      ∙ merge_children-loaded p loaded.links w₁ w₂ h₂ p
      ∙ (let (t, h, e') = edited p (take_over loaded) w w₁ h₁ in
          subst (λ v. loaded_of (v.cells p) ≡ loaded_of (some loaded)) e'
            (loaded_of-stored p (take_over loaded t) w))
