-- ===== src/Node/Reload/Load.antt =====
-- The new nodes of a loaded node's children, and the reload of a whole node (pkg/node).
use crypt_fs.Prelude.{
  subst, ℕ, suc, ◌<◌, ◌≡◌, ◌≢◌, inl, inr, refl, sym, ◌∙◌, none, some, [], ◌∷◌, ◌++◌, Bytes, ◌==◌,
  bytes_eq, if◌then◌else◌, arith, Bool-cases, Assoc, lookup, insert, All, IsDistinct, IsApart,
  insert-new, IsApart-insert, append_assoc, append-nil,
}
use crypt_fs.Node.Heap.{
  World, set_cell, store_node, existing_node, new_cell, add_known, new_node, mode_not_loaded,
}
use crypt_fs.Node.Tree.Entries.{entry}
use crypt_fs.Node.Reload.{add_children}
use crypt_fs.Node.Reload.Merge.{key_of, IsNewTo, found}

-- The new children stand at the next pointers.
abbrev pub fresh_links : ℕ → Assoc Bytes → Assoc ℕ
fresh_links n [] = []
fresh_links n ((name, key) ∷ children) = (name, n) ∷ fresh_links (suc n) children

lookup-fresh_links :
    (n : ℕ) (name : Bytes) (children : Assoc Bytes)
    → lookup name children ≡ none
    → lookup name (fresh_links n children) ≡ none
unfolding lookup
lookup-fresh_links n name [] h = refl
lookup-fresh_links n name ((j, key) ∷ children) h =
    ground (arith, lookup-fresh_links (suc n) name children)

All-fresh_links :
    (c n : ℕ) (children : Assoc Bytes) → c < n → All (λ l. c ≢ l.1) (fresh_links n children)
All-fresh_links c n [] h = tt
All-fresh_links c n ((name, key) ∷ children) h =
    (λ e. omega (arith, e, h), All-fresh_links c (suc n) children (omega (arith, h)))

module _ {S : Type 0} where
  pub fresh_links-IsNewTo :
      (w : World S) (p n : ℕ) (children : Assoc Bytes)
      → IsDistinct children
      → ((j : Bytes) (c : ℕ) → entry w p j ≡ some c → c < n)
      → IsNewTo w p (fresh_links n children)
  fresh_links-IsNewTo w p n [] d below = tt
  fresh_links-IsNewTo w p n ((name, key) ∷ children) (fresh, d) below = (
    λ j e. let low = below j n e in omega (arith, low),
    lookup-fresh_links (suc n) name children fresh,
    All-fresh_links n (suc n) children (omega arith),
    fresh_links-IsNewTo w p (suc n) children d
        (λ j c e. let low = below j c e in omega (arith, low)),
  )

  pub existing_node-next :
      (name key : Bytes) (w : World S) → (existing_node name key w).1.next ≡ suc w.next
  unfolding existing_node new_cell add_known
  existing_node-next name key w = ground arith

  pub existing_node-cells :
      (name key : Bytes) (w : World S) (r : ℕ)
      → (existing_node name key w).1.cells r
        ≡ (if w.next == r then some (new_node key name mode_not_loaded 0) else w.cells r)
  unfolding existing_node new_cell add_known store_node set_cell
  existing_node-cells name key w r = ground arith

  pub add_children-links :
      (children : Assoc Bytes) (links : Assoc ℕ) (w : World S)
      → IsDistinct children
      → IsApart links children
      → (add_children children links w).0 ≡ links ++ fresh_links w.next children
  unfolding add_children existing_node new_cell
  add_children-links [] links w d a = sym (append-nil links)
  add_children-links ((name, key) ∷ children) links w (fresh, d) (new, a) =
      let w' = (existing_node name key w).1 in
      let n = existing_node-next name key w in
      add_children-links children (insert name w.next links) w' d
        (IsApart-insert name w.next links children fresh a)
      ∙ rw (insert-new name w.next links new, append_assoc, n)

  -- The nodes that were there stay.
  pub add_children-cells :
      (children : Assoc Bytes) (links : Assoc ℕ) (w : World S) (r : ℕ)
      → r < w.next
      → (add_children children links w).1.cells r ≡ w.cells r
  unfolding add_children existing_node new_cell
  add_children-cells [] links w r h = refl
  add_children-cells ((name, key) ∷ children) links w r h =
      let w' = (existing_node name key w).1 in
      let n = existing_node-next name key w in
      add_children-cells children (insert name w.next links) w' r (omega (arith, h, n))
      ∙ existing_node-cells name key w r
      ∙ ground (arith, h)

  pub add_children-keys :
      (children : Assoc Bytes) (links : Assoc ℕ) (w : World S) (j : Bytes)
      → found
          (λ c. key_of ((add_children children links w).1.cells c))
          (lookup j (fresh_links w.next children))
          none
        ≡ lookup j children
  unfolding add_children lookup existing_node new_cell
  add_children-keys [] links w j = refl
  add_children-keys ((name, key) ∷ children) links w j =
      let w' = (existing_node name key w).1 in
      let n = existing_node-next name key w in
      elim (Bool-cases (bytes_eq name j)) [
        | inl same ↦
            rw
              (
                same,
                add_children-cells children (insert name w.next links) w' w.next (omega (arith, n)),
                existing_node-cells name key w w.next,
              )
              (ground arith)
        | inr other ↦ rw other (
            subst
              (λ k.
                found
                  (λ c. key_of ((add_children children (insert name w.next links) w').1.cells c))
                  (lookup j (fresh_links k children)) none
                ≡ lookup j children)
              n (add_children-keys children (insert name w.next links) w' j))
      ]
