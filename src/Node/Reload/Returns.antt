-- ===== src/Node/Reload/Returns.antt =====
-- The merging of children returns (reloadIfNeeded of pkg/node/node.go): no nil pointer is met.
use mathlib.Core.Option.{some-injective}
use crypt_fs.Prelude.{
  subst, ℕ, ◌≡◌, ◌⊎◌, inl, inr, refl, sym, ap, ◌∙◌, Option, none, some, false, [], ◌∷◌, Bytes, ◌==◌,
  ==_iff, bytes_eq, ◌>>=◌, arith, Bool-cases, Option-cases, Assoc, lookup, insert, lookup-insert,
  All,
}
use crypt_fs.Node.Heap.{TreeNode, World, set_cell, store_node}
use crypt_fs.Node.Tree.{edit, link, with_link}
use crypt_fs.Node.Tree.Entries.{child_of, entry}
use crypt_fs.Node.Reload.{
  keep_child, merge_child, merge_children, prune_links, take_over, merge_loaded,
}
use crypt_fs.Node.Reload.Merge.{lookup-prune_links}

-- A pointer leads to a node.
abbrev pub Present : {S : Type 0} → World S → ℕ → Type 0
Present w r = (t : TreeNode) × (w.cells r ≡ some t)

-- A node that is there, with a map of children that are there.
pub record IsAlive {S : Type 0} (w : World S) (p : ℕ) : Type 0 where
  pub self : TreeNode
  pub at : w.cells p ≡ some self
  pub map : self.nil_links ≡ false
  pub children : (j : Bytes) (c : ℕ) → entry w p j ≡ some c → Present w c

with_link-some :
    (name : Bytes) (child : ℕ) (t : TreeNode)
    → t.nil_links ≡ false
    → with_link name child t ≡ some (record t { links = insert name child t.links })
unfolding with_link
with_link-some name child t h = ground arith

lookup-pruned :
    (loaded links : Assoc ℕ) (j : Bytes) (c : ℕ)
    → lookup j (prune_links loaded links) ≡ some c
    → lookup j links ≡ some c
lookup-pruned loaded links j c e = elim (Option-cases (lookup j loaded)) [
  | inl missing ↦ let gone = sym (rw missing at (lookup-prune_links loaded links j)) ∙ e in cc
  | inr (d, there) ↦ sym (rw there at (lookup-prune_links loaded links j)) ∙ e
]

module _ {S : Type 0} where
  lookup-inserted :
      (name j : Bytes) (child c : ℕ) (links : Assoc ℕ) (w : World S)
      → Present w child
      → lookup j (insert name child links) ≡ some c
      → (lookup j links ≡ some c) ⊎ Present w c
  lookup-inserted name j child c links w there e = elim (Bool-cases (bytes_eq name j)) [
    | inl same ↦ inr (subst (Present w) (some-injective _ _ (rw (lookup-insert, same) at e)) there)
    | inr other ↦ inl (rw (lookup-insert, other) at e)
  ]

  Present-store_node :
      (q r : ℕ) (t : TreeNode) (w : World S) → Present w r → Present (store_node q t w) r
  unfolding store_node set_cell
  Present-store_node q r t w (old, h) = elim (Bool-cases (q == r)) [
    | inl here ↦ (t, rw here)
    | inr other ↦ (old, rw other h)
  ]

  All-stays :
      (w w' : World S) (links : Assoc ℕ)
      → ((r : ℕ) → Present w r → Present w' r)
      → All (λ l. Present w l.1) links
      → All (λ l. Present w' l.1) links
  All-stays w w' [] stays there = tt
  All-stays w w' ((name, c) ∷ links) stays (here, there) =
      (stays c here, All-stays w w' links stays there)

  -- A node is written over one: its map stays, and its new children are there.
  module _ (w : World S) (p q : ℕ) (t t' : TreeNode) (h : w.cells q ≡ some t)
      (same : t'.nil_links ≡ t.nil_links)
      (leads : (j : Bytes) (c : ℕ)
        → lookup j t'.links ≡ some c
        → (lookup j t.links ≡ some c) ⊎ Present w c) where
    entry-stored :
        (j : Bytes) (c : ℕ)
        → entry (store_node q t' w) p j ≡ some c
        → (entry w p j ≡ some c) ⊎ Present w c
    unfolding store_node set_cell
    entry-stored j c e = elim (Bool-cases (q == p)) [
      | inr other ↦ inl (rw other at e)
      | inl here ↦
          let at_p : w.cells p ≡ some t = ap w.cells (sym ((==_iff q p).0 here)) ∙ h in
          elim (leads j c (rw here at e)) [
            | inl old ↦ inl (ap (λ k. child_of k j) at_p ∙ old)
            | inr there ↦ inr there
          ]
    ]

    pub store_node-IsAlive : IsAlive w p → IsAlive (store_node q t' w) p
    unfolding store_node set_cell
    store_node-IsAlive a = elim (Bool-cases (q == p)) [
      | inl here ↦
          let at_p : w.cells p ≡ some t = ap w.cells (sym ((==_iff q p).0 here)) ∙ h in
          let is_t : a.self ≡ t = some-injective _ _ (sym a.at ∙ at_p) in
          record {
            self = t';
            at = rw here;
            map = same ∙ ap (λ k. k.nil_links) (sym is_t) ∙ a.map;
            children = λ j c e. elim (entry-stored j c e) [
              | inl old ↦ Present-store_node q c t' w (a.children j c old)
              | inr there ↦ Present-store_node q c t' w there
            ];
          }
      | inr other ↦ record {
        self = a.self;
        at = rw other a.at;
        map = a.map;
        children = λ j c e. elim (entry-stored j c e) [
          | inl old ↦ Present-store_node q c t' w (a.children j c old)
          | inr there ↦ Present-store_node q c t' w there
        ];
      }
    ]

  -- An operation returned, and no node is gone.
  pub record Returns (w : World S) (p : ℕ) (result : Option (World S)) : Type 0 where
    pub after : World S
    pub returned : result ≡ some after
    pub alive : IsAlive after p
    pub stays : (r : ℕ) → Present w r → Present after r

  stored-Returns :
      (w : World S) (p q : ℕ) (t t' : TreeNode)
      → w.cells q ≡ some t
      → t'.nil_links ≡ t.nil_links
      → ((j : Bytes) (c : ℕ)
          → lookup j t'.links ≡ some c
          → (lookup j t.links ≡ some c) ⊎ Present w c)
      → IsAlive w p
      → Returns w p (some (store_node q t' w))
  stored-Returns w p q t t' h same leads a = record {
    after = store_node q t' w;
    returned = refl;
    alive = store_node-IsAlive w p q t t' h same leads a;
    stays = λ r. Present-store_node q r t' w;
  }

  edit-Returns :
      (w : World S) (p q : ℕ) (f : TreeNode → TreeNode)
      → Present w q
      → ((t : TreeNode) → (f t).nil_links ≡ t.nil_links)
      → ((t : TreeNode) (j : Bytes) (c : ℕ)
          → lookup j (f t).links ≡ some c
          → lookup j t.links ≡ some c)
      → IsAlive w p
      → Returns w p (edit q f w)
  unfolding edit
  edit-Returns w p q f (t, h) same leads a =
      rw h (stored-Returns w p q t (f t) h (same t) (λ j c e. inl (leads t j c e)) a)

  keep_child-Returns :
      (w : World S) (p prev child : ℕ)
      → Present w prev
      → Present w child
      → IsAlive w p
      → Returns w p (keep_child prev child w)
  unfolding keep_child
  keep_child-Returns w p prev child (old, h) (new, k) a =
      elim (Bool-cases (bytes_eq old.node.key new.node.key)) [
        | inl equal ↦
            rw (h, k, equal)
              (record { after = w; returned = refl; alive = a; stays = λ r there. there })
        | inr differ ↦ rw (h, k, differ) (stored-Returns w p prev old _ h refl (λ j c e. inl e) a)
      ]

  link-Returns :
      (w : World S) (p : ℕ) (name : Bytes) (child : ℕ)
      → Present w child
      → IsAlive w p
      → Returns w p (link p name child w)
  unfolding link
  link-Returns w p name child there a =
      let linked : link p name child w
          ≡ some (store_node p (record a.self { links = insert name child a.self.links }) w) =
        rw (a.at, with_link-some name child a.self a.map, link) in
      subst (Returns w p) (sym linked) (
        stored-Returns w p p a.self (record a.self { links = insert name child a.self.links }) a.at
          refl (λ j c e. lookup-inserted name j child c a.self.links w there e) a)

  -- What merging does, by where the name leads.
  abbrev merge_found : ℕ → Bytes → ℕ → World S → Option ℕ → Option (World S)
  merge_found p name child w (some prev) = keep_child prev child w
  merge_found p name child w none = do
    w' ← edit child (λ c. record c { name = name }) w
    link p name child w'

  merge_child-at :
      (w : World S) (p : ℕ) (name : Bytes) (child : ℕ) (t : TreeNode)
      → w.cells p ≡ some t
      → merge_child p name child w ≡ merge_found p name child w (lookup name t.links)
  unfolding merge_child
  merge_child-at w p name child t h =
      ap (λ (c : Option TreeNode). c >>= (λ t'. merge_found p name child w (lookup name t'.links)))
        h

  merge_child-Returns :
      (w : World S) (p : ℕ) (name : Bytes) (child : ℕ)
      → Present w child
      → IsAlive w p
      → Returns w p (merge_child p name child w)
  unfolding merge_child
  merge_child-Returns w p name child there a = elim (Option-cases (lookup name a.self.links)) [
    | inr (prev, leads) ↦
        let there' = a.children name prev (ap (λ k. child_of k name) a.at ∙ leads) in
        let kept : merge_child p name child w ≡ keep_child prev child w =
          merge_child-at w p name child a.self a.at ∙ ap (merge_found p name child w) leads in
        subst (Returns w p) (sym kept) (keep_child-Returns w p prev child there' there a)
    | inl missing ↦
        let r =
          edit-Returns w p child (λ c. record c { name = name }) there (λ t. refl) (λ t j c e. e)
            a in
        let s = link-Returns r.after p name child (r.stays child there) r.alive in
        let linked : merge_child p name child w ≡ some s.after =
          merge_child-at w p name child a.self a.at
          ∙ ap (merge_found p name child w) missing
          ∙ rw r.returned s.returned in
        record {
          after = s.after;
          returned = linked;
          alive = s.alive;
          stays = λ q h. s.stays q (r.stays q h);
        }
  ]

  merge_children-Returns :
      (w : World S) (p : ℕ) (links : Assoc ℕ)
      → All (λ l. Present w l.1) links
      → IsAlive w p
      → Returns w p (merge_children p links w)
  unfolding merge_children
  merge_children-Returns w p [] there a = record {
    after = w;
    returned = refl;
    alive = a;
    stays = λ r h. h;
  }
  merge_children-Returns w p ((name, child) ∷ links) (here, there) a =
      let r = merge_child-Returns w p name child here a in
      let s =
        merge_children-Returns r.after p links (All-stays w r.after links r.stays there) r.alive in
      rw (r.returned, s.returned)
        (record {
          after = s.after;
          returned = refl;
          alive = s.alive;
          stays = λ q h. s.stays q (r.stays q h);
        })

  -- Where the node, its children and the loaded children are there, the merge returns.
  pub merge_loaded-Returns :
      (w : World S) (p : ℕ) (loaded : TreeNode)
      → All (λ l. Present w l.1) loaded.links
      → IsAlive w p
      → Returns w p (merge_loaded p loaded w)
  unfolding merge_loaded
  merge_loaded-Returns w p loaded there a =
      let r = edit-Returns w p p (take_over loaded) (a.self, a.at) (λ t. refl) (λ t j c e. e) a in
      let s =
        merge_children-Returns r.after p loaded.links
          (All-stays w r.after loaded.links r.stays there) r.alive in
      let u =
        edit-Returns s.after p p (λ t. record t { links = prune_links loaded.links t.links })
          (s.alive.self, s.alive.at) (λ t. refl)
          (λ t j c e. lookup-pruned loaded.links t.links j c e) s.alive in
      rw (r.returned, s.returned, u.returned)
        (record {
          after = u.after;
          returned = refl;
          alive = u.alive;
          stays = λ q h. u.stays q (s.stays q (r.stays q h));
        })
