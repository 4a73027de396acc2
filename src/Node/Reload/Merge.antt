-- ===== src/Node/Reload/Merge.antt =====
-- The children of a node that is reloaded (reloadIfNeeded of pkg/node/node.go).
use mathlib.Core.Option.{some-injective}
use crypt_fs.Prelude.{
  subst, ℕ, ◌≡◌, ◌≢◌, ◌⊎◌, inl, inr, refl, sym, ap, ◌∙◌, Option, none, some, true, false, [], ◌∷◌,
  Bytes, ◌==◌, ==_iff, bytes_eq, bytes_eq_iff, ◌>>=◌, >>=-eq-some, if◌then◌else◌, arith, Bool-cases,
  Option-cases, Assoc, lookup, All,
}
use crypt_fs.Node.Heap.{TreeNode, World, set_cell, store_node}
use crypt_fs.Node.Tree.{edit}
use crypt_fs.Node.Tree.Entries.{child_of, entry, SameEntries, edited, edit-entry}
use crypt_fs.Node.Reload.{merge_child, merge_children, prune_links, take_over, merge_loaded}
pub use crypt_fs.Node.Reload.Child.{key_of, key_at, IsSeparate, edit-key_of}
use crypt_fs.Node.Reload.Child.{Merged, merge_child-Merged}

-- The pointers of new children: nothing in the directory leads to them, and they differ.
abbrev pub IsNewTo : {S : Type 0} → World S → ℕ → Assoc ℕ → Type 0
IsNewTo w p [] = Unit {0}
IsNewTo w p ((name, c) ∷ links) =
    ((j : Bytes) → entry w p j ≢ some c)
    × (lookup name links ≡ none)
    × All (λ l. c ≢ l.1) links
    × IsNewTo w p links

module _ {S : Type 0} (w w' : World S) (p : ℕ) (name : Bytes) (child : ℕ)
    (m : Merged w w' p name child) (sep : IsSeparate w p)
    (new : (j : Bytes) → entry w p j ≢ some child) where
  -- No other name leads to the target.
  not_target :
      (j : Bytes) (r : ℕ) → bytes_eq name j ≡ false → entry w p j ≡ some r → (m.target == r) ≡ false
  not_target j r ne h = elim (Bool-cases (m.target == r)) [
    | inr differ ↦ differ
    | inl same ↦
        let is_r = (==_iff m.target r).0 same in
        elim m.was [
          | inl there ↦ let eq = sep.apart name j r (there ∙ ap some is_r) h in cc
          | inr (missing, at_child) ↦ absurd (new j (h ∙ ap some (sym is_r ∙ at_child)))
        ]
  ]

  Merged-key_at :
      (j : Bytes)
      → key_at w' p j ≡ (if bytes_eq name j then key_of (w.cells child) else key_at w p j)
  Merged-key_at j = elim (Bool-cases (bytes_eq name j)) [
    | inl same ↦ rw (m.entries, same) (m.keys m.target ∙ ground arith)
    | inr other ↦ elim (Option-cases (entry w p j)) [
      | inl missing ↦ rw (m.entries, other, missing)
      | inr (r, leads) ↦ rw (m.entries, other, leads) (m.keys r ∙ rw (not_target j r other leads))
    ]
  ]

  leads_to :
      (j : Bytes) (r : ℕ)
      → entry w' p j ≡ some r
      → ((bytes_eq name j ≡ true) × (m.target ≡ r))
        ⊎ ((bytes_eq name j ≡ false) × (entry w p j ≡ some r))
  leads_to j r h = elim (Bool-cases (bytes_eq name j)) [
    | inl same ↦ inl (same, some-injective _ _ (rw (m.entries, same) at h))
    | inr other ↦ inr (other, rw (m.entries, other) at h)
  ]

  Merged-IsSeparate : IsSeparate w' p
  Merged-IsSeparate = record {
    apart = λ i j r hi hj. elim (leads_to i r hi) [
      | inl (same, at_i) ↦ elim (leads_to j r hj) [
        | inl (same', at_j) ↦
            ground (arith, bytes_eq_iff name i, bytes_eq_iff name j, bytes_eq_iff i j)
        | inr (other, old) ↦ let ne = not_target j r other old in ground (arith, ==_iff m.target r)
      ]
      | inr (other, old) ↦ elim (leads_to j r hj) [
        | inl (same', at_j) ↦ let ne = not_target i r other old in ground (arith, ==_iff m.target r)
        | inr (other', old') ↦ sep.apart i j r old old'
      ]
    ];
  }

  target_not_new : (c : ℕ) → child ≢ c → ((j : Bytes) → entry w p j ≢ some c) → m.target ≢ c
  target_not_new c d n same = elim m.was [
    | inl there ↦ n name (there ∙ ap some same)
    | inr (missing, at_child) ↦ d (sym at_child ∙ same)
  ]

  -- The children that are still to be merged stay new, and keep their keys.
  Merged-rest :
      (links : Assoc ℕ)
      → All (λ l. child ≢ l.1) links
      → IsNewTo w p links
      → IsNewTo w' p links × All (λ l. key_of (w'.cells l.1) ≡ key_of (w.cells l.1)) links
  Merged-rest [] d n = (tt, tt)
  Merged-rest ((other, c) ∷ links) (d, ds) (n, fresh, apart, ns) =
      let (rest, keys) = Merged-rest links ds ns in
      let ne = target_not_new c d n in
      let still : (j : Bytes) → entry w' p j ≢ some c =
        λ j h. elim (leads_to j c h) [ inl (same, at_c) ↦ ne at_c | inr (differ, old) ↦ n j old ] in
      ((still, fresh, apart, rest), (m.keys c ∙ ground (arith, ==_iff m.target c), keys))

abbrev pub found {ℓ} : {A : Type ℓ} → (ℕ → A) → Option ℕ → A → A
found f none a = a
found f (some c) a = f c

-- The key of the new child of a name, or what was there.
abbrev pub key_after : {S : Type 0} → World S → ℕ → Assoc ℕ → Bytes → Option Bytes
key_after w p links j = found (λ c. key_of (w.cells c)) (lookup j links) (key_at w p j)

pub lookup-All :
    (P : ℕ → Type 0) (links : Assoc ℕ) (j : Bytes) (c : ℕ)
    → All (λ l. P l.1) links
    → lookup j links ≡ some c
    → P c
unfolding lookup
lookup-All P [] j c h e = cc
lookup-All P ((name, d) ∷ links) j c (h, hs) e = elim (Bool-cases (bytes_eq name j)) [
  | inl same ↦ subst P (some-injective _ _ (rw same at e)) h
  | inr other ↦ lookup-All P links j c hs (rw other at e)
]

pub lookup-prune_links :
    (loaded links : Assoc ℕ) (j : Bytes)
    → lookup j (prune_links loaded links) ≡ found (λ c. lookup j links) (lookup j loaded) none
unfolding prune_links lookup
lookup-prune_links loaded [] j = ground arith
lookup-prune_links loaded ((name, p) ∷ links) j =
    ground (arith, lookup-prune_links loaded links j, bytes_eq_iff name j)

module _ {S : Type 0} where
  key_after-step :
      (p : ℕ) (name : Bytes) (child : ℕ) (links : Assoc ℕ) (w w₁ : World S) (j : Bytes)
      → lookup name links ≡ none
      → All (λ l. key_of (w₁.cells l.1) ≡ key_of (w.cells l.1)) links
      → key_at w₁ p j ≡ (if bytes_eq name j then key_of (w.cells child) else key_at w p j)
      → key_after w₁ p links j ≡ key_after w p ((name, child) ∷ links) j
  unfolding lookup
  key_after-step p name child links w w₁ j fresh keys step = elim (Option-cases (lookup j links)) [
    | inl missing ↦ rw missing (ground arith)
    | inr (c, leads) ↦
        let kept =
          lookup-All (λ c. key_of (w₁.cells c) ≡ key_of (w.cells c)) links j c keys leads in
        elim (Bool-cases (bytes_eq name j)) [
          | inr other ↦ rw (leads, other) kept
          | inl same ↦
              let gone : lookup j links ≡ none = rw ((bytes_eq_iff name j).0 same) at fresh in cc
        ]
  ]

  -- The keys that the loop leaves.
  pub merge_children-keys :
      (p : ℕ) (links : Assoc ℕ) (w w' : World S)
      → IsSeparate w p
      → IsNewTo w p links
      → merge_children p links w ≡ some w'
      → (j : Bytes) → key_at w' p j ≡ key_after w p links j
  unfolding merge_children lookup
  merge_children-keys p [] w w' sep new e j = ap (λ v. key_at v p j) (sym (some-injective _ _ e))
  merge_children-keys p ((name, child) ∷ links) w w' sep (n, fresh, apart, ns) e j =
      let (w₁, h, e₁) = >>=-eq-some (merge_child p name child w) _ e in
      let m = merge_child-Merged p name child w w₁ h in
      let (new₁, keys) = Merged-rest w w₁ p name child m sep n links apart ns in
      let step = Merged-key_at w w₁ p name child m sep n j in
      merge_children-keys p links w₁ w' (Merged-IsSeparate w w₁ p name child m sep n) new₁ e₁ j
      ∙ key_after-step p name child links w w₁ j fresh keys step

  SameEntries-IsSeparate :
      (w w' : World S) (p : ℕ) → SameEntries w w' → IsSeparate w p → IsSeparate w' p
  SameEntries-IsSeparate w w' p same sep = record {
    apart = λ i j r hi hj. sep.apart i j r (sym (same.at p i) ∙ hi) (sym (same.at p j) ∙ hj);
  }

  SameEntries-IsNewTo :
      (w w' : World S) (p : ℕ) (links : Assoc ℕ)
      → SameEntries w w'
      → IsNewTo w p links
      → IsNewTo w' p links
  SameEntries-IsNewTo w w' p [] same n = tt
  SameEntries-IsNewTo w w' p ((name, c) ∷ links) same (n, fresh, apart, ns) =
      (λ j h. n j (sym (same.at p j) ∙ h), fresh, apart, SameEntries-IsNewTo w w' p links same ns)

  entry-stored :
      (p : ℕ) (t : TreeNode) (w : World S) (j : Bytes)
      → entry (store_node p t w) p j ≡ lookup j t.links
  unfolding store_node set_cell
  entry-stored p t w j = ground arith

  key_at-cut :
      (w w' : World S) (o o' x : Option ℕ)
      → ((r : ℕ) → key_of (w'.cells r) ≡ key_of (w.cells r))
      → o' ≡ found (λ c. o) x none
      → (o' >>= λ c. key_of (w'.cells c)) ≡ found (λ c. o >>= λ c. key_of (w.cells c)) x none
  key_at-cut w w' o o' none keys e = rw e
  key_at-cut w w' none o' (some c) keys e = rw e
  key_at-cut w w' (some r) o' (some c) keys e = rw e (keys r)

  -- An edit of the links alone.
  edit-key_at :
      (p : ℕ) (f : TreeNode → TreeNode) (w w' : World S) (j : Bytes) (x : Option ℕ)
      → ((t : TreeNode) → (f t).node.key ≡ t.node.key)
      → ((t : TreeNode) → lookup j (f t).links ≡ found (λ c. lookup j t.links) x none)
      → edit p f w ≡ some w'
      → key_at w' p j ≡ found (λ c. key_at w p j) x none
  edit-key_at p f w w' j x keeps links e =
      let (t, h, e') = edited p f w w' e in
      let here' : entry w p j ≡ lookup j t.links = ap (λ c. child_of c j) h in
      let there : entry w' p j ≡ lookup j (f t).links =
        subst (λ v. entry v p j ≡ lookup j (f t).links) e' (entry-stored p (f t) w j) in
      let keys = edit-key_of p f w w' keeps e in
      key_at-cut w w' (entry w p j) (entry w' p j) x keys
        (there ∙ links t ∙ ap (λ o. found (λ c. o) x none) (sym here'))

  found-keys :
      (w w₁ : World S) (k old : Option Bytes) (x : Option ℕ)
      → ((r : ℕ) → key_of (w₁.cells r) ≡ key_of (w.cells r))
      → k ≡ found (λ c. key_of (w₁.cells c)) x old
      → found (λ c. k) x none ≡ found (λ c. key_of (w.cells c)) x none
  found-keys w w₁ k old none keys e = refl
  found-keys w w₁ k old (some c) keys e = e ∙ keys c

  -- Where a reload returns, its node's names lead to children with the keys of the loaded children,
  -- and no other name leads anywhere.
  pub merge_loaded-keys :
      (p : ℕ) (loaded : TreeNode) (w w' : World S)
      → IsSeparate w p
      → IsNewTo w p loaded.links
      → merge_loaded p loaded w ≡ some w'
      → (j : Bytes) → key_at w' p j ≡ found (λ c. key_of (w.cells c)) (lookup j loaded.links) none
  unfolding merge_loaded
  merge_loaded-keys p loaded w w' sep new e j =
      let (w₁, h₁, e₁) = >>=-eq-some (edit p (take_over loaded) w) _ e in
      let (w₂, h₂, e₂) = >>=-eq-some (merge_children p loaded.links w₁) _ e₁ in
      let same = edit-entry p (take_over loaded) w w₁ (λ t. refl) h₁ in
      let keys = edit-key_of p (take_over loaded) w w₁ (λ t. refl) h₁ in
      let merged =
        merge_children-keys p loaded.links w₁ w₂ (SameEntries-IsSeparate w w₁ p same sep)
          (SameEntries-IsNewTo w w₁ p loaded.links same new) h₂ j in
      edit-key_at p (λ t. record t { links = prune_links loaded.links t.links }) w₂ w' j
        (lookup j loaded.links) (λ t. refl) (λ t. lookup-prune_links loaded.links t.links j) e₂
      ∙ found-keys w w₁ (key_at w₂ p j) (key_at w₁ p j) (lookup j loaded.links) keys merged
