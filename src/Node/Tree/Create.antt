-- ===== src/Node/Tree/Create.antt =====
-- Create, Mkdir and Symlink of pkg/node/node.go.
use mathlib.Core.Option.{some-injective}
use crypt_fs.Prelude.{
  subst, ℕ, ◌≡◌, inl, inr, refl, sym, ap, ◌∙◌, Option, none, some, [], Bytes, ◌==◌, ==_iff, ◌>>=◌,
  >>=-eq-some, if◌then◌else◌, lookup, arith, Bool-cases, bit_or,
}
use crypt_fs.Storage.{Store}
use crypt_fs.Storage.Versioned.{VersionedStore}
use crypt_fs.Node.File.{Errno, is_ok}
use crypt_fs.Node.Metadata.{s_ifdir}
use crypt_fs.Node.Heap.{
  TreeNode, World, set_cell, new_node, store_node, add_known, new_cell, allocate_node,
}
use crypt_fs.Node.Tree.{
  need_save, without_link, edit, link, Tree, sync_at, create_locked_child, save_parent, save_child,
  create, mkdir, symlink, s_ifreg, s_iflnk,
}
use crypt_fs.Node.Tree.Entries.{
  child_of, entry, SameEntries, SameEntries-trans, Leads, edit-entry, edit-without_link, link-entry,
  sync_at-entry,
}
use crypt_fs.Node.Tree.Atomic.{Leads-before, Leads-after, Leads-Leads, undo-cases}

module _ {S : Type 0} where
  add_known-cells : (key : Bytes) (p : ℕ) (w : World S) → (add_known key p w).cells ≡ w.cells
  unfolding add_known
  add_known-cells key p w = ground arith

  new_cell-entry :
      (t : TreeNode) (w : World S) (q : ℕ) (j : Bytes)
      → w.cells w.next ≡ none
      → t.links ≡ []
      → entry (new_cell t w).1 q j ≡ entry w q j
  unfolding new_cell store_node set_cell lookup
  new_cell-entry t w q j free no_links = elim (Bool-cases (w.next == q)) [
    | inr other ↦ rw other
    | inl same ↦
        let here' : w.cells q ≡ none = rw ((==_iff w.next q).0 same) at free in
        rw (same, no_links, here')
  ]

  allocate_node-entry :
      (key : Bytes) (now : ℕ) (w w' : World S) (child : ℕ)
      → w.cells w.next ≡ none
      → allocate_node (some key) now w ≡ some (child, w')
      → (child ≡ w.next) × SameEntries w w'
  unfolding allocate_node new_cell
  allocate_node-entry key now w w' child free e =
      let same = some-injective _ _ e in
      (
        sym (ap (λ k. k.0) same),
        subst (λ k. SameEntries w k.1) same
            (record {
              at = λ q j.
                  ap (λ c. child_of (c q) j)
                    (add_known-cells key w.next (new_cell (new_node key [] 0 now) w).1)
                  ∙ new_cell-entry (new_node key [] 0 now) w q j free refl;
            }),
      )

module _ (sum512 : Bytes → Bytes) (blobs : Store) (meta : VersionedStore) where
  create_locked_child-Leads :
      (p : ℕ) (name : Bytes) (mode : ℕ) (key : Bytes) (now : ℕ) (w w' : Tree sum512 blobs meta)
      (made : Option ℕ)
      → w.cells w.next ≡ none
      → create_locked_child sum512 blobs meta p name mode (some key) now w ≡ some (made, w')
      → (made ≡ some w.next) × Leads w w' p name (some w.next)
  unfolding create_locked_child allocate_node
  create_locked_child-Leads p name mode key now w w' made free e =
      let w₁ = add_known key w.next (new_cell (new_node key [] 0 now) w).1 in
      let (is_next, fresh) = allocate_node-entry key now w w₁ w.next free refl in
      let (w₂, h₂, e₂) = >>=-eq-some _ _ e in
      let (w₃, h₃, e₃) = >>=-eq-some (link p name w.next w₂) _ e₂ in
      let same = some-injective _ _ e₃ in
      (
        sym (ap (λ k. k.0) same),
        subst (λ k. Leads w k.1 p name (some w.next)) same
            (Leads-before (SameEntries-trans fresh (edit-entry w.next _ w₁ w₂ (λ t. refl) h₂))
              (link-entry p name w.next w₂ w₃ h₃)),
      )

  -- The directory is saved with the new child, or the child is taken out.
  save_parent-Leads :
      (p : ℕ) (name : Bytes) (child : ℕ) (u w w' : Tree sum512 blobs meta) (errno : Errno)
      → Leads u w p name (some child)
      → save_parent sum512 blobs meta p name w ≡ some (w', errno)
      → Leads u w' p name (if is_ok errno then some child else none)
  unfolding save_parent
  save_parent-Leads p name child u w w' errno l e =
      let ((w₁, x), h₁, e₁) = >>=-eq-some (sync_at sum512 blobs meta p w) _ e in
      let l₁ = Leads-after l (sync_at-entry sum512 blobs meta p w w₁ x h₁) in
      elim (undo-cases x errno (some (w₁, x)) (edit p (without_link name) w₁) w' e₁) [
        | inl (good, done) ↦
            subst (λ k. Leads u k.0 p name (if is_ok k.1 then some child else none))
              (some-injective _ _ done) (rw good l₁)
        | inr (failed, back) ↦
            rw failed
              (Leads-Leads l₁ (edit-without_link p name (without_link name) w₁ w' (λ t. refl) back))
      ]

  save_child-Leads :
      (p : ℕ) (name : Bytes) (child : ℕ)
      (between : Tree sum512 blobs meta → Option (Tree sum512 blobs meta))
      (u w w' : Tree sum512 blobs meta) (errno : Errno)
      → Leads u w p name (some child)
      → ((v v' : Tree sum512 blobs meta) → between v ≡ some v' → SameEntries v v')
      → save_child sum512 blobs meta p name child between w ≡ some (w', errno)
      → Leads u w' p name (if is_ok errno then some child else none)
  unfolding save_child
  save_child-Leads p name child between u w w' errno l keeps e =
      let ((w₁, x), h₁, e₁) = >>=-eq-some (sync_at sum512 blobs meta child w) _ e in
      let l₁ = Leads-after l (sync_at-entry sum512 blobs meta child w w₁ x h₁) in
      elim (undo-cases x errno (do w₂ ← between w₁; save_parent sum512 blobs meta p name w₂)
        (edit p (without_link name) w₁) w' e₁) [
          | inl (good, on) ↦
              let (w₂, h₂, e₂) = >>=-eq-some (between w₁) _ on in
              save_parent-Leads p name child u w₂ w' errno (Leads-after l₁ (keeps w₁ w₂ h₂)) e₂
          | inr (failed, back) ↦
              rw failed (
                Leads-Leads l₁
                  (edit-without_link p name (without_link name) w₁ w' (λ t. refl) back))
        ]

  -- The end that Mkdir and Symlink share.
  save_both-Leads :
      (p : ℕ) (name : Bytes) (child : ℕ) (f : TreeNode → TreeNode) (u w w' : Tree sum512 blobs meta)
      (errno : Errno)
      → Leads u w p name (some child)
      → ((t : TreeNode) → (f t).links ≡ t.links)
      → (do
        w₂ ← edit child f w
        w₃ ← edit p need_save w₂
        save_child sum512 blobs meta p name child some w₃)
        ≡ some (w', errno)
      → Leads u w' p name (if is_ok errno then some child else none)
  save_both-Leads p name child f u w w' errno l keeps e =
      let (w₂, h₂, e₂) = >>=-eq-some (edit child f w) _ e in
      let (w₃, h₃, e₃) = >>=-eq-some (edit p need_save w₂) _ e₂ in
      save_child-Leads p name child some u w₃ w' errno
        (Leads-after (Leads-after l (edit-entry child f w w₂ keeps h₂))
          (edit-entry p need_save w₂ w₃ (λ t. refl) h₃))
        (λ v v' h. record { at = λ q j. ap (λ k. entry k q j) (sym (some-injective _ _ h)) }) e₃

-- What is to be created: a file or a directory with a mode, or a symbolic link to a target.
pub data NewChild : Type 0 where
  file directory : ℕ → NewChild
  link_to : Bytes → NewChild

module _ (sum512 : Bytes → Bytes) (blobs : Store) (meta : VersionedStore) where
  -- The operation that creates it.
  abbrev pub make :
      NewChild
      → ℕ
      → Bytes
      → Option Bytes
      → ℕ
      → Tree sum512 blobs meta
      → Option (Tree sum512 blobs meta × Errno)
  make (file mode) p name = create sum512 blobs meta p name mode
  make (directory mode) p name = mkdir sum512 blobs meta p name mode
  make (link_to target) p name = symlink sum512 blobs meta p target name

  -- Create, Mkdir and Symlink, where they return, leave the one name of the one directory leading to
  -- the new node if they return no error, and nowhere if they return one, whether the node or the
  -- directory could not be saved; every other name leads where it led. This supposes that a key is
  -- found for the node, and that the heap's next pointer is free.
  pub make_lem :
      (child : NewChild) (p : ℕ) (name key : Bytes) (now : ℕ) (w w' : Tree sum512 blobs meta)
      (errno : Errno)
      → w.cells w.next ≡ none
      → make child p name (some key) now w ≡ some (w', errno)
      → Leads w w' p name (if is_ok errno then some w.next else none)
  unfolding create mkdir symlink
  make_lem (file mode) p name key now w w' errno free e =
      let ((made, w₁), h₁, e₁) =
        >>=-eq-some
          (create_locked_child sum512 blobs meta p name (bit_or mode s_ifreg) (some key) now w) _
          e in
      let (is_next, l) =
        create_locked_child-Leads sum512 blobs meta p name (bit_or mode s_ifreg) key now w w₁ made
          free h₁ in
      let (w₂, h₂, e₂) = >>=-eq-some (edit w.next need_save w₁) _ (rw is_next at e₁) in
      save_child-Leads sum512 blobs meta p name w.next (λ v. edit p need_save v) w w₂ w' errno
        (Leads-after l (edit-entry w.next need_save w₁ w₂ (λ t. refl) h₂))
        (λ v v' h. edit-entry p need_save v v' (λ t. refl) h) e₂
  make_lem (directory mode) p name key now w w' errno free e =
      let ((made, w₁), h₁, e₁) =
        >>=-eq-some
          (create_locked_child sum512 blobs meta p name (bit_or mode s_ifdir) (some key) now w) _
          e in
      let (is_next, l) =
        create_locked_child-Leads sum512 blobs meta p name (bit_or mode s_ifdir) key now w w₁ made
          free h₁ in
      save_both-Leads sum512 blobs meta p name w.next _ w w₁ w' errno l (λ t. refl)
        (rw is_next at e₁)
  make_lem (link_to target) p name key now w w' errno free e =
      let ((made, w₁), h₁, e₁) =
        >>=-eq-some (create_locked_child sum512 blobs meta p name s_iflnk (some key) now w) _ e in
      let (is_next, l) =
        create_locked_child-Leads sum512 blobs meta p name s_iflnk key now w w₁ made free h₁ in
      save_both-Leads sum512 blobs meta p name w.next _ w w₁ w' errno l (λ t. refl)
        (rw is_next at e₁)
