-- ===== src/Node/Tree/Rename.antt =====
-- Rename of pkg/node/node.go.
use mathlib.Core.Option.{some-injective}
use crypt_fs.Prelude.{
  subst, ℕ, ◌≡◌, inl, inr, refl, none, some, ◌&&◌, Bytes, ◌==◌, bytes_eq, >>=-eq-some,
  if◌then◌else◌, Bool-cases,
}
use crypt_fs.Storage.{Store}
use crypt_fs.Storage.Versioned.{VersionedStore}
use crypt_fs.Node.File.{Errno, is_ok}
use crypt_fs.Node.Heap.{World}
use crypt_fs.Node.Tree.{need_save, without_link, edit, link, Tree, sync_at, sync_three, rename}
use crypt_fs.Node.Tree.Entries.{
  entry, SameEntries, SameEntries-trans, edit-entry, edit-without_link, link-entry, sync_at-entry,
}
use crypt_fs.Node.Tree.Atomic.{Leads-before}

-- The name leads nowhere afterwards, the new one to the child, if it is not the same, and the
-- others where they led.
pub record Moved {S : Type 0} (w w' : World S) (p : ℕ) (name : Bytes) (child q : ℕ)
    (new_name : Bytes) : Type 0 where
  pub at :
      (r : ℕ) (j : Bytes)
      → entry w' r j ≡ (
          if p == r && bytes_eq name j
          then none
          else if q == r && bytes_eq new_name j
          then some child
          else entry w r j)

module _ (sum512 : Bytes → Bytes) (blobs : Store) (meta : VersionedStore) where
  sync_three-SameEntries :
      (child q p : ℕ) (w w' : Tree sum512 blobs meta) (errno : Errno)
      → sync_three sum512 blobs meta child q p w ≡ some (w', errno)
      → SameEntries w w'
  unfolding sync_three
  sync_three-SameEntries child q p w w' errno e =
      let ((w₁, x₁), h₁, e₁) = >>=-eq-some (sync_at sum512 blobs meta child w) _ e in
      let s₁ = sync_at-entry sum512 blobs meta child w w₁ x₁ h₁ in
      elim (Bool-cases (is_ok x₁)) [
        | inr failed ↦ subst (λ k. SameEntries w k.0) (some-injective _ _ (rw failed at e₁)) s₁
        | inl good ↦
            let ((w₂, x₂), h₂, e₂) =
              >>=-eq-some (sync_at sum512 blobs meta q w₁) _ (rw good at e₁) in
            let s₂ = SameEntries-trans s₁ (sync_at-entry sum512 blobs meta q w₁ w₂ x₂ h₂) in
            elim (Bool-cases (is_ok x₂)) [
              | inr failed ↦
                  subst (λ k. SameEntries w k.0) (some-injective _ _ (rw failed at e₂)) s₂
              | inl fine ↦
                  SameEntries-trans s₂
                    (sync_at-entry sum512 blobs meta p w₂ w' errno (rw fine at e₂))
            ]
      ]

  -- Rename, where it returns, has moved the child from the one name to the other, within a directory
  -- or between two, whether it returns an error or not: a move that could not be saved is not undone.
  -- A child that is moved to the name that it has is lost.
  pub rename_lem :
      (p : ℕ) (name : Bytes) (child q : ℕ) (new_name : Bytes) (w w' : Tree sum512 blobs meta)
      (errno : Errno)
      → rename sum512 blobs meta p name child q new_name w ≡ some (w', errno)
      → Moved w w' p name child q new_name
  unfolding rename
  rename_lem p name child q new_name w w' errno e =
      let (w₁, h₁, e₁) = >>=-eq-some (edit child (λ t. record t { name = new_name }) w) _ e in
      let (w₂, h₂, e₂) = >>=-eq-some (link q new_name child w₁) _ e₁ in
      let (w₃, h₃, e₃) = >>=-eq-some (edit p (without_link name) w₂) _ e₂ in
      let (w₄, h₄, e₄) = >>=-eq-some (edit child need_save w₃) _ e₃ in
      let (w₅, h₅, e₅) = >>=-eq-some (edit q need_save w₄) _ e₄ in
      let (w₆, h₆, e₆) = >>=-eq-some (edit p need_save w₅) _ e₅ in
      let put =
        Leads-before (edit-entry child (λ t. record t { name = new_name }) w w₁ (λ t. refl) h₁)
          (link-entry q new_name child w₁ w₂ h₂) in
      let cut = edit-without_link p name (without_link name) w₂ w₃ (λ t. refl) h₃ in
      let kept = SameEntries-trans (edit-entry child need_save w₃ w₄ (λ t. refl) h₄) (
        SameEntries-trans (edit-entry q need_save w₄ w₅ (λ t. refl) h₅) (
          SameEntries-trans (edit-entry p need_save w₅ w₆ (λ t. refl) h₆)
            (sync_three-SameEntries child q p w₆ w' errno e₆))) in
      record { at = λ r j. rw (kept.at, cut.at, put.at) }
