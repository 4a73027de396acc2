-- ===== src/Node/Tree/Atomic.antt =====
-- The operations of pkg/node/node.go on directories that undo their change where it cannot be saved:
-- Rmdir, and Create, Mkdir and Symlink.
use mathlib.Core.Option.{some-injective}
use crypt_fs.Prelude.{
  subst, ℕ, ◌≡◌, ◌⊎◌, inl, inr, refl, sym, ap, ◌∙◌, Option, none, some, true, false, Bytes, ◌==◌,
  bytes_eq_iff, ◌>>=◌, >>=-eq-some, if◌then◌else◌, lookup, length, arith, Bool-cases, Option-cases,
}
use crypt_fs.Storage.{Store}
use crypt_fs.Storage.Versioned.{VersionedStore}
use crypt_fs.Node.File.{Errno, is_ok}
use crypt_fs.Node.Heap.{World}
use crypt_fs.Node.Tree.{need_save, without_link, edit, link, Tree, sync_at, remove_empty, rmdir}
use crypt_fs.Node.Tree.Entries.{
  child_of, entry, SameEntries, Leads, edit-without_link, link-entry, sync_at-entry,
}

module _ {S : Type 0} where
  pub Leads-before :
      {u w w' : World S} {p : ℕ} {name : Bytes} {x : Option ℕ}
      → SameEntries u w
      → Leads w w' p name x
      → Leads u w' p name x
  Leads-before same h = record { at = λ q j. rw (h.at, same.at) }

  pub Leads-after :
      {w w' v : World S} {p : ℕ} {name : Bytes} {x : Option ℕ}
      → Leads w w' p name x
      → SameEntries w' v
      → Leads w v p name x
  Leads-after h same = record { at = λ q j. same.at q j ∙ h.at q j }

  pub Leads-Leads :
      {w w' v : World S} {p : ℕ} {name : Bytes} {x y : Option ℕ}
      → Leads w w' p name x
      → Leads w' v p name y
      → Leads w v p name y
  Leads-Leads h k = record { at = λ q j. k.at q j ∙ ground (arith, h.at q j) }

  -- A name that is put back where it led.
  pub Leads-back :
      {w w' : World S} (p : ℕ) (name : Bytes) (x : Option ℕ)
      → entry w p name ≡ x
      → Leads w w' p name x
      → SameEntries w w'
  Leads-back {w} p name x was h = record {
    at = λ q j. h.at q j ∙ ground (arith, was, bytes_eq_iff name j);
  }

  pub Leads-same : (w : World S) (p : ℕ) (name : Bytes) → Leads w w p name (entry w p name)
  Leads-same w p name = record { at = λ q j. ground (arith, bytes_eq_iff name j) }

-- The end of an operation: it goes on where `x` is no error, and undoes its change otherwise.
pub undo-cases :
    {A : Type 0} (x errno : Errno) (on : Option (A × Errno)) (back : Option A) (a : A)
    → (if is_ok x then on else (do b ← back; some (b, x))) ≡ some (a, errno)
    → ((is_ok x ≡ true) × (on ≡ some (a, errno))) ⊎ ((is_ok errno ≡ false) × (back ≡ some a))
undo-cases x errno on none a e = elim (Bool-cases (is_ok x)) [
  | inl good ↦ inl (good, rw good at e)
  | inr failed ↦ let gone = rw failed at e in cc
]
undo-cases x errno on (some b) a e = elim (Bool-cases (is_ok x)) [
  | inl good ↦ inl (good, rw good at e)
  | inr failed ↦
      let same = some-injective _ _ (rw failed at e) in
      inr (ap (λ k. is_ok k.1) (sym same) ∙ failed, ap (λ k. some k.0) same)
]

module _ (sum512 : Bytes → Bytes) (blobs : Store) (meta : VersionedStore) where
  remove_empty-Leads :
      (p : ℕ) (name : Bytes) (child : ℕ) (w w' : Tree sum512 blobs meta) (errno : Errno)
      → remove_empty sum512 blobs meta p name child w ≡ some (w', errno)
      → Leads w w' p name (if is_ok errno then none else some child)
  unfolding remove_empty
  remove_empty-Leads p name child w w' errno e =
      let (w₁, h₁, e₁) = >>=-eq-some (edit p (λ t. need_save (without_link name t)) w) _ e in
      let ((w₂, x), h₂, e₂) = >>=-eq-some (sync_at sum512 blobs meta p w₁) _ e₁ in
      let cut =
        Leads-after
          (edit-without_link p name (λ t. need_save (without_link name t)) w w₁ (λ t. refl) h₁)
          (sync_at-entry sum512 blobs meta p w₁ w₂ x h₂) in
      elim (undo-cases x errno (some (w₂, x)) (link p name child w₂) w' e₂) [
        | inl (good, done) ↦
            let same = some-injective _ _ done in
            subst (λ k. Leads w k.0 p name (if is_ok k.1 then none else some child)) same
              (rw good cut)
        | inr (failed, back) ↦ rw failed (Leads-Leads cut (link-entry p name child w₂ w' back))
      ]

  -- Rmdir, where it returns, takes the one name out of the one directory if it returns no error; if
  -- it returns one, since the name leads nowhere, the child has children, or the directory cannot be
  -- saved, every name of every directory leads where it led.
  pub rmdir_lem :
      (p : ℕ) (name : Bytes) (w w' : Tree sum512 blobs meta) (errno : Errno)
      → rmdir sum512 blobs meta p name w ≡ some (w', errno)
      → Leads w w' p name (if is_ok errno then none else entry w p name)
  unfolding rmdir
  rmdir_lem p name w w' errno e =
      let (t, h, e₁) = >>=-eq-some (w.cells p) _ e in
      let here' : entry w p name ≡ lookup name t.links = ap (λ c. child_of c name) h in
      let kept = Leads-same w p name in
      elim (Option-cases (lookup name t.links)) [
        | inl missing ↦
            let same = some-injective _ _ (rw missing at e₁) in
            subst (λ k. Leads w k.0 p name (if is_ok k.1 then none else entry w p name)) same kept
        | inr (child, leads) ↦
            let (c, hc, e₂) = >>=-eq-some (w.cells child) _ (rw leads at e₁) in
            elim (Bool-cases (length c.links == 0)) [
              | inr full ↦
                  let same = some-injective _ _ (rw full at e₂) in
                  subst (λ k. Leads w k.0 p name (if is_ok k.1 then none else entry w p name)) same
                    kept
              | inl empty ↦
                  rw (here', leads) (remove_empty-Leads p name child w w' errno (rw empty at e₂))
            ]
      ]
