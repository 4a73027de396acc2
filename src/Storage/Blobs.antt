-- ===== src/Storage/Blobs.antt =====
-- pkg/storage/blobstore.go: values stored under their hash.
-- `sum512`, the Blake2b hash, is code of a library, and a parameter.
use mathlib.Core.Option.{some-injective}
use crypt_fs.Prelude.{
  ◌≡◌, refl, sym, ap, ◌∙◌, subst, Option, none, some, Bytes, true, Bool-cases, inl, inr, bytes_eq,
  bytes_eq_iff, bytes_eq_refl,
}
use crypt_fs.Storage.{Error, Got, Store, IsMap, Answers}

module _ (sum512 : Bytes → Bytes) (delegate : Store) where
  open delegate use {State, put, get}

  -- The key is returned beside the delegate's error.
  unfoldable pub blob_put : Bytes → State → State × Bytes × Option Error
  blob_put value st = let key = sum512 value in let (st', err) = put key value st in (st', key, err)

  unfoldable pub blob_get : Bytes → State → State × Got
  blob_get key st = get key st

module _ (sum512 : Bytes → Bytes) (delegate : Store) (m : IsMap delegate) where
  -- Every value that the delegate holds lies under its own hash.
  pub record IsAddressed (st : delegate.State) : Type 0 where
    pub under_hash : (k w : Bytes) → m.view st k ≡ some w → k ≡ sum512 w

  module _ (value : Bytes) (st : delegate.State) where
    same_hash :
        (k w : Bytes)
        → IsAddressed st
        → bytes_eq (sum512 value) k ≡ true
        → m.view st k ≡ some w
        → sum512 value ≡ sum512 w
    same_hash k w h same held = (bytes_eq_iff (sum512 value) k).0 same ∙ h.under_hash k w held

    put_under_hash :
        (k w : Bytes)
        → IsAddressed st
        → m.view (delegate.put (sum512 value) value st).0 k ≡ some w
        → k ≡ sum512 w
    put_under_hash k w h held = elim (Bool-cases (bytes_eq (sum512 value) k)) [
      | inl same ↦
          sym ((bytes_eq_iff (sum512 value) k).0 same)
          ∙ ap sum512 (some-injective _ _ (rw (m.put_view, same) at held))
      | inr other ↦ h.under_hash k w (rw (m.put_view, other) at held)
    ]

    -- A Put over a map succeeds and returns the value's hash as the key, under which a Get then
    -- returns the value with no error; every stored value still lies under its own hash.
    pub blob_put_lem :
        IsAddressed st
        → ((blob_put sum512 delegate value st).2 ≡ none)
          × ((blob_put sum512 delegate value st).1 ≡ sum512 value)
          × Answers
              (some value)
              (blob_get sum512 delegate (sum512 value) (blob_put sum512 delegate value st).0).1
          × IsAddressed (blob_put sum512 delegate value st).0
    unfolding blob_put blob_get
    blob_put_lem h = (
      m.put_succeeds (sum512 value) value st,
      refl,
      subst
          (λ o. Answers o (delegate.get (sum512 value) (delegate.put (sum512 value) value st).0).1)
          held (m.get_answers (sum512 value) (delegate.put (sum512 value) value st).0),
      record { under_hash = λ k w present. put_under_hash k w h present },
    )
      where
        held : m.view (delegate.put (sum512 value) value st).0 (sum512 value) ≡ some value
        held = rw (m.put_view, bytes_eq_refl (sum512 value))

    -- A Put over a map never changes what is stored, unless two values have one hash: under every
    -- key that holds a value `w`, of which the value put is no collision, `w` stays.
    pub blob_put-keeps :
        (k w : Bytes)
        → IsAddressed st
        → (sum512 value ≡ sum512 w → value ≡ w)
        → m.view st k ≡ some w
        → m.view (blob_put sum512 delegate value st).0 k ≡ some w
    unfolding blob_put
    blob_put-keeps k w h unique held =
        rw m.put_view (elim (Bool-cases (bytes_eq (sum512 value) k)) [
          | inl same ↦ rw same (ap some (unique (same_hash k w h same held)))
          | inr other ↦ rw other held
        ])
