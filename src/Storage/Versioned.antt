-- ===== src/Storage/Versioned.antt =====
-- pkg/storage/store.go: versions on top of a store, as eight bytes in front of each value.
-- The lock makes each call one step. `none` is a panic: a stored value of fewer than eight bytes.
pub mod Refinement
use crypt_fs.Prelude.{
  ℕ, ◌+◌, ◌*◌, ◌/◌, ◌%◌, ◌^◌, ◌<◌, ◌≡◌, Option, none, some, Bool, true, false, List, [], ◌∷◌, ◌++◌,
  Bytes, take, drop, length, ◌>>=◌, if◌then◌else◌, ltb, not, ◌&&◌,
}
use crypt_fs.Bits.{slice_to, slice_from}
use crypt_fs.Storage.{Error, stale_put, is_not_found, Got, Store}

-- binary.BigEndian.PutUint64 into eight bytes, and Uint64 of eight bytes.
unfoldable pub put_uint64 : ℕ → Bytes
put_uint64 v =
    v / 2 ^ 56 % 2 ^ 8
    ∷ v / 2 ^ 48 % 2 ^ 8
    ∷ v / 2 ^ 40 % 2 ^ 8
    ∷ v / 2 ^ 32 % 2 ^ 8
    ∷ v / 2 ^ 24 % 2 ^ 8
    ∷ v / 2 ^ 16 % 2 ^ 8
    ∷ v / 2 ^ 8 % 2 ^ 8
    ∷ v % 2 ^ 8
    ∷ []

unfoldable pub uint64 : Bytes → Option ℕ
uint64 (b7 ∷ b6 ∷ b5 ∷ b4 ∷ b3 ∷ b2 ∷ b1 ∷ b0 ∷ b) = some (
    b0
    + b1 * 2 ^ 8
    + b2 * 2 ^ 16
    + b3 * 2 ^ 24
    + b4 * 2 ^ 32
    + b5 * 2 ^ 40
    + b6 * 2 ^ 48
    + b7 * 2 ^ 56)
uint64 _ = none

-- The results of a Get of a versioned store.
pub record Versioned : Type 0 where
  pub version : ℕ
  pub value : Option Bytes
  pub err : Option Error

-- The interface VersionedStore; `none` is a panic.
pub record VersionedStore : Type 1 where
  pub State : Type 0
  pub put : ℕ → Bytes → Bytes → State → Option (State × Option Error)
  pub get : Bytes → State → Option (State × Versioned)

-- Where the delegate holds `curr`, a put needs a version beyond the stored one.
unfoldable pub check_version : ℕ → Option Bytes → Option (Option Error)
unfolding slice_to
check_version version none = some none
check_version version (some curr) = do
  first ← slice_to curr 8
  current ← uint64 first
  let expected_version = (current + 1) % 2 ^ 64
  some (if ltb version expected_version then some stale_put else none)

-- Errors of the delegate's Get other than a missing key are returned.
unfoldable pub other_error : Option Error → Option Error
other_error none = none
other_error (some e) = if is_not_found e then none else some e

module _ (delegate : Store) where
  open delegate use {State, put, get}

  unfoldable pub wrapper_put : ℕ → Bytes → Bytes → State → Option (State × Option Error)
  unfolding check_version other_error
  wrapper_put version key value st =
      let (st', got) = get key st in
      elim (other_error got.err) [
        | some e ↦ some (st', some e)
        | none ↦ do
          checked ← check_version version got.value
          elim checked [
            | some e ↦ some (st', some e)
            | none ↦ some (put key (put_uint64 version ++ value) st')
          ]
      ]

  unfoldable pub split_value : Option Bytes → Option Versioned
  unfolding slice_to slice_from
  split_value none = none
  split_value (some value) = do
    first ← slice_to value 8
    version ← uint64 first
    rest ← slice_from value 8
    some (record { version = version; value = some rest; err = none })

  unfoldable pub wrapper_get : Bytes → State → Option (State × Versioned)
  unfolding split_value
  wrapper_get key st =
      let (st', got) = get key st in
      elim got.err [
        | some e ↦ some (st', record { version = 0; value = got.value; err = some e })
        | none ↦ do versioned ← split_value got.value; some (st', versioned)
      ]

  abbrev pub new_versioned_wrapper : VersionedStore
  new_versioned_wrapper = record { State = State; put = wrapper_put; get = wrapper_get }
