-- ===== src/Storage/Bitcask.antt =====
-- pkg/storage/bitcask.go: a store in a database of the bitcask library, which is a parameter.
use crypt_fs.Prelude.{ℕ, ◌≡◌, ap, Option, none, some, ◌++◌, Bytes}
use crypt_fs.Prelude.Text.{codes}
use crypt_fs.Storage.{Error, not_found, wrapped, Got, Store}
use crypt_fs.Storage.Versioned.{
  put_uint64, check_version, other_error, wrapper_put, wrapper_get, split_value,
}

-- An error of the database's Get: bitcask.ErrKeyNotFound, or another with its text.
pub data DbError : Type 0 where
  key_not_found : DbError
  other : Bytes → DbError

-- bitcask.DB
pub record Database : Type 1 where
  pub State : Type 0
  pub put : Bytes → Bytes → State → State × Option Error
  pub get : Bytes → State → State × Option Bytes × Option DbError

-- bitcask.Open at a path: its error, or none. The error is wrapped.
unfoldable pub new_bitcask_store : (Bytes → Option Error) → Bytes → Option Error
new_bitcask_store open_db path = elim (open_db path) [
  | some e ↦ some (wrapped (codes "error opening bitcask database") e)
  | none ↦ none
]

-- `text` is the key by fmt's "%.40q". An error other than a missing key is not returned.
unfoldable pub bitcask_found : Bytes → Option Bytes → Option DbError → Got
bitcask_found text value (some key_not_found) = record {
  value = none;
  err = some (wrapped text not_found);
}
bitcask_found text value _ = record { value = value; err = none }

-- A store whose Get reports neither a value nor an error.
module _ (s : Store) (version : ℕ) (key value : Bytes) (st st' : s.State)
    (silent : s.get key st ≡ (st', record { value = none; err = none })) where
  wrapper_put-silent :
      wrapper_put s version key value st ≡ some (s.put key (put_uint64 version ++ value) st')
  unfolding wrapper_put other_error check_version
  wrapper_put-silent =
      let no_error : (s.get key st).1.err ≡ none = ap (λ g. g.1.err) silent in
      let no_value : (s.get key st).1.value ≡ none = ap (λ g. g.1.value) silent in
      let state : (s.get key st).0 ≡ st' = ap (λ g. g.0) silent in
      rw (wrapper_put, no_error, no_value, state)

  wrapper_get-silent : wrapper_get s key st ≡ none
  unfolding wrapper_get split_value
  wrapper_get-silent =
      let no_error : (s.get key st).1.err ≡ none = ap (λ g. g.1.err) silent in
      let no_value : (s.get key st).1.value ≡ none = ap (λ g. g.1.value) silent in
      let state : (s.get key st).0 ≡ st' = ap (λ g. g.0) silent in
      rw (wrapper_get, no_error, no_value)

module _ (db : Database) (quoted : Bytes → Bytes) where
  unfoldable pub bitcask_put : Bytes → Bytes → db.State → db.State × Option Error
  bitcask_put key value st = db.put key value st

  unfoldable pub bitcask_get : Bytes → db.State → db.State × Got
  unfolding bitcask_found
  bitcask_get key st =
      let (st', value, err) = db.get key st in (st', bitcask_found (quoted key) value err)

  abbrev pub bitcask_store : Store
  bitcask_store = record { State = db.State; put = bitcask_put; get = bitcask_get }

  bitcask_get-unreadable :
      (key text : Bytes) (st st' : db.State)
      → db.get key st ≡ (st', none, some (other text))
      → bitcask_get key st ≡ (st', record { value = none; err = none })
  unfolding bitcask_get bitcask_found
  bitcask_get-unreadable key text st st' e = rw (bitcask_get, e)

  -- Where the database fails to read a key, with a nil value and an error other than a missing key, the
  -- versioned wrapper over it hears of no error: Put writes any version, whatever is stored, and
  -- Get panics.
  pub wrapper-unreadable :
      (version : ℕ) (key value text : Bytes) (st st' : db.State)
      → db.get key st ≡ (st', none, some (other text))
      → (wrapper_put bitcask_store version key value st
          ≡ some (bitcask_put key (put_uint64 version ++ value) st'))
        × (wrapper_get bitcask_store key st ≡ none)
  wrapper-unreadable version key value text st st' e = (
    wrapper_put-silent bitcask_store version key value st st'
        (bitcask_get-unreadable key text st st' e),
    wrapper_get-silent bitcask_store version key value st st'
        (bitcask_get-unreadable key text st st' e),
  )
