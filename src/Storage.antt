-- ===== src/Storage.antt =====
-- pkg/storage/store.go: the interfaces of the stores, and their errors.
pub mod InMemory
pub mod Versioned
pub mod Blobs
pub mod Paired
pub mod Remote
pub mod Disk
pub mod Apply
pub mod Bitcask
pub mod Uri
use crypt_fs.Prelude.{
  ℕ, ◌≡◌, Option, none, some, Bool, true, false, ◌++◌, Bytes, if◌then◌else◌, bytes_eq, All, IsByte,
}
use crypt_fs.Prelude.Text.{codes}

-- An error and its text. `wrapped` is fmt.Errorf("…: %w", …), `failed` an error of other code.
pub data Error : Type 0 where
  not_found stale_put invalid_store : Error
  failed : Bytes → Error
  wrapped : Bytes → Error → Error

-- err.Error()
unfoldable pub error_text : Error → Bytes
error_text not_found = codes "Not found"
error_text stale_put = codes "stale put"
error_text invalid_store = codes "error: invalid or unsupproted store"
error_text (failed t) = t
error_text (wrapped prefix e) = prefix ++ (codes ": " ++ error_text e)

-- errors.Is(err, ErrNotFound) and errors.Is(err, ErrStalePut)
unfoldable pub is_not_found : Error → Bool
is_not_found not_found = true
is_not_found (wrapped prefix e) = is_not_found e
is_not_found _ = false

unfoldable pub is_stale_put : Error → Bool
is_stale_put stale_put = true
is_stale_put (wrapped prefix e) = is_stale_put e
is_stale_put _ = false

-- The results of a Get: `value` may be nil, and so may `err`.
pub record Got : Type 0 where
  pub value : Option Bytes
  pub err : Option Error

-- The interface Store; a call returns the store's new state.
pub record Store : Type 1 where
  pub State : Type 0
  pub put : Bytes → Bytes → State → State × Option Error
  pub get : Bytes → State → State × Got

-- What a Get of a map returns for what the map holds.
abbrev pub Answers : Option Bytes → Got → Type 0
Answers (some v) got = (got.value ≡ some v) × (got.err ≡ none)
Answers none got = (got.value ≡ none) × ((e : Error) × (got.err ≡ some e) × (is_not_found e ≡ true))

-- A store that behaves as a map from keys to values: a Get changes nothing that a Get can show, and
-- a Put succeeds and changes the value of its own key alone.
pub record IsMap (s : Store) : Type 0 where
  pub view : s.State → Bytes → Option Bytes
  pub get_answers : (k : Bytes) (st : s.State) → Answers (view st k) (s.get k st).1
  pub get_keeps : (k j : Bytes) (st : s.State) → view (s.get k st).0 j ≡ view st j
  pub put_succeeds : (k v : Bytes) (st : s.State) → (s.put k v st).1 ≡ none
  pub put_view :
      (k v j : Bytes) (st : s.State)
      → view (s.put k v st).0 j ≡ (if bytes_eq k j then some v else view st j)
