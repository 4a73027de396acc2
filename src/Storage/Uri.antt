-- ===== src/Storage/Uri.antt =====
-- pkg/storage/store.go: the URIs of stores, and NewStore.
use crypt_fs.Prelude.{
  ℕ, zero, suc, ◌+◌, ◌<◌, ◌≡◌, ◌⊎◌, inl, inr, refl, Option, none, some, Bool, false, ◌&&◌, List, [],
  ◌∷◌, ◌++◌, Bytes, bytes_eq, ◌==◌, leb, if◌then◌else◌, arith, All,
}
use crypt_fs.Prelude.Text.{codes}
use crypt_fs.Storage.{Error, failed, invalid_store, error_text}
use crypt_fs.Storage.Bitcask.{new_bitcask_store}

pub record StoreUri : Type 0 where
  pub type : Bytes
  pub path : Bytes

-- The test compares the type with the path.
unfoldable pub is_zero : StoreUri → Bool
unfolding bytes_eq
is_zero u = bytes_eq u.type u.path

abbrev pub separator : Bytes
separator = codes "://"

unfoldable pub uri_string : StoreUri → Bytes
uri_string u = u.type ++ (separator ++ u.path)

-- strings.ToLower of ASCII text.
unfoldable pub to_lower : Bytes → Bytes
to_lower [] = []
to_lower (b ∷ bs) = (if leb 65 b && leb b 90 then b + 32 else b) ∷ to_lower bs

-- The text starts with "://".
unfoldable pub at_separator : Bytes → Bool
at_separator (a ∷ b ∷ c ∷ rest) = a == 58 && (b == 47 && c == 47)
at_separator _ = false

-- A byte before the first part.
abbrev pub push : ℕ → List Bytes → List Bytes
push b [] = []
push b (part ∷ parts) = (b ∷ part) ∷ parts

-- strings.Split(text, "://"), after `skip` bytes of a separator.
unfoldable pub split : ℕ → Bytes → List Bytes
unfolding at_separator
split skip [] = [] ∷ []
split (suc skip) (b ∷ bs) = split skip bs
split zero (b ∷ bs) =
    let parted = split 2 bs in
    let rest = split zero bs in if at_separator (b ∷ bs) then [] ∷ parted else push b rest

abbrev pub of_parts : Bytes → List Bytes → Error ⊎ StoreUri
of_parts uri (type ∷ path ∷ []) = inr (record { type = to_lower type; path = path })
of_parts uri _ = inl (failed (codes "invalid uri: " ++ uri))

unfoldable pub parse_store_uri : Bytes → Error ⊎ StoreUri
unfolding split to_lower
parse_store_uri uri = of_parts uri (split 0 uri)

-- A store that NewStore has made, by its kind.
pub data Opened : Type 0 where
  in_memory : Opened
  on_disk in_bitcask : Bytes → Opened

abbrev pub opened_bitcask : Bytes → Option Error → Error ⊎ Opened
opened_bitcask path (some e) = inl e
opened_bitcask path none = inr (in_bitcask path)

-- `open_db` is bitcask.Open at a path, a parameter: its error, or none.
unfoldable pub new_store_of : (Bytes → Option Error) → Error ⊎ StoreUri → Error ⊎ Opened
unfolding new_bitcask_store bytes_eq
new_store_of open_db (inl e) = inl (failed (codes "error parsing store uri: " ++ error_text e))
new_store_of open_db (inr u) =
    if bytes_eq u.type (codes "memory")
    then inr in_memory
    else if bytes_eq u.type (codes "disk")
    then inr (on_disk u.path)
    else if bytes_eq u.type (codes "bitcask")
    then opened_bitcask u.path (new_bitcask_store open_db u.path)
    else inl invalid_store

unfoldable pub new_store : (Bytes → Option Error) → Bytes → Error ⊎ Opened
unfolding parse_store_uri new_store_of
new_store open_db store = new_store_of open_db (parse_store_uri store)

-- The text holds no separator.
abbrev pub IsPlain : Bytes → Type 0
IsPlain [] = Unit {0}
IsPlain (b ∷ bs) = (at_separator (b ∷ bs) ≡ false) × IsPlain bs

split-plain : (text : Bytes) → IsPlain text → split 0 text ≡ text ∷ []
unfolding split
split-plain [] h = refl
split-plain (b ∷ bs) (h, hs) = rw (h, split-plain bs hs) refl

-- A separator that begins in the type would lie in it.
at_separator-before :
    (b : ℕ) (type path : Bytes)
    → at_separator (b ∷ type) ≡ false
    → at_separator (b ∷ type ++ (separator ++ path)) ≡ false
unfolding at_separator
at_separator-before b [] path h = ground arith
at_separator-before b (c ∷ []) path h = ground arith
at_separator-before b (c ∷ d ∷ type) path h = h

split-joined :
    (type path : Bytes)
    → IsPlain type
    → IsPlain path
    → split 0 (type ++ (separator ++ path)) ≡ type ∷ path ∷ []
unfolding split at_separator
split-joined [] path h k = rw (split-plain path k) refl
split-joined (b ∷ type) path (h, hs) k =
    rw (at_separator-before b type path h, split-joined type path hs k) refl

-- The text of a URI is parsed back to that URI, where the type is ASCII without capitals, and neither
-- the type nor the path contains "://".
pub parse_store_uri-uri_string :
    (u : StoreUri)
    → IsPlain u.type
    → IsPlain u.path
    → All (λ b. b < 128) u.type
    → to_lower u.type ≡ u.type
    → parse_store_uri (uri_string u) ≡ inr u
unfolding parse_store_uri uri_string
parse_store_uri-uri_string u h k ascii lower = rw (split-joined u.type u.path h k, lower) refl
