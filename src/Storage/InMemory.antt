-- ===== src/Storage/InMemory.antt =====
-- pkg/storage/inmemory.go, with `dup` of pkg/storage/paired.go.
-- The lock makes each call one step. `dup` never returns nil, so the map holds no nil value.
-- Values are copied: that Get returns the map's own slice, which a caller could change, is left out.
use crypt_fs.Prelude.{
  ℕ, ◌≡◌, refl, Option, none, some, [], Bytes, length, replicate, arith, Assoc, lookup, insert,
  lookup-insert, append-nil, take-all, drop-all, length-replicate,
}
use crypt_fs.Bits.{copy}
use crypt_fs.Storage.{Error, not_found, wrapped, is_not_found, Got, Store, Answers, IsMap}

unfoldable pub dup : Bytes → Bytes
unfolding copy
dup p = copy (replicate (length p) 0) p

pub dup_lem : (p : Bytes) → dup p ≡ p
unfolding dup
dup_lem p =
    let same = length-replicate {A = ℕ} (length p) 0 in
    rw
      (
        same,
        take-all (length p) p (omega arith),
        drop-all (length p) (replicate {A = ℕ} (length p) 0) (omega (arith, same)),
      )
      (append-nil p)

unfoldable pub new_in_memory_store : Assoc Bytes
new_in_memory_store = []

unfoldable pub memory_put : Bytes → Bytes → Assoc Bytes → Assoc Bytes × Option Error
unfolding dup
memory_put key value m = (insert key (dup value) m, none)

-- A missing key, with the text of the key by fmt's "%.40q", a parameter.
unfoldable pub memory_found : Bytes → Option Bytes → Got
memory_found text none = record { value = none; err = some (wrapped text not_found) }
memory_found text (some v) = record { value = some v; err = none }

unfoldable pub memory_get : (Bytes → Bytes) → Bytes → Assoc Bytes → Assoc Bytes × Got
unfolding memory_found
memory_get quoted key m = (m, memory_found (quoted key) (lookup key m))

abbrev pub in_memory_store : (Bytes → Bytes) → Store
in_memory_store quoted = record { State = Assoc Bytes; put = memory_put; get = memory_get quoted }

pub memory_get-Answers :
    (quoted : Bytes → Bytes) (k : Bytes) (m : Assoc Bytes)
    → Answers (lookup k m) (memory_get quoted k m).1
unfolding memory_get is_not_found
memory_get-Answers quoted k m = go (lookup k m)
  where
    go : (o : Option Bytes) → Answers o (memory_found (quoted k) o)
    go none = (refl, (wrapped (quoted k) not_found, refl, refl))
    go (some v) = (refl, refl)

-- The in-memory store is a map.
unfoldable pub in_memory_store-IsMap : (quoted : Bytes → Bytes) → IsMap (in_memory_store quoted)
unfolding memory_get memory_put
in_memory_store-IsMap quoted = record {
  view = λ m k. lookup k m;
  get_answers = memory_get-Answers quoted;
  get_keeps = λ k j m. refl;
  put_succeeds = λ k v m. refl;
  put_view = λ k v j m. rw dup_lem (lookup-insert k j v m);
}
