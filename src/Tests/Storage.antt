-- ===== src/Tests/Storage.antt =====
-- Runs of pkg/storage.
use crypt_fs.Prelude.{ℕ, ◌≡◌, refl, arith, none, some, [], ◌∷◌, Bytes, Assoc, lookup, insert}
use crypt_fs.Message.{Message, kind_put, kind_get, zero_message}
use crypt_fs.Storage.{Store, IsMap, Answers}
use crypt_fs.Storage.InMemory.{in_memory_store, in_memory_store-IsMap, memory_get}
use crypt_fs.Storage.Versioned.{wrapper_put}
use crypt_fs.Storage.Versioned.Refinement.{Entries, put_entry, Refines, wrapper_put-Refines}
use crypt_fs.Storage.Blobs.{blob_put, blob_get, IsAddressed, blob_put_lem}
use crypt_fs.Storage.Paired.{paired_get, paired_get-fast}

abbrev plain : Bytes → Bytes
plain k = k

abbrev memory : Store
memory = in_memory_store plain

abbrev memory-IsMap : IsMap memory
memory-IsMap = in_memory_store-IsMap plain

abbrev plain_kind : ℕ → Bytes
plain_kind k = b'K' ∷ []

abbrev no_entries : Entries
no_entries k = none

empty-Refines : Refines memory memory-IsMap [] no_entries
unfolding in_memory_store-IsMap lookup
empty-Refines = record { shown = λ k. refl; bounded = λ k. tt }

abbrev a_key : Bytes
a_key = b'a' ∷ []

abbrev a_value : Bytes
a_value = b'v' ∷ []

wrapper_put-Refines_example :
    (st : Assoc Bytes) × (wrapper_put memory 1 a_key a_value [] ≡ some (st, none))
    × Refines memory memory-IsMap st (put_entry 1 a_key a_value no_entries)
wrapper_put-Refines_example =
    wrapper_put-Refines memory memory-IsMap 1 a_key a_value [] no_entries (omega arith)
      empty-Refines

abbrev put_message : Message
put_message = record { kind = kind_put; tag = 5; key = a_key; value = a_value; version = 1 }

abbrev get_message : Message
get_message = record zero_message { kind = kind_get; tag = 6; key = a_key }

-- With the identity as the hash.
nothing-IsAddressed : IsAddressed plain memory memory-IsMap []
unfolding in_memory_store-IsMap lookup
nothing-IsAddressed = record { under_hash = λ k w h. cc }

blob_put_lem_example :
    ((blob_put plain memory a_value []).2 ≡ none)
    × ((blob_put plain memory a_value []).1 ≡ a_value)
    × Answers (some a_value) (blob_get plain memory a_value (blob_put plain memory a_value []).0).1
    × IsAddressed plain memory memory-IsMap (blob_put plain memory a_value []).0
blob_put_lem_example = blob_put_lem plain memory memory-IsMap a_value [] nothing-IsAddressed

paired_get-fast_example :
    paired_get memory memory a_key ([], insert a_key a_value [])
    ≡ (([], insert a_key a_value []), (memory_get plain a_key []).1)
unfolding memory_get
paired_get-fast_example = paired_get-fast memory memory a_key [] (insert a_key a_value [])
