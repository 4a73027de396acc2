-- ===== src/Tests/Session.antt =====
-- A run of the messages of one client (pkg/network/server/conn.go).
use crypt_fs.Prelude.{inl, inr, refl, arith, none, [], ◌∷◌, ◌++◌, Bytes, List, lookup, bytes_eq}
use crypt_fs.Prelude.Text.{codes}
use crypt_fs.Message.{Message, kind_put, kind_get, zero_message}
use crypt_fs.Message.Encoding.{eof}
use crypt_fs.Message.Encoding.Wire
use crypt_fs.Message.Encoding.Wire.{IsSendable}
use crypt_fs.Message.Encoding.Stream.{wires}
use crypt_fs.Storage.{Store, IsMap}
use crypt_fs.Storage.InMemory.{in_memory_store, in_memory_store-IsMap}
use crypt_fs.Storage.Versioned.Refinement.{Entries, Refines}
use crypt_fs.Server.{new_options, ServerConn, wants_password}
use crypt_fs.Server.Locked.{wrap_conn}
use crypt_fs.Server.Session.Refinement.{Served, session_lem}

abbrev pub memory : Store
memory = in_memory_store (λ k. k)

abbrev pub memory-IsMap : IsMap memory
memory-IsMap = in_memory_store-IsMap (λ k. k)

abbrev pub no_entries : Entries
no_entries k = none

pub empty-Refines : Refines memory memory-IsMap [] no_entries
unfolding in_memory_store-IsMap lookup
empty-Refines = record { shown = λ k. refl; bounded = λ k. tt }

-- A put, the same put again, which is stale, and a get.
abbrev pub a_put : Message
a_put = record { kind = kind_put; tag = 2; key = codes "k"; value = codes "v"; version = 1 }

abbrev a_get : Message
a_get = record zero_message { kind = kind_get; tag = 3; key = codes "k" }

abbrev talk : List Message
talk = a_put ∷ a_put ∷ a_get ∷ []

pub a_put-IsSendable : IsSendable a_put
a_put-IsSendable = Wire.put refl (omega arith) (omega arith) (omega arith) (omega arith)

a_get-IsSendable : IsSendable a_get
a_get-IsSendable = Wire.get refl refl refl (omega arith) (omega arith)

abbrev talking : ServerConn Bytes
talking = wrap_conn 1 (record { stream = wires talk ++ []; fault = eof }) []

session_lem_example :
    Served bytes_eq (λ k. []) memory memory-IsMap (new_options []) no_entries talk talking []
unfolding new_options wrap_conn wants_password
session_lem_example =
    session_lem bytes_eq (λ k. []) memory memory-IsMap (new_options []) talk [] eof talking []
      no_entries refl refl (a_put-IsSendable, (a_put-IsSendable, (a_get-IsSendable, tt)))
      (inr refl, (inr refl, (inl refl, tt))) empty-Refines
