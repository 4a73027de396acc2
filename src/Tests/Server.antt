-- ===== src/Tests/Server.antt =====
-- Runs of pkg/network/server over connections that write to a buffer.
use crypt_fs.Prelude.{
  ℕ, ◌≡◌, refl, Option, none, some, Bool, true, false, List, [], ◌∷◌, ◌++◌, Bytes, bytes_eq,
}
use crypt_fs.Message.{Message, kind_put, kind_auth, zero_message}
use crypt_fs.Message.Encoding
use crypt_fs.Message.Encoding.{eof}
use crypt_fs.Message.Encoding.Stream.{buffer_write}
use crypt_fs.Message.Encoding.Wire.{wire}
use crypt_fs.Storage.Versioned.{new_versioned_wrapper, VersionedStore}
use crypt_fs.Storage.InMemory.{in_memory_store}
use crypt_fs.Server.{
  Options, new_options, with_key_pair, with_auth_hash, wants_password, ServerConn, handle_input,
  handled, detached, broadcast, Round,
}
use crypt_fs.Server.Broadcast.{broadcast_lem, Notified}
use crypt_fs.Server.Locked.{wrap_conn, Server, Reach, here, next, attach, IsLocked, Reach-IsLocked}

abbrev plain_kind : ℕ → Bytes
plain_kind k = b'K' ∷ []

abbrev store : VersionedStore
store = new_versioned_wrapper (in_memory_store (λ k. k))

abbrev closed : Options
closed = new_options (with_key_pair [] [] ∷ with_auth_hash (b'p' ∷ []) ∷ [])

closed-wants_password : wants_password closed ≡ true
unfolding wants_password new_options with_key_pair with_auth_hash
closed-wants_password = refl

abbrev secret : Message
secret = record zero_message { kind = kind_auth; tag = 3; value = b'p' ∷ [] }

abbrev a_put : Message
a_put = record { kind = kind_put; tag = 2; key = b'k' ∷ []; value = b'v' ∷ []; version = 1 }

abbrev first : ServerConn Bytes
first = wrap_conn 1 (record { stream = wire a_put; fault = eof }) []

abbrev second : ServerConn Bytes
second = record (wrap_conn 2 (record { stream = []; fault = eof }) []) { authorized = true }

broadcast_lem_example :
    (conns' : List (ServerConn Bytes)) × (broadcast buffer_write closed 3 a_put
        (first ∷ second ∷ [])
      ≡ some conns')
    × Notified buffer_write closed 3 (wire (record a_put { tag = 0 })) (first ∷ second ∷ []) conns'
broadcast_lem_example = broadcast_lem buffer_write closed 3 a_put (first ∷ second ∷ []) refl

-- A connection that puts before it is authorized.
abbrev round_conn : {S : Type 0} → ServerConn Bytes → Option (Round Bytes S) → ServerConn Bytes
round_conn sc (some (handled sc' st sent)) = sc'
round_conn sc (some detached) = sc
round_conn sc none = sc

abbrev first_round : Option (Round Bytes store.State)
first_round = handle_input buffer_write bytes_eq plain_kind store closed first []

abbrev no_password : Bytes → Bytes → Bool
no_password hash password = false

abbrev empty : Server Bytes store.State
empty = record { conns = []; store = []; pending = [] }

abbrev attached : Server Bytes store.State
attached = record empty { conns = [] ++ first ∷ [] }

attached-Reach : Reach buffer_write no_password plain_kind store closed empty attached
attached-Reach = next here (attach empty 1 (record { stream = wire a_put; fault = eof }) [])

Reach-IsLocked_example : IsLocked buffer_write no_password plain_kind store closed [] attached
Reach-IsLocked_example =
    Reach-IsLocked buffer_write no_password plain_kind store closed empty attached
      closed-wants_password (λ password. refl)
      (record { unauthorized = tt; same_store = refl; nothing_pending = refl }) attached-Reach
