-- ===== src/Tests/History.antt =====
-- A run of two clients that put one key (pkg/network/server).
use crypt_fs.Prelude.{ℕ, ◌≡◌, ◌<◌, refl, arith, some, List, [], ◌∷◌, ◌++◌, Bytes, bytes_eq}
use crypt_fs.Prelude.Text.{codes}
use crypt_fs.Message.{Message}
use crypt_fs.Message.Encoding.{eof, Reader}
use crypt_fs.Message.Encoding.Wire
use crypt_fs.Message.Encoding.Wire.{wire, IsSendable}
use crypt_fs.Message.Encoding.Stream.{buffer_write}
use crypt_fs.Storage.Versioned.{new_versioned_wrapper}
use crypt_fs.Storage.Versioned.Refinement.{Entries, Refines, put_entry}
use crypt_fs.Storage.Apply.{apply_message, apply_message-put}
use crypt_fs.Server.{
  Options, new_options, ServerConn, wants_password, handle_input, handled, to_broadcast,
}
use crypt_fs.Server.Locked
use crypt_fs.Server.Locked.{wrap_conn, Server, here, next, round, notify}
use crypt_fs.Server.Rounds.{handle_input-Rounded}
use crypt_fs.Server.History.{IsLegal, entries_after, history}
use crypt_fs.Server.History.Legal.{Reach-IsLegal, history_ascending}
use crypt_fs.Tests.Session.{
  memory, memory-IsMap, no_entries, empty-Refines, a_put, a_put-IsSendable,
}

abbrev no_auth : Options
no_auth = new_options []

abbrev plain_kind : ℕ → Bytes
plain_kind k = []

-- The next version, by another client.
abbrev next_put : Message
next_put = record a_put { version = 2; value = codes "w" }

next_put-IsSendable : IsSendable next_put
next_put-IsSendable = Wire.put refl (omega arith) (omega arith) (omega arith) (omega arith)

abbrev carries : Message → Reader
carries m = record { stream = wire m ++ []; fault = eof }

abbrev first : ServerConn Bytes
first = wrap_conn 1 (carries a_put) []

abbrev second : ServerConn Bytes
second = wrap_conn 2 (carries next_put) []

abbrev entries : Entries
entries = put_entry 1 (codes "k") (codes "v") no_entries

put_first :
    (st : memory.State) × (apply_message plain_kind (new_versioned_wrapper memory) a_put []
      ≡ some (st, a_put))
    × Refines memory memory-IsMap st entries
put_first =
    apply_message-put plain_kind memory memory-IsMap a_put [] no_entries refl (omega arith)
      empty-Refines

put_second :
    (st : memory.State) × (apply_message plain_kind
        (new_versioned_wrapper memory)
        next_put
        put_first.0
      ≡ some (st, next_put))
    × Refines memory memory-IsMap st (put_entry 2 (codes "k") (codes "w") entries)
unfolding bytes_eq
put_second =
    apply_message-put plain_kind memory memory-IsMap next_put put_first.0 entries refl (omega arith)
      put_first.2

abbrev Rounds : ServerConn Bytes → Message → memory.State → memory.State → Type 0
Rounds sc m st st' =
    (sc' : ServerConn Bytes) × (handle_input buffer_write bytes_eq plain_kind
        (new_versioned_wrapper memory) no_auth sc st
      ≡ some (handled sc' st' (some m)))

round_first : Rounds first a_put [] put_first.0
unfolding to_broadcast wrap_conn new_options wants_password
round_first =
    let (sc', e, rounded) =
      handle_input-Rounded buffer_write bytes_eq plain_kind (new_versioned_wrapper memory) no_auth
        first a_put a_put [] eof [] put_first.0 refl a_put-IsSendable refl (omega arith)
        put_first.1 in
    (sc', e)

round_second : Rounds second next_put put_first.0 put_second.0
unfolding to_broadcast wrap_conn new_options wants_password
round_second =
    let (sc', e, rounded) =
      handle_input-Rounded buffer_write bytes_eq plain_kind (new_versioned_wrapper memory) no_auth
        second next_put next_put [] eof put_first.0 put_second.0 refl next_put-IsSendable refl
        (omega arith) put_second.1 in
    (sc', e)

abbrev both : Server Bytes memory.State
both = record { conns = first ∷ second ∷ []; store = []; pending = [] }

abbrev both_put : Server Bytes memory.State
both_put = record {
  conns = round_first.0 ∷ round_second.0 ∷ [];
  store = put_second.0;
  pending = (1, a_put) ∷ (2, next_put) ∷ [];
}

two_rounds :
    Locked.Reach buffer_write bytes_eq plain_kind
      (new_versioned_wrapper memory)
      no_auth
      both
      both_put
unfolding wrap_conn
two_rounds =
    next
      (next here (
        round both [] (second ∷ []) first round_first.0 put_first.0 (some a_put) refl
          round_first.1))
      (round _ (round_first.0 ∷ []) [] second round_second.0 put_second.0 (some next_put) refl
        round_second.1)

abbrev the_puts : List Message
the_puts =
    history buffer_write bytes_eq plain_kind (new_versioned_wrapper memory) no_auth two_rounds

two_puts : the_puts ≡ a_put ∷ next_put ∷ []
unfolding two_rounds history
two_puts = refl

Reach-IsLegal_example :
    IsLegal the_puts no_entries
    × Refines memory memory-IsMap both_put.store (entries_after the_puts no_entries)
Reach-IsLegal_example =
    Reach-IsLegal buffer_write bytes_eq plain_kind memory memory-IsMap no_auth both both_put
      two_rounds no_entries empty-Refines

history_ascending_example : a_put.version < next_put.version
history_ascending_example =
    history_ascending buffer_write bytes_eq plain_kind memory memory-IsMap no_auth both both_put
      two_rounds no_entries [] [] [] a_put next_put empty-Refines two_puts refl (omega arith) tt
