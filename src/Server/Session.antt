-- ===== src/Server/Session.antt =====
-- The messages of one client against an abstract server, a versioned map (pkg/network/server/conn.go).
pub mod Refinement
use crypt_fs.Prelude.{
  ℕ, zero, suc, ◌^◌, ◌<◌, ◌≡◌, ◌⊎◌, inl, inr, refl, sym, ap, ◌∙◌, Option, none, some, Bool, true,
  false, not, ◌&&◌, List, [], ◌∷◌, ◌++◌, Bytes, ◌==◌, ◌>>=◌, if◌then◌else◌, arith, Bool-cases,
  length, All, append_assoc, append-nil, subst,
}
use crypt_fs.Message.{
  Message, Kind, kind_get, kind_put, kind_error, new_error_message, new_put_message,
}
use crypt_fs.Message.Encoding
use crypt_fs.Message.Encoding.{Reader}
use crypt_fs.Message.Encoding.Wire
use crypt_fs.Message.Encoding.Wire.{wire, IsSendable, text}
use crypt_fs.Message.Encoding.Stream.{buffer_write, wires}
use crypt_fs.Storage.{error_text, stale_put, Store, IsMap}
use crypt_fs.Storage.Versioned.{new_versioned_wrapper}
use crypt_fs.Storage.Versioned.Refinement.{Entries, accepts, put_entry, Refines}
use crypt_fs.Storage.Apply.{apply_message, apply_message-get, apply_message-put, OwedGet}
use crypt_fs.Server.{Options, ServerConn, Round, handled, detached, to_broadcast, handle_input}
use crypt_fs.Server.Rounds.{lets_in, Rounded, handle_input-Rounded}

-- The messages that a broadcast is started for.
abbrev pub started : Option Message → List Message
started none = []
started (some m) = m ∷ []

module _ (verify : Bytes → Bytes → Bool) (format_kind : Kind → Bytes) (s : Store)
    (o : Options) where
  -- What the loop of handleInput has done so far: the connection, the store, and what it sends on.
  abbrev pub Progress : Type 0
  Progress = ServerConn Bytes × s.State × List Message

  -- The first rounds of the loop, or those up to its end.
  unfoldable pub rounds : ℕ → ServerConn Bytes → s.State → Option Progress
  unfolding handle_input
  rounds zero sc st = some (sc, st, [])
  rounds (suc n) sc st = do
    r ← handle_input buffer_write verify format_kind (new_versioned_wrapper s) o sc st
    elim r [
      | detached ↦ some (sc, st, [])
      | handled sc' st' sent ↦ do
        (sc'', st'', more) ← rounds n sc' st'
        some (sc'', st'', started sent ++ more)
    ]

abbrev pub IsRequest : Message → Type 0
IsRequest m = (m.kind ≡ kind_get) ⊎ (m.kind ≡ kind_put)

-- What a versioned map owes for a put: the message itself, or the error of a stale put.
abbrev pub owed_put : Message → Bool → Message
owed_put m true = m
owed_put m false = new_error_message m.tag (error_text stale_put)

abbrev pub sent_on : Message → Bool → List Message
sent_on m true = m ∷ []
sent_on m false = []

-- The abstract server: from a versioned map and messages to the answers, to the messages that it sends
-- on, and to the map afterwards.
pub data Session : Entries → List Message → List Message → List Message → Entries → Type 0 where
  over : (a : Entries) → Session a [] [] [] a
  get :
      (a a' : Entries) (m output : Message) (ms outs sent : List Message)
      → m.kind ≡ kind_get
      → OwedGet m (a m.key) output
      → Session a ms outs sent a'
      → Session a (m ∷ ms) (output ∷ outs) sent a'
  put :
      (a a' : Entries) (m : Message) (ms outs sent : List Message)
      → m.kind ≡ kind_put
      → Session (put_entry m.version m.key m.value a) ms outs sent a'
      → Session a
          (m ∷ ms)
          (owed_put m (accepts m.version (a m.key)) ∷ outs)
          (sent_on m (accepts m.version (a m.key)) ++ sent)
          a'
