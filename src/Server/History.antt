-- ===== src/Server/History.antt =====
-- The puts that the server has accepted, over all connections, in the order of the rounds
-- (pkg/network/server/conn.go).
pub mod Effect
pub mod Order
pub mod Legal
use crypt_fs.Prelude.{ℕ, ◌≡◌, Option, none, some, Bool, true, List, [], ◌∷◌, ◌++◌, Bytes}
use crypt_fs.Message.{Message, Kind}
use crypt_fs.Message.Encoding
use crypt_fs.Storage.Versioned.{VersionedStore}
use crypt_fs.Storage.Versioned.Refinement.{Entries, accepts, put_entry}
use crypt_fs.Server.{Options}
use crypt_fs.Server.Locked
use crypt_fs.Server.Locked.{Server, here, next, attach, round, detach, notify}
use crypt_fs.Server.Session.{started}

-- The entries after puts.
abbrev pub entries_after : List Message → Entries → Entries
entries_after [] a = a
entries_after (m ∷ ms) a = entries_after ms (put_entry m.version m.key m.value a)

-- Each put is one that the entries accept which the puts in front of it have left.
abbrev pub IsLegal : List Message → Entries → Type 0
IsLegal [] a = Unit {0}
IsLegal (m ∷ ms) a =
    (accepts m.version (a m.key) ≡ true) × IsLegal ms (put_entry m.version m.key m.value a)

module _ {W : Type 0} (write : W → Bytes → W × ℕ × Option Encoding.Error)
    (verify : Bytes → Bytes → Bool) (format_kind : Kind → Bytes) (store : VersionedStore)
    (o : Options) where
  -- The put that a step accepts: the one that its round sends on.
  abbrev pub step_history :
      {s t : Server W store.State} → Locked.Step write verify format_kind store o s t → List Message
  step_history (attach s id input out) = []
  step_history (round s before after sc sc' st sent at_conn handles) = started sent
  step_history (detach s before after sc at_conn handles) = []
  step_history (notify s before after id m conns is_pending sends) = []

  unfoldable pub history :
      {s t : Server W store.State}
      → Locked.Reach write verify format_kind store o s t
      → List Message
  history here = []
  history (next path step) = history path ++ step_history step
