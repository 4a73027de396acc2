-- ===== src/Client.antt =====
-- pkg/network/client/client.go: the client's cached connection to the metadata server.
-- A connection is a number: the dialed ones are numbered from 0. What dialing, a connection's deadline
-- and its two directions do are parameters. `none` is a panic. Log lines are left out.
pub mod Tidy
pub mod Send
pub mod Receive
use crypt_fs.Prelude.{
  ℕ, suc, ◌⊎◌, inl, inr, Option, none, some, Bool, true, false, not, ◌&&◌, ◌||◌, List, [], ◌∷◌,
  Bytes, ◌==◌, ◌>>=◌, if◌then◌else◌,
}
use crypt_fs.Prelude.Text.{codes}
use crypt_fs.Message.{Message}
use crypt_fs.Message.Encoding
use crypt_fs.Message.Encoding.{Encoder, Decoder, Reader, encode, decode}

pub record Options : Type 0 where
  pub address : Bytes
  pub fall_back_to_plain_tcp : Bool

unfoldable pub with_address : Bytes → Options → Options
with_address value o = record o { address = value }

unfoldable pub with_fallback_to_plain_tcp : Options → Options
with_fallback_to_plain_tcp o = record o { fall_back_to_plain_tcp = true }

abbrev pub default_options : Options
default_options = record { address = codes "tcp://127.0.0.1:8000"; fall_back_to_plain_tcp = false }

-- The client, and the connections: the next one's number, which are open, the state of what they
-- send, and what each is still to receive.
pub record Client (W : Type 0) : Type 0 where
  pub opts : Options
  pub encoder : Encoder
  pub decoder : Decoder
  pub conn : Option ℕ
  pub next : ℕ
  pub is_open : ℕ → Bool
  pub wires : W
  pub readers : ℕ → Reader

-- The options, in order.
unfoldable pub set_options : List (Options → Options) → Options → Options
set_options [] o = o
set_options (f ∷ fs) o = set_options fs (f o)

unfoldable pub new_client : {W : Type 0} → List (Options → Options) → W → (ℕ → Reader) → Client W
unfolding set_options
new_client options wires readers = record {
  opts = set_options options default_options;
  encoder = record { buf = []; off = 0 };
  decoder = record { buf = []; off = 0; err = none };
  conn = none;
  next = 0;
  is_open = λ c. false;
  wires = wires;
  readers = readers;
}

-- What tls.Dial and net.Dial do with an address: an error, or none for a new connection.
pub record Dialer : Type 0 where
  pub tls_dial : Bytes → Option Encoding.Error
  pub net_dial : Bytes → Option Encoding.Error

-- strings.HasPrefix, and then strings.TrimPrefix.
unfoldable pub strip_prefix : Bytes → Bytes → Option Bytes
strip_prefix [] text = some text
strip_prefix (x ∷ prefix) [] = none
strip_prefix (x ∷ prefix) (y ∷ text) = if x == y then strip_prefix prefix text else none

abbrev pub tls_scheme : Bytes
tls_scheme = codes "tls://"

-- The fallback, which gets the address with its scheme.
abbrev pub fall_back : Dialer → Options → Option Encoding.Error → Option Encoding.Error
fall_back d o none = none
fall_back d o (some e) = if o.fall_back_to_plain_tcp then d.net_dial o.address else some e

unfoldable pub dial : Dialer → Options → Option Encoding.Error
unfolding strip_prefix
dial d o = elim (strip_prefix tls_scheme o.address) [
  | some host ↦ fall_back d o (d.tls_dial host)
  | none ↦ d.net_dial o.address
]

-- What a use of a connection returns: the client, the message, which is the one sent or received,
-- and the error.
abbrev pub Used : Type 0 → Type 0
Used W = Client W × Message × Option Encoding.Error

-- cached == c.conn
abbrev pub is_own : Option ℕ → ℕ → Bool
is_own none c = false
is_own (some own) c = own == c

module _ {W : Type 0} where
  unfoldable pub close : ℕ → Client W → Client W
  close c s = record s { is_open = λ d. not (c == d) && s.is_open d }

  -- A connection that was just dialed is cached.
  unfoldable pub connected : Option Encoding.Error → Client W → Client W × (Encoding.Error ⊎ ℕ)
  connected (some e) s = (s, inl e)
  connected none s = (
    record s { conn = some s.next; next = suc s.next; is_open = λ d. s.next == d || s.is_open d },
    inr s.next,
  )

  unfoldable pub cached_or_dialed : Dialer → Client W → Option ℕ → Client W × (Encoding.Error ⊎ ℕ)
  unfolding dial connected
  cached_or_dialed d s (some c) = (s, inr c)
  cached_or_dialed d s none = connected (dial d s.opts) s

  unfoldable pub get_cached_conn : Dialer → Client W → Client W × (Encoding.Error ⊎ ℕ)
  unfolding cached_or_dialed
  get_cached_conn d s = cached_or_dialed d s s.conn

  -- The client's own connection.
  unfoldable pub close_own : Option ℕ → Client W → Client W
  unfolding close
  close_own none s = s
  close_own (some c) s = record (close c s) { conn = none }

  -- A connection that is not the client's own one.
  unfoldable pub close_other : ℕ → Client W → Client W
  unfolding close
  close_other c s = if is_own s.conn c then s else close c s

  -- `cached` is the connection that failed, or nil. The own one is closed too.
  unfoldable pub close_both : Option ℕ → Client W → Client W
  unfolding close_own close_other
  close_both none s = close_own s.conn s
  close_both (some cached) s = close_own s.conn (close_other cached s)

  -- The consumer has returned.
  unfoldable pub consumed : ℕ → Used W → Used W
  unfolding close_both
  consumed c (s, m, none) = (s, m, none)
  consumed c (s, m, some e) = (close_both (some c) s, m, some e)

  abbrev pub use_conn :
      (ℕ → Client W → Message → Option (Used W))
      → Message
      → Client W
      → Encoding.Error ⊎ ℕ
      → Option (Used W)
  use_conn consumer m s (inl e) = some (close_both none s, m, some e)
  use_conn consumer m s (inr c) = do done ← consumer c s m; some (consumed c done)

  unfoldable pub do_with_conn :
      Dialer → (ℕ → Client W → Message → Option (Used W)) → Client W → Message → Option (Used W)
  unfolding get_cached_conn consumed
  do_with_conn d consumer s m = let (s₁, got) = get_cached_conn d s in use_conn consumer m s₁ got

  module _ (deadline : ℕ → Option Encoding.Error)
      (write : ℕ → W → Bytes → W × ℕ × Option Encoding.Error) where
    -- The deadline was set, or could not be set.
    unfoldable pub send_ready : ℕ → Client W → Message → Option Encoding.Error → Option (Used W)
    unfolding encode
    send_ready c s m (some e) = some (s, m, some e)
    send_ready c s m none = do
      (encoder, wires, err) ← encode (write c) s.encoder s.wires m
      some (record s { encoder = encoder; wires = wires }, m, err)

    unfoldable pub send_on : ℕ → Client W → Message → Option (Used W)
    unfolding send_ready
    send_on c s m = send_ready c s m (deadline c)

    unfoldable pub send : Dialer → Client W → Message → Option (Used W)
    unfolding do_with_conn send_on
    send d = do_with_conn d send_on

  unfoldable pub receive_on : ℕ → Client W → Message → Option (Used W)
  unfolding decode
  receive_on c s m = do
    (decoder, reader, m') ← decode s.decoder (s.readers c) m
    some (
      record s { decoder = decoder; readers = λ d. if c == d then reader else s.readers d },
      m',
      decoder.err,
    )

  unfoldable pub receive : Dialer → Client W → Message → Option (Used W)
  unfolding do_with_conn receive_on
  receive d = do_with_conn d receive_on
