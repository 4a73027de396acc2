-- ===== src/Client/Receive.antt =====
-- Receive of pkg/network/client/client.go, on a message that the server has sent.
use crypt_fs.Prelude.{
  ℕ, inr, ◌≡◌, refl, ap, ◌∙◌, Option, none, some, ◌++◌, Bytes, ◌==◌, ◌>>=◌, if◌then◌else◌, arith,
}
use crypt_fs.Message.{Message, zero_message}
use crypt_fs.Message.Encoding
use crypt_fs.Message.Encoding.{Decoder, Reader, decode}
use crypt_fs.Message.Encoding.Wire.{wire, IsSendable}
use crypt_fs.Message.Encoding.RoundTrip.{decode-wire}
use crypt_fs.Client.{
  Client, Dialer, cached_or_dialed, get_cached_conn, consumed, use_conn, do_with_conn, receive_on,
  receive,
}

-- What a Receive leaves: the connection, and what it has still to read.
pub record Received {W : Type 0} (s s' : Client W) (c : ℕ) (rest : Reader) : Type 0 where
  pub conn : s'.conn ≡ s.conn
  pub is_open : s'.is_open ≡ s.is_open
  pub wires : s'.wires ≡ s.wires
  pub reader : s'.readers c ≡ rest

module _ {W : Type 0} where
  get_cached_conn-held :
      (d : Dialer) (s : Client W) (c : ℕ) → s.conn ≡ some c → get_cached_conn d s ≡ (s, inr c)
  unfolding get_cached_conn cached_or_dialed
  get_cached_conn-held d s c e = ap (cached_or_dialed d s) e

  receive_on-wire :
      (c : ℕ) (s : Client W) (m : Message) (rest : Bytes) (fault : Encoding.Error)
      → s.readers c ≡ record { stream = wire m ++ rest; fault = fault }
      → IsSendable m
      → (s' : Client W) × (receive_on c s zero_message ≡ some (s', m, none))
        × Received s s' c (record { stream = rest; fault = fault })
  unfolding receive_on
  receive_on-wire c s m rest fault at_reader h =
      let d = decode-wire s.decoder m rest fault h in
      let read : decode s.decoder (s.readers c) zero_message
          ≡ some (d.decoder, record { stream = rest; fault = fault }, m) =
        ap (λ r. decode s.decoder r zero_message) at_reader ∙ d.run in
      let s' : Client W = record s {
        decoder = d.decoder;
        readers = λ e. if c == e then record { stream = rest; fault = fault } else s.readers e;
      } in
      (
        s',
        ap
              (λ (x : Option (Decoder × Reader × Message)). x >>= (λ y. some (
                record s { decoder = y.0; readers = λ e. if c == e then y.1 else s.readers e },
                y.2,
                y.0.err,
              )))
              read
            ∙ ap (λ e. some (s', m, e)) d.clean,
        record { conn = refl; is_open = refl; wires = refl; reader = ground arith },
      )

  -- A Receive on a cached connection that carries a message returns that message and no error, keeps
  -- the connection, and leaves what follows the message to be read.
  pub receive_lem :
      (d : Dialer) (s : Client W) (c : ℕ) (m : Message) (rest : Bytes) (fault : Encoding.Error)
      → s.conn ≡ some c
      → s.readers c ≡ record { stream = wire m ++ rest; fault = fault }
      → IsSendable m
      → (s' : Client W) × (receive d s zero_message ≡ some (s', m, none))
        × Received s s' c (record { stream = rest; fault = fault })
  unfolding receive do_with_conn consumed
  receive_lem d s c m rest fault at_conn at_reader h =
      let (s', done, r) = receive_on-wire c s m rest fault at_reader h in
      (
        s',
        ap (λ got. use_conn receive_on zero_message got.0 got.1)
              (get_cached_conn-held d s c at_conn)
            ∙ rw done,
        r,
      )
