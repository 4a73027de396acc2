-- ===== src/Server/Rounds.antt =====
-- handleInput of pkg/network/server/conn.go on the messages that a client sends, over a map.
use crypt_fs.Prelude.{
  ℕ, ◌<◌, ◌≡◌, refl, ap, ◌∙◌, Option, none, some, Bool, true, false, not, ◌&&◌, ◌++◌, Bytes, ◌>>=◌,
  arith, lt→ltb,
}
use crypt_fs.Message.{Message, Kind, zero_message}
use crypt_fs.Message.Encoding
use crypt_fs.Message.Encoding.{Encoder, Decoder, Reader, encode, decode}
use crypt_fs.Message.Encoding.Wire.{wire, IsSendable}
use crypt_fs.Message.Encoding.Encode.{encode-wire}
use crypt_fs.Message.Encoding.RoundTrip.{decode-wire}
use crypt_fs.Storage.Versioned.{VersionedStore}
use crypt_fs.Storage.Apply.{apply_message}
use crypt_fs.Server.{
  Options, wants_password, ServerConn, Round, handled, detached, to_broadcast, respond, finish,
  answer, handle_input,
}

-- The connection's messages are applied: no password is wanted, or it has said it.
abbrev pub lets_in : {W : Type 0} → Options → ServerConn W → Bool
lets_in o sc = not (wants_password o && not sc.authorized)

-- A connection after a round: what it has still to read, and what was written to it.
pub record Rounded {W : Type 0} (write : W → Bytes → W × ℕ × Option Encoding.Error)
    (sc sc' : ServerConn W) (rest : Reader) (output : Message) : Type 0 where
  pub input : sc'.input ≡ rest
  pub out : sc'.out ≡ (write sc.out (wire output)).0
  pub id : sc'.id ≡ sc.id
  pub authorized : sc'.authorized ≡ sc.authorized

module _ {W : Type 0} (write : W → Bytes → W × ℕ × Option Encoding.Error)
    (verify : Bytes → Bytes → Bool) (format_kind : Kind → Bytes) (store : VersionedStore)
    (o : Options) where
  finish-Rounded :
      (sc : ServerConn W) (rest : Reader) (input output : Message) (st : store.State)
      → output.kind < 4
      → (sc' : ServerConn W) × (finish write verify format_kind store o sc rest input sc.authorized
            st output
          ≡ some (handled sc' st (to_broadcast input output)))
        × Rounded write sc sc' rest output
  unfolding finish
  finish-Rounded sc rest input output st known =
      let (e', sent) = encode-wire write sc.encoder sc.out output in
      let is_known = lt→ltb output.kind 4 known in
      (
        record sc { input = rest; out = (write sc.out (wire output)).0; encoder = e' },
        rw (sent, is_known),
        record { input = refl; out = refl; id = refl; authorized = refl },
      )

  respond-applies :
      (sc : ServerConn W) (input output : Message) (st st' : store.State)
      → lets_in o sc ≡ true
      → apply_message format_kind store input st ≡ some (st', output)
      → respond verify format_kind store o sc.authorized input st
        ≡ some (sc.authorized, st', output)
  unfolding respond
  respond-applies sc input output st st' open_ applied =
      let free : (wants_password o && not sc.authorized) ≡ false = ground arith in
      rw (free, applied)

  handle_input-read :
      (sc : ServerConn W) (st : store.State) (d : Decoder) (rest : Reader) (input : Message)
      → decode sc.decoder sc.input zero_message ≡ some (d, rest, input)
      → d.err ≡ none
      → handle_input write verify format_kind store o sc st
        ≡ answer write verify format_kind store o (record sc { decoder = d }) rest input st
  unfolding handle_input
  handle_input-read sc st d rest input read clean =
      ap
        (λ (r : Option (Decoder × Reader × Message)). r >>= (λ x.
          elim x.0.err as (λ _. Option (Round W store.State)) [
            | some e ↦ some detached
            | none ↦
                answer write verify format_kind store o (record sc { decoder = x.0 }) x.1 x.2 st
          ]))
        read
      ∙ ap
          (λ (e : Option Encoding.Error). elim e as (λ _. Option (Round W store.State)) [
            | some x ↦ some detached
            | none ↦
                answer write verify format_kind store o (record sc { decoder = d }) rest input st
          ])
          clean

  -- A round on a message that is applied.
  pub handle_input-Rounded :
      (sc : ServerConn W) (input output : Message) (rest : Bytes) (fault : Encoding.Error)
      (st st' : store.State)
      → sc.input ≡ record { stream = wire input ++ rest; fault = fault }
      → IsSendable input
      → lets_in o sc ≡ true
      → output.kind < 4
      → apply_message format_kind store input st ≡ some (st', output)
      → (sc' : ServerConn W) × (handle_input write verify format_kind store o sc st
          ≡ some (handled sc' st' (to_broadcast input output)))
        × Rounded write sc sc' (record { stream = rest; fault = fault }) output
  unfolding handle_input answer
  handle_input-Rounded sc input output rest fault st st' at_input h open_ known applied =
      let d = decode-wire sc.decoder input rest fault h in
      let read : decode sc.decoder sc.input zero_message
          ≡ some (d.decoder, record { stream = rest; fault = fault }, input) =
        ap (λ i. decode sc.decoder i zero_message) at_input ∙ d.run in
      let said = respond-applies sc input output st st' open_ applied in
      let (sc', done, r) =
        finish-Rounded (record sc { decoder = d.decoder }) (record { stream = rest; fault = fault })
          input output st' known in
      (
        sc',
        handle_input-read sc st d.decoder (record { stream = rest; fault = fault }) input read
              d.clean
            ∙ (rw (answer, said) done),
        record { input = r.input; out = r.out; id = r.id; authorized = r.authorized },
      )
