-- ===== src/Server/Authorization.antt =====
-- A server that wants a password, and connections that have not given one.
use crypt_fs.Prelude.{
  ℕ, ◌≡◌, ◌∙◌, inl, inr, Option, none, some, Bool, true, false, ◌&&◌, [], Bytes, ◌==◌,
  if◌then◌else◌, arith, Bool-cases, Option-cases,
}
use crypt_fs.Prelude.Text.{codes}
use crypt_fs.Message.{
  Message, Kind, zero_message, kind_auth, get_value, new_error_message, new_auth_message,
}
use crypt_fs.Message.Encoding
use crypt_fs.Message.Encoding.{Encoder, Decoder, Reader, encode, decode}
use crypt_fs.Storage.Versioned.{VersionedStore}
use crypt_fs.Server.{
  Options, wants_password, ServerConn, respond, to_broadcast, handled, finish, answer, handle_input,
}

-- The one message that authorizes: an auth message with a password that verifies.
abbrev pub is_accepted : (Bytes → Bytes → Bool) → Options → Message → Bool
is_accepted verify o input = input.kind == kind_auth && verify o.auth_hash input.value

module _ (verify : Bytes → Bytes → Bool) (format_kind : Kind → Bytes) (store : VersionedStore)
    (o : Options) where
  -- Of a connection that is not authorized, a server that wants a password takes one thing: an auth
  -- message with a password that verifies. That authorizes it and is answered by an empty auth
  -- message; whatever else it sends is answered by an error message and leaves it unauthorized. The
  -- answer has the message's tag, nothing panics, and the store stays as it is.
  pub respond-unauthorized :
      (input : Message) (st : store.State)
      → wants_password o ≡ true
      → (text : Bytes) × (respond verify format_kind store o false input st
          ≡ some (
            is_accepted verify o input,
            st,
            if is_accepted verify o input
                then new_auth_message input.tag []
                else new_error_message input.tag text,
          ))
  unfolding respond get_value
  respond-unauthorized input st wanted = elim (Bool-cases (input.kind == kind_auth)) [
    | inl auth ↦ (codes "go away, bad password", rw (wanted, auth) (ground arith))
    | inr other ↦ (codes "go away, bad message type", rw (wanted, other))
  ]

-- Neither an auth message nor an error message is sent on.
to_broadcast-refused :
    (input : Message) (b : Bool) (tag : ℕ) (text : Bytes)
    → to_broadcast input (if b then new_auth_message tag [] else new_error_message tag text) ≡ none
unfolding to_broadcast new_auth_message new_error_message
to_broadcast-refused input b tag text = ground arith

module _ {W : Type 0} (write : W → Bytes → W × ℕ × Option Encoding.Error)
    (verify : Bytes → Bytes → Bool) (format_kind : Kind → Bytes) (store : VersionedStore)
    (o : Options) where
  -- What a round may do for a connection, with an `id`, that was not authorized.
  pub record Refused (id : ℕ) (sc' : ServerConn W) (st st' : store.State) (sent : Option Message)
      : Type 0 where
    pub input : Message
    pub authorized : sc'.authorized ≡ is_accepted verify o input
    pub same_id : sc'.id ≡ id
    pub store_kept : st' ≡ st
    pub nothing_sent : sent ≡ none

  finish-handled :
      (sc : ServerConn W) (rest : Reader) (input : Message) (authorized : Bool) (st : store.State)
      (output : Message) {sc' : ServerConn W} {st' : store.State} {sent : Option Message}
      → finish write verify format_kind store o sc rest input authorized st output
        ≡ some (handled sc' st' sent)
      → (sc'.authorized ≡ authorized)
        × (sc'.id ≡ sc.id)
        × (st' ≡ st)
        × (sent ≡ to_broadcast input output)
  unfolding finish
  finish-handled sc rest input authorized st output {sc'} {st'} {sent} e = ground arith

  answer-unauthorized :
      (sc : ServerConn W) (rest : Reader) (input : Message) (st : store.State) {sc' : ServerConn W}
      {st' : store.State} {sent : Option Message}
      → wants_password o ≡ true
      → sc.authorized ≡ false
      → answer write verify format_kind store o sc rest input st ≡ some (handled sc' st' sent)
      → Refused sc.id sc' st st' sent
  unfolding answer
  answer-unauthorized sc rest input st wanted locked e =
      let (text, said) = respond-unauthorized verify format_kind store o input st wanted in
      let (auth, id, kept, sent_it) =
        finish-handled sc rest input (is_accepted verify o input) st _
          (rw (locked, answer, said) at e) in
      record {
        input = input;
        authorized = auth;
        same_id = id;
        store_kept = kept;
        nothing_sent =
            sent_it ∙ to_broadcast-refused input (is_accepted verify o input) input.tag text;
      }

  pub handle_input-unauthorized :
      (sc sc' : ServerConn W) (st st' : store.State) (sent : Option Message)
      → wants_password o ≡ true
      → sc.authorized ≡ false
      → handle_input write verify format_kind store o sc st ≡ some (handled sc' st' sent)
      → Refused sc.id sc' st st' sent
  unfolding handle_input
  handle_input-unauthorized sc sc' st st' sent wanted locked e =
      elim (Option-cases (decode sc.decoder sc.input zero_message)) [
        | inl panicked ↦ let gone = rw (panicked, handle_input) at e in cc
        | inr ((d, rest, input), read) ↦ elim (Option-cases d.err) [
          | inl fine ↦
              answer-unauthorized (record sc { decoder = d }) rest input st wanted locked
                (rw (read, handle_input, fine) at e)
          | inr (x, bad) ↦ let gone = rw (read, handle_input, bad) at e in cc
        ]
      ]
