-- ===== src/Server/History/Effect.antt =====
-- What a round of handleInput does to a store that holds a map (pkg/network/server/conn.go).
use crypt_fs.Prelude.{
  ℕ, ◌^◌, ◌<◌, ◌≡◌, inl, inr, ==_iff, refl, sym, ap, ◌∙◌, Option, none, some, Bool, true, false,
  ◌==◌, ◌&&◌, ◌||◌, Bytes, not, arith, Bool-cases, Option-cases, if◌then◌else◌, >>=-eq-some, subst,
}
use crypt_fs.Message.{
  Message, Kind, zero_message, kind_get, kind_put, kind_auth, kind_error, new_error_message,
}
use crypt_fs.Message.Encoding
use crypt_fs.Message.Encoding.{Reader, decode, encode}
use crypt_fs.Message.Encoding.Range.{decode_range}
use crypt_fs.Storage.{Store, IsMap, error_text, stale_put}
use crypt_fs.Storage.Versioned.{new_versioned_wrapper}
use crypt_fs.Storage.Versioned.Refinement.{Entries, accepts, put_entry, Refines}
use crypt_fs.Storage.Apply.{apply_message, apply_message-get, apply_message-put}
use crypt_fs.Server.{
  Options, wants_password, ServerConn, handled, to_broadcast, respond, finish, answer, handle_input,
}
use crypt_fs.Server.Authorization.{Refused, handle_input-unauthorized}
use crypt_fs.Server.Session.{started}
use crypt_fs.Server.History.{entries_after, IsLegal}

module _ (s : Store) (mm : IsMap s) where
  -- The put that is sent on, if there is one, was accepted, and it alone changed the entries.
  pub record Effect (a : Entries) (st : s.State) (sent : Option Message) : Type 0 where
    pub legal : IsLegal (started sent) a
    pub refines : Refines s mm st (entries_after (started sent) a)

  no-Effect : (a : Entries) (st : s.State) → Refines s mm st a → Effect a st none
  no-Effect a st r = record { legal = tt; refines = r }

  refused-Refines :
      (m : Message) (a : Entries) (st : s.State)
      → accepts m.version (a m.key) ≡ false
      → Refines s mm st (put_entry m.version m.key m.value a)
      → Refines s mm st a
  refused-Refines m a st stale r = record {
    shown = λ k. rw stale at (r.shown k);
    bounded = λ k. rw stale at (r.bounded k);
  }

  put-Effect :
      (m output : Message) (a : Entries) (st : s.State) (b : Bool)
      → m.kind ≡ kind_put
      → accepts m.version (a m.key) ≡ b
      → (if b then m else new_error_message m.tag (error_text stale_put)) ≡ output
      → Refines s mm st (put_entry m.version m.key m.value a)
      → Effect a st (to_broadcast m output)
  unfolding to_broadcast new_error_message
  put-Effect m output a st true k ok is r =
      let sent : to_broadcast m output ≡ some m = sym (ap (λ x. to_broadcast m x) is) ∙ rw k refl in
      rw sent (record { legal = (ok, tt); refines = r })
  put-Effect m output a st false k stale is r =
      let sent : to_broadcast m output ≡ none = sym (ap (λ x. to_broadcast m x) is) ∙ rw k refl in
      rw sent (no-Effect a st (refused-Refines m a st stale r))

  other-Effect :
      (m output : Message) (a : Entries) (st : s.State)
      → (m.kind == kind_put) ≡ false
      → Refines s mm st a
      → Effect a st (to_broadcast m output)
  unfolding to_broadcast
  other-Effect m output a st other r = rw other (no-Effect a st r)

  abbrev state_of : s.State → Option (s.State × Message) → s.State
  state_of st none = st
  state_of st (some (st', m)) = st'

  abbrev without_flag : Option (Bool × s.State × Message) → Option (s.State × Message)
  without_flag none = none
  without_flag (some (b, st, m)) = some (st, m)

  abbrev output_of : Message → Option (s.State × Message) → Message
  output_of m none = m
  output_of m (some (st, m')) = m'

  module _ (format_kind : Kind → Bytes) where
    apply_message-Effect :
        (m output : Message) (a : Entries) (st st' : s.State)
        → m.version < 2 ^ 64
        → Refines s mm st a
        → apply_message format_kind (new_versioned_wrapper s) m st ≡ some (st', output)
        → Effect a st' (to_broadcast m output)
    unfolding apply_message
    apply_message-Effect m output a st st' h r e = elim (Bool-cases (m.kind == kind_get)) [
      | inl get ↦
          let k = (==_iff m.kind kind_get).0 get in
          let (st₁, out, done, owed, kept) = apply_message-get format_kind s mm m st a k r in
          let same : st₁ ≡ st' = ap (state_of st') (sym done ∙ e) in
          other-Effect m output a st' (ground (arith, k)) (subst (λ x. Refines s mm x a) same kept)
      | inr other ↦ elim (Bool-cases (m.kind == kind_put)) [
        | inl put ↦
            let k = (==_iff m.kind kind_put).0 put in
            let (st₁, done, kept) = apply_message-put format_kind s mm m st a k h r in
            let same : st₁ ≡ st' = ap (state_of st') (sym done ∙ e) in
            put-Effect m output a st' (accepts m.version (a m.key)) k refl
              (ap (output_of output) (sym done ∙ e))
              (subst (λ x. Refines s mm x (put_entry m.version m.key m.value a)) same kept)
        | inr neither ↦
            let same : st ≡ st' = elim (Bool-cases (m.kind == kind_auth || m.kind == kind_error)) [
              | inl known ↦ ap (state_of st) (rw (other, neither, known) at e)
              | inr unknown ↦ ap (state_of st) (rw (other, neither, unknown) at e)
            ] in
            other-Effect m output a st' neither (subst (λ x. Refines s mm x a) same r)
      ]
    ]

  module _ {W : Type 0} (write : W → Bytes → W × ℕ × Option Encoding.Error)
      (verify : Bytes → Bytes → Bool) (format_kind : Kind → Bytes) (o : Options) where
    respond-applied :
        (authorized authorized' : Bool) (input output : Message) (st st' : s.State)
        → (wants_password o && not authorized) ≡ false
        → respond verify format_kind (new_versioned_wrapper s) o authorized input st
          ≡ some (authorized', st', output)
        → apply_message format_kind (new_versioned_wrapper s) input st ≡ some (st', output)
    unfolding respond
    respond-applied authorized authorized' input output st st' open_ e =
        let ((st₁, out), applied, e₁) =
          >>=-eq-some (apply_message format_kind (new_versioned_wrapper s) input st) _
            (rw open_ at e) in
        applied ∙ ap without_flag e₁

    finish-sent :
        (sc : ServerConn W) (rest : Reader) (input : Message) (authorized : Bool) (st : s.State)
        (output : Message) {sc' : ServerConn W} {st' : s.State} {sent : Option Message}
        → finish write verify format_kind
            (new_versioned_wrapper s)
            o
            sc
            rest
            input
            authorized
            st
            output
          ≡ some (handled sc' st' sent)
        → (st ≡ st') × (to_broadcast input output ≡ sent)
    unfolding finish
    finish-sent sc rest input authorized st output {sc'} {st'} {sent} e = ground arith

    answer-Effect :
        (sc sc' : ServerConn W) (rest : Reader) (input : Message) (a : Entries) (st st' : s.State)
        (sent : Option Message)
        → (wants_password o && not sc.authorized) ≡ false
        → input.version < 2 ^ 64
        → Refines s mm st a
        → answer write verify format_kind (new_versioned_wrapper s) o sc rest input st
          ≡ some (handled sc' st' sent)
        → Effect a st' sent
    unfolding answer
    answer-Effect sc sc' rest input a st st' sent open_ h r e =
        let ((authorized, st₁, output), responds, e₁) =
          >>=-eq-some
            (respond verify format_kind (new_versioned_wrapper s) o sc.authorized input st) _ e in
        let (same, is) = finish-sent sc rest input authorized st₁ output e₁ in
        let applied = respond-applied sc.authorized authorized input output st st₁ open_ responds in
        let effect = apply_message-Effect format_kind input output a st st₁ h r applied in
        subst (Effect a st') is (subst (λ x. Effect a x (to_broadcast input output)) same effect)

    -- A round that goes on has accepted the put that it sends on, if there is one, and changed nothing else.
    pub handle_input-Effect :
        (sc sc' : ServerConn W) (a : Entries) (st st' : s.State) (sent : Option Message)
        → Refines s mm st a
        → handle_input write verify format_kind (new_versioned_wrapper s) o sc st
          ≡ some (handled sc' st' sent)
        → Effect a st' sent
    unfolding handle_input
    handle_input-Effect sc sc' a st st' sent r e =
        elim (Bool-cases (wants_password o && not sc.authorized)) [
          | inl locked ↦
              let w : wants_password o ≡ true = ground (arith, locked) in
              let l : sc.authorized ≡ false = ground (arith, locked) in
              let refused : Refused write verify format_kind (new_versioned_wrapper s) o sc.id sc'
                  st st' sent =
                handle_input-unauthorized write verify format_kind (new_versioned_wrapper s) o sc
                  sc' st st' sent w l e in
              subst (Effect a st') (sym refused.nothing_sent)
                (no-Effect a st' (subst (λ x. Refines s mm x a) (sym refused.store_kept) r))
          | inr open_ ↦
              let ((d, rest, input), reads, e₁) =
                >>=-eq-some (decode sc.decoder sc.input zero_message) _ e in
              elim (Option-cases d.err) [
                | inl fine ↦
                    answer-Effect (record sc { decoder = d }) sc' rest input a st st' sent open_
                      (decode_range sc.decoder d sc.input rest input reads) r (rw fine at e₁)
                | inr (x, bad) ↦ let gone = rw bad at e₁ in cc
              ]
        ]
