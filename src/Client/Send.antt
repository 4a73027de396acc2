-- ===== src/Client/Send.antt =====
-- Send of pkg/network/client/client.go: what reaches the server, and which connections are left.
use mathlib.Core.Option.{some-injective}
use crypt_fs.Prelude.{
  ℕ, suc, ◌≡◌, ◌⊎◌, inl, inr, refl, sym, ap, ◌∙◌, Option, none, some, Bytes, ◌==◌, Bool-cases,
  Option-cases, length, ltb, ◌||◌,
}
use crypt_fs.Message.{Message}
use crypt_fs.Message.Encoding
use crypt_fs.Message.Encoding.{Encoder, encode, write_result}
use crypt_fs.Message.Encoding.Wire.{wire}
use crypt_fs.Message.Encoding.Encode.{encode-wire}
use crypt_fs.Client.{
  Client, Dialer, Used, get_cached_conn, close_both, consumed, use_conn, do_with_conn, send_ready,
  send_on, send,
}
use crypt_fs.Client.Tidy.{
  IsTidy, IsClosed, IsClosed-IsTidy, SameConns-IsTidy, send_on-SameConns, close_both-IsClosed, Got,
  held, dialed, refused, Got-IsTidy, get_cached_conn-Got,
}

module _ {W : Type 0} (deadline : ℕ → Option Encoding.Error)
    (write : ℕ → W → Bytes → W × ℕ × Option Encoding.Error) where
  -- What the connection said of the message's bytes.
  abbrev pub said : ℕ → W → Message → Option Encoding.Error
  said c w m = write_result (write c w (wire m)).2 (write c w (wire m)).1 (length (wire m))

  -- What a Send leaves, by its error.
  pub record Sent (s : Client W) (m : Message) (s' : Client W) (err : Option Encoding.Error)
      : Type 0 where
    pub failed : (e : Encoding.Error) → err ≡ some e → IsClosed s'
    pub sent :
        err ≡ none
        → (c : ℕ) × (s'.conn ≡ some c)
          × (s'.wires ≡ (write c s.wires (wire m)).0)
          × (said c s.wires m ≡ none)
    pub kept : (c : ℕ) → s.conn ≡ some c → err ≡ none → s'.conn ≡ some c
    pub tidy : IsTidy s'

  -- A message on a connection: how the use ends, and what has been written where it ends well.
  record Done (c : ℕ) (s : Client W) (m : Message) (used : Option (Used W)) : Type 0 where
    after : Client W
    err : Option Encoding.Error
    returned : used ≡ some (after, m, err)
    wrote : err ≡ none → (after.wires ≡ (write c s.wires (wire m)).0) × (said c s.wires m ≡ none)

  send_ready-Done :
      (c : ℕ) (s : Client W) (m : Message) (x : Option Encoding.Error)
      → Done c s m (send_ready deadline write c s m x)
  unfolding send_ready
  send_ready-Done c s m (some e) = record {
    after = s;
    err = some e;
    returned = refl;
    wrote = λ h. cc;
  }
  send_ready-Done c s m none =
      let (e', done) = encode-wire (write c) s.encoder s.wires m in
      elim (Bool-cases (ltb m.kind 4)) [
        | inl known ↦ record {
          after = record s { encoder = e'; wires = (write c s.wires (wire m)).0 };
          err = said c s.wires m;
          returned = rw (done, known);
          wrote = λ h. (refl, h);
        }
        | inr unknown ↦ record {
          after = record s { encoder = e' };
          err = some Encoding.bad_message;
          returned = rw (done, unknown);
          wrote = λ h. cc;
        }
      ]

  -- A message on a connection that is the cached one.
  use_conn-Sent :
      (c : ℕ) (s s₁ : Client W) (m : Message)
      → IsTidy s₁
      → s₁.conn ≡ some c
      → s₁.wires ≡ s.wires
      → ((c' : ℕ) → s.conn ≡ some c' → c' ≡ c)
      → (s' : Client W) × (err : Option Encoding.Error) × (use_conn
            (send_on deadline write)
            m
            s₁
            (inr c)
          ≡ some (s', m, err))
        × Sent s m s' err
  unfolding send_on consumed
  use_conn-Sent c s s₁ m h is_c wires own =
      let r = send_ready-Done c s₁ m (deadline c) in
      let same = send_on-SameConns deadline write c s₁ m (r.after, m, r.err) r.returned in
      let tidy = SameConns-IsTidy s₁ r.after same h in
      elim (Option-cases r.err) [
        | inl fine ↦ (
          r.after,
          none,
          rw (r.returned, fine),
          record {
            failed = λ e bad. cc;
            sent = λ e.
                let (wrote, took) = r.wrote fine in
                (c, same.conn ∙ is_c, wrote ∙ rw wires, sym (ap (λ w. said c w m) wires) ∙ took);
            kept = λ c' has e. same.conn ∙ is_c ∙ ap some (sym (own c' has));
            tidy = tidy;
          },
        )
        | inr (x, failed) ↦
            let shut = close_both-IsClosed (some c) r.after tidy in
            (
              close_both (some c) r.after,
              some x,
              rw (r.returned, failed),
              record {
                failed = λ e bad. shut;
                sent = λ e. cc;
                kept = λ c' has e. cc;
                tidy = IsClosed-IsTidy (close_both (some c) r.after) shut;
              },
            )
      ]

  Got-Sent :
      (s : Client W) (m : Message) (got : Client W × (Encoding.Error ⊎ ℕ))
      → Got s got
      → IsTidy s
      → (s' : Client W) × (err : Option Encoding.Error) × (use_conn
            (send_on deadline write)
            m
            got.0
            got.1
          ≡ some (s', m, err))
        × Sent s m s' err
  Got-Sent s m got (held c e) h =
      use_conn-Sent c s s m h e refl (λ c' has. some-injective _ _ (sym has ∙ e))
  Got-Sent s m got (dialed e) h =
      use_conn-Sent s.next s
        (record s {
          conn = some s.next;
          next = suc s.next;
          is_open = λ d. s.next == d || s.is_open d;
        })
        m (Got-IsTidy (dialed e) h) refl refl (λ c' has. let gone = sym e ∙ has in cc)
  Got-Sent s m got (refused x e) h =
      let shut = close_both-IsClosed none s h in
      (
        close_both none s,
        some x,
        refl,
        record {
          failed = λ y bad. shut;
          sent = λ fine. cc;
          kept = λ c' has fine. cc;
          tidy = IsClosed-IsTidy (close_both none s) shut;
        },
      )

  -- Send, of a client that leaves no connection open but the cached one, does not panic. With no error
  -- the message's wire form, and nothing else, was given to one connection, which took all of it and is
  -- the cached one from then on; if the client had a cached connection, it is that one. With an error,
  -- whether of dialing, of the deadline, of the message's kind or of the write, no connection is open.
  pub send_lem :
      (d : Dialer) (s : Client W) (m : Message)
      → IsTidy s
      → (s' : Client W) × (err : Option Encoding.Error) × (send deadline write d s m
          ≡ some (s', m, err))
        × Sent s m s' err
  unfolding send do_with_conn
  send_lem d s m h = Got-Sent s m (get_cached_conn d s) (get_cached_conn-Got d s) h
