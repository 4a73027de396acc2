-- ===== src/Client/Tidy.antt =====
-- The connections that the client leaves open (pkg/network/client/client.go).
use crypt_fs.Prelude.{
  List, ℕ, suc, ◌≡◌, ◌⊎◌, inl, inr, refl, sym, ap, ◌∙◌, Option, none, some, true, false, ◌||◌,
  Bytes, ◌==◌, ==_iff, >>=-eq-some, arith, Bool-cases,
}
use mathlib.Core.Option.{some-injective}
use crypt_fs.Message.{Message}
use crypt_fs.Message.Encoding
use crypt_fs.Message.Encoding.{Reader, encode, decode}
use crypt_fs.Client.{
  Options, Client, Dialer, Used, new_client, dial, close, connected, cached_or_dialed,
  get_cached_conn, close_own, close_other, is_own, close_both, send_ready, send_on, receive_on,
}

-- The cached connection is open, and no other one is.
pub record IsTidy {W : Type 0} (s : Client W) : Type 0 where
  pub cached : (c : ℕ) → s.is_open c ≡ true → s.conn ≡ some c
  pub usable : (c : ℕ) → s.conn ≡ some c → s.is_open c ≡ true

-- No connection is open.
pub record IsClosed {W : Type 0} (s : Client W) : Type 0 where
  pub conn : s.conn ≡ none
  pub closed : (c : ℕ) → s.is_open c ≡ false

module _ {W : Type 0} where
  pub IsClosed-IsTidy : (s : Client W) → IsClosed s → IsTidy s
  IsClosed-IsTidy s h = record {
    cached = λ c e. let gone = h.closed c in ground arith;
    usable = λ c e. let gone = h.conn in ground arith;
  }

  -- The connections that are open, where nothing else than `own` is.
  record IsOnly (own : Option ℕ) (s : Client W) : Type 0 where
    at : (c : ℕ) → s.is_open c ≡ true → own ≡ some c

  close_own-IsClosed :
      (own : Option ℕ) (s : Client W) → s.conn ≡ own → IsOnly own s → IsClosed (close_own own s)
  unfolding close_own close
  close_own-IsClosed none s e h = record {
    conn = e;
    closed = λ c. elim (Bool-cases (s.is_open c)) [
      | inr shut ↦ shut
      | inl opened ↦ let gone = h.at c opened in cc
    ];
  }
  close_own-IsClosed (some own) s e h = record {
    conn = refl;
    closed = λ c. elim (Bool-cases (s.is_open c)) [
      | inr shut ↦ ground arith
      | inl opened ↦ let same = some-injective _ _ (h.at c opened) in ground arith
    ];
  }

  close-IsOnly : (c : ℕ) (own : Option ℕ) (s : Client W) → IsOnly own s → IsOnly own (close c s)
  unfolding close
  close-IsOnly c own s h = record {
    at = λ d e. let open_ : s.is_open d ≡ true = ground arith in h.at d open_;
  }

  -- Whatever failed, nothing is left open.
  pub close_both-IsClosed :
      (cached : Option ℕ) (s : Client W) → IsTidy s → IsClosed (close_both cached s)
  unfolding close_both close_other close
  close_both-IsClosed none s h = close_own-IsClosed s.conn s refl (record { at = h.cached })
  close_both-IsClosed (some c) s h = elim (Bool-cases (is_own s.conn c)) [
    | inl own ↦ rw own (close_own-IsClosed s.conn s refl (record { at = h.cached }))
    | inr other ↦ rw other (
        close_own-IsClosed s.conn (close c s) refl
          (close-IsOnly c s.conn s (record { at = h.cached })))
  ]

  -- A connection was got, which is now the cached one, or none and an error.
  pub data Got (s : Client W) : Client W × (Encoding.Error ⊎ ℕ) → Type 0 where
    held : (c : ℕ) → s.conn ≡ some c → Got s (s, inr c)
    dialed :
        s.conn ≡ none
        → Got s (
          record s {
            conn = some s.next;
            next = suc s.next;
            is_open = λ d. s.next == d || s.is_open d;
          },
          inr s.next,
        )
    refused : (e : Encoding.Error) → s.conn ≡ none → Got s (s, inl e)

  connected-Got : (x : Option Encoding.Error) (s : Client W) → s.conn ≡ none → Got s (connected x s)
  unfolding connected
  connected-Got none s e = dialed e
  connected-Got (some x) s e = refused x e

  cached_or_dialed-Got :
      (d : Dialer) (s : Client W) (o : Option ℕ) → s.conn ≡ o → Got s (cached_or_dialed d s o)
  unfolding cached_or_dialed
  cached_or_dialed-Got d s (some c) e = held c e
  cached_or_dialed-Got d s none e = connected-Got (dial d s.opts) s e

  pub get_cached_conn-Got : (d : Dialer) (s : Client W) → Got s (get_cached_conn d s)
  unfolding get_cached_conn
  get_cached_conn-Got d s = cached_or_dialed-Got d s s.conn refl

  pub Got-IsTidy :
      {s : Client W} {got : Client W × (Encoding.Error ⊎ ℕ)} → Got s got → IsTidy s → IsTidy got.0
  Got-IsTidy (held c e) h = h
  Got-IsTidy (refused x e) h = h
  Got-IsTidy {s} (dialed e) h = record {
    cached = λ c opened. elim (Bool-cases (s.next == c)) [
      | inl same ↦ ap some ((==_iff s.next c).0 same)
      | inr other ↦ let old = sym e ∙ h.cached c (rw other at opened) in cc
    ];
    usable = λ c same. let is_c = some-injective _ _ same in ground arith;
  }

  pub get_cached_conn-IsTidy :
      (d : Dialer) (s : Client W) → IsTidy s → IsTidy (get_cached_conn d s).0
  get_cached_conn-IsTidy d s h = Got-IsTidy (get_cached_conn-Got d s) h

-- The connections are as they were.
pub record SameConns {W : Type 0} (s s' : Client W) : Type 0 where
  pub conn : s'.conn ≡ s.conn
  pub is_open : s'.is_open ≡ s.is_open

module _ {W : Type 0} where
  pub SameConns-IsTidy : (s s' : Client W) → SameConns s s' → IsTidy s → IsTidy s'
  SameConns-IsTidy s s' same h = record {
    cached = λ c e. same.conn ∙ h.cached c (ap (λ f. f c) (sym same.is_open) ∙ e);
    usable = λ c e. ap (λ f. f c) same.is_open ∙ h.usable c (sym same.conn ∙ e);
  }

  pub receive_on-SameConns :
      (c : ℕ) (s : Client W) (m : Message) (u : Used W)
      → receive_on c s m ≡ some u
      → SameConns s u.0
  unfolding receive_on
  receive_on-SameConns c s m u e =
      let (r, done, same) = >>=-eq-some (decode s.decoder (s.readers c) m) _ e in
      let is = ap (λ k. k.0) (some-injective _ _ same) in
      record { conn = ap (λ k. k.conn) (sym is); is_open = ap (λ k. k.is_open) (sym is) }

module _ {W : Type 0} (deadline : ℕ → Option Encoding.Error)
    (write : ℕ → W → Bytes → W × ℕ × Option Encoding.Error) where
  send_ready-SameConns :
      (c : ℕ) (s : Client W) (m : Message) (x : Option Encoding.Error) (u : Used W)
      → send_ready deadline write c s m x ≡ some u
      → SameConns s u.0
  unfolding send_ready
  send_ready-SameConns c s m (some x) u e =
      let is = ap (λ k. k.0) (some-injective _ _ e) in
      record { conn = ap (λ k. k.conn) (sym is); is_open = ap (λ k. k.is_open) (sym is) }
  send_ready-SameConns c s m none u e =
      let (r, done, same) = >>=-eq-some (encode (write c) s.encoder s.wires m) _ e in
      let is = ap (λ k. k.0) (some-injective _ _ same) in
      record { conn = ap (λ k. k.conn) (sym is); is_open = ap (λ k. k.is_open) (sym is) }

  pub send_on-SameConns :
      (c : ℕ) (s : Client W) (m : Message) (u : Used W)
      → send_on deadline write c s m ≡ some u
      → SameConns s u.0
  unfolding send_on
  send_on-SameConns c s m u e = send_ready-SameConns c s m (deadline c) u e

  -- A goroutine that uses the client gets a connection, then sends on it or receives from it, and then
  -- closes where that failed; others may come in between, and Close may be called.
  pub data Step : Client W → Client W → Type 0 where
    get : (d : Dialer) (s : Client W) → Step s (get_cached_conn d s).0
    sends :
        (c : ℕ) (s s' : Client W) (m : Message) (err : Option Encoding.Error)
        → send_on deadline write c s m ≡ some (s', m, err)
        → Step s s'
    receives :
        (c : ℕ) (s s' : Client W) (m m' : Message) (err : Option Encoding.Error)
        → receive_on c s m ≡ some (s', m', err)
        → Step s s'
    closes : (cached : Option ℕ) (s : Client W) → Step s (close_both cached s)

  pub data Reach (s : Client W) : Client W → Type 0 where
    here : Reach s s
    next : {t u : Client W} → Reach s t → Step t u → Reach s u

  Step-IsTidy : {s t : Client W} → Step s t → IsTidy s → IsTidy t
  Step-IsTidy (get d s) h = get_cached_conn-IsTidy d s h
  Step-IsTidy (sends c s s' m err e) h =
      SameConns-IsTidy s s' (send_on-SameConns c s m (s', m, err) e) h
  Step-IsTidy (receives c s s' m m' err e) h =
      SameConns-IsTidy s s' (receive_on-SameConns c s m (s', m', err) e) h
  Step-IsTidy (closes cached s) h =
      IsClosed-IsTidy (close_both cached s) (close_both-IsClosed cached s h)

  -- However the goroutines that use a new client interleave, between getting a connection, using it and
  -- closing it after an error, the cached connection is open, and every other one that was dialed is
  -- closed.
  pub Reach-IsTidy :
      (options : List (Options → Options)) (wires : W) (readers : ℕ → Reader) (s : Client W)
      → Reach (new_client options wires readers) s
      → IsTidy s
  unfolding new_client
  Reach-IsTidy options wires readers s here = record { cached = λ c e. cc; usable = λ c e. cc }
  Reach-IsTidy options wires readers s (next path step) =
      Step-IsTidy step (Reach-IsTidy options wires readers _ path)
