-- ===== src/Server/Locked.antt =====
-- The server as steps that interleave: connections that come, send and go, and broadcasts that run
-- after the rounds which started them. A round of handleInput is one step, and so is a broadcast.
-- A connection that is removed sends nothing any more, as long as no two have one id: the 16-bit ids
-- begin again after 65535 connections.
use crypt_fs.Prelude.{
  ℕ, ◌≡◌, ◌≢◌, refl, sym, ◌∙◌, Option, none, some, Bool, true, false, List, [], ◌∷◌, ◌++◌, Bytes,
  arith, All, ◌==◌, Bool-cases, inl, inr,
}
use crypt_fs.Message.{Message, Kind}
use crypt_fs.Message.Encoding
use crypt_fs.Message.Encoding.{Encoder, Decoder, Reader}
use crypt_fs.Storage.Versioned.{VersionedStore}
use crypt_fs.Server.{
  Options, wants_password, ServerConn, detached, handled, handle_input, remove_conn, broadcast,
}
use crypt_fs.Server.Authorization.{is_accepted, handle_input-unauthorized}

-- A new connection: fresh buffers, and no authorization.
unfoldable pub wrap_conn : {W : Type 0} → ℕ → Reader → W → ServerConn W
wrap_conn id input out = record {
  id = id;
  input = input;
  out = out;
  encoder = record { buf = []; off = 0 };
  decoder = record { buf = []; off = 0; err = none };
  authorized = false;
}

pub record Server (W State : Type 0) : Type 0 where
  pub conns : List (ServerConn W)
  pub store : State
  -- the broadcasts that were started and have not run
  pub pending : List (ℕ × Message)

abbrev started : ℕ → Option Message → List (ℕ × Message)
started id none = []
started id (some m) = (id, m) ∷ []

nothing-split : {A : Type 0} (before after : List A) (a : A) → [] ≢ before ++ a ∷ after
nothing-split [] after a e = cc
nothing-split (b ∷ before) after a e = cc

is_accepted-refused :
    (verify : Bytes → Bytes → Bool) (o : Options) (input : Message)
    → ((password : Bytes) → verify o.auth_hash password ≡ false)
    → is_accepted verify o input ≡ false
is_accepted-refused verify o input refuse = rw (refuse input.value) (ground arith)

module _ {W : Type 0} (write : W → Bytes → W × ℕ × Option Encoding.Error)
    (verify : Bytes → Bytes → Bool) (format_kind : Kind → Bytes) (store : VersionedStore)
    (o : Options) where
  pub data Step : Server W store.State → Server W store.State → Type 0 where
    attach :
        (s : Server W store.State) (id : ℕ) (input : Reader) (out : W)
        → Step s (record s { conns = s.conns ++ wrap_conn id input out ∷ [] })
    round :
        (s : Server W store.State) (before after : List (ServerConn W)) (sc sc' : ServerConn W)
        (st : store.State) (sent : Option Message)
        → s.conns ≡ before ++ sc ∷ after
        → handle_input write verify format_kind store o sc s.store ≡ some (handled sc' st sent)
        → Step s (record {
          conns = before ++ sc' ∷ after;
          store = st;
          pending = s.pending ++ started sc.id sent;
        })
    detach :
        (s : Server W store.State) (before after : List (ServerConn W)) (sc : ServerConn W)
        → s.conns ≡ before ++ sc ∷ after
        → handle_input write verify format_kind store o sc s.store ≡ some detached
        → Step s (record s { conns = remove_conn sc.id s.conns })
    notify :
        (s : Server W store.State) (before after : List (ℕ × Message)) (id : ℕ) (m : Message)
        (conns : List (ServerConn W))
        → s.pending ≡ before ++ (id, m) ∷ after
        → broadcast write o id m s.conns ≡ some conns
        → Step s (record s { conns = conns; pending = before ++ after })

  pub data Reach (s : Server W store.State) : Server W store.State → Type 0 where
    here : Reach s s
    next : {t u : Server W store.State} → Reach s t → Step t u → Reach s u

  -- Nobody is authorized, nothing is to be sent on, and the store is `st`.
  pub record IsLocked (st : store.State) (s : Server W store.State) : Type 0 where
    pub unauthorized : All (λ c. c.authorized ≡ false) s.conns
    pub same_store : s.store ≡ st
    pub nothing_pending : s.pending ≡ []

  All-split :
      (before after : List (ServerConn W)) (sc : ServerConn W)
      → All (λ c. c.authorized ≡ false) (before ++ sc ∷ after)
      → (sc.authorized ≡ false)
        × ((sc' : ServerConn W)
            → sc'.authorized ≡ false
            → All (λ c. c.authorized ≡ false) (before ++ sc' ∷ after))
  All-split [] after sc (h, hs) = (h, λ sc' h'. (h', hs))
  All-split (b ∷ before) after sc (h, hs) =
      let (here', replace) = All-split before after sc hs in (here', λ sc' h'. (h, replace sc' h'))

  All-remove_conn :
      (id : ℕ) (conns : List (ServerConn W))
      → All (λ c. c.authorized ≡ false) conns
      → All (λ c. c.authorized ≡ false) (remove_conn id conns)
  unfolding remove_conn
  All-remove_conn id [] h = tt
  All-remove_conn id (c ∷ conns) (h, hs) = elim (Bool-cases (c.id == id)) [
    | inl same ↦ rw same (All-remove_conn id conns hs)
    | inr other ↦ rw other (h, All-remove_conn id conns hs)
  ]

  All-snoc :
      (conns : List (ServerConn W)) (c : ServerConn W)
      → All (λ c. c.authorized ≡ false) conns
      → c.authorized ≡ false
      → All (λ c. c.authorized ≡ false) (conns ++ c ∷ [])
  All-snoc [] c h h' = (h', tt)
  All-snoc (b ∷ conns) c (h, hs) h' = (h, All-snoc conns c hs h')

  Step-IsLocked :
      {s t : Server W store.State} (st : store.State)
      → wants_password o ≡ true
      → ((password : Bytes) → verify o.auth_hash password ≡ false)
      → Step s t
      → IsLocked st s
      → IsLocked st t
  unfolding wrap_conn
  Step-IsLocked st wanted refuse (attach s id input out) l = record {
    unauthorized = All-snoc s.conns (wrap_conn id input out) l.unauthorized refl;
    same_store = l.same_store;
    nothing_pending = l.nothing_pending;
  }
  Step-IsLocked st wanted refuse (round s before after sc sc' st' sent at_conn e) l =
      let (locked, replace) = All-split before after sc (rw at_conn at l.unauthorized) in
      let r =
        handle_input-unauthorized write verify format_kind store o sc sc' s.store st' sent wanted
          locked e in
      record {
        unauthorized = replace sc' (r.authorized ∙ is_accepted-refused verify o r.input refuse);
        same_store = r.store_kept ∙ l.same_store;
        nothing_pending = rw (l.nothing_pending, r.nothing_sent);
      }
  Step-IsLocked st wanted refuse (detach s before after sc at_conn e) l = record {
    unauthorized = All-remove_conn sc.id s.conns l.unauthorized;
    same_store = l.same_store;
    nothing_pending = l.nothing_pending;
  }
  Step-IsLocked st wanted refuse (notify s before after id m conns is_pending e) l =
      absurd (nothing-split before after (id, m) (sym l.nothing_pending ∙ is_pending))

  -- On a server that wants a password and whose hash no password verifies against, nothing is ever
  -- done for a connection: whatever connections come, send and go in whatever order, from a state
  -- in which nobody is authorized and nothing is to be sent on, the server stays in such a state,
  -- and the store stays as it was.
  pub Reach-IsLocked :
      (s t : Server W store.State)
      → wants_password o ≡ true
      → ((password : Bytes) → verify o.auth_hash password ≡ false)
      → IsLocked s.store s
      → Reach s t
      → IsLocked s.store t
  Reach-IsLocked s _ wanted refuse l here = l
  Reach-IsLocked s t wanted refuse l (next path step) =
      Step-IsLocked s.store wanted refuse step (Reach-IsLocked s _ wanted refuse l path)
