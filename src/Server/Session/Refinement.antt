-- ===== src/Server/Session/Refinement.antt =====
-- That the rounds of handleInput implement the abstract server (pkg/network/server/conn.go).
use crypt_fs.Prelude.{
  ℕ, suc, ◌^◌, ◌<◌, ◌≡◌, inl, inr, refl, sym, ap, ◌∙◌, Option, none, some, Bool, true, false, not,
  ◌&&◌, List, [], ◌∷◌, ◌++◌, Bytes, if◌then◌else◌, arith, length, All, append_assoc, append-nil,
  subst,
}
use crypt_fs.Message.{Message, Kind, kind_get, kind_put, new_error_message, new_put_message}
use crypt_fs.Message.Encoding
use crypt_fs.Message.Encoding.{Reader}
use crypt_fs.Message.Encoding.Wire
use crypt_fs.Message.Encoding.Wire.{wire, IsSendable, text}
use crypt_fs.Message.Encoding.Stream.{buffer_write, wires}
use crypt_fs.Storage.{error_text, stale_put, Store, IsMap}
use crypt_fs.Storage.Versioned.{new_versioned_wrapper}
use crypt_fs.Storage.Versioned.Refinement.{Entries, accepts, put_entry, Refines}
use crypt_fs.Storage.Apply.{apply_message-get, apply_message-put, OwedGet}
use crypt_fs.Server.{Options, wants_password, ServerConn, handled, to_broadcast, handle_input}
use crypt_fs.Server.Rounds.{lets_in, Rounded, handle_input-Rounded}
use crypt_fs.Server.Session.{started, rounds, IsRequest, owed_put, sent_on, Session, over}

pub put_version : (m : Message) → IsSendable m → m.kind ≡ kind_put → m.version < 2 ^ 64
put_version m (Wire.get k v ver t len) e = omega (arith, ver)
put_version m (Wire.put k t key value ver) e = ver
put_version m (text k key ver t len) e = omega (arith, ver)

OwedGet-kind : (m output : Message) (x : Option (ℕ × Bytes)) → OwedGet m x output → output.kind < 4
unfolding new_error_message new_put_message
OwedGet-kind m output none (e, missing, is) = omega (arith, ap (λ r. r.kind) is)
OwedGet-kind m output (some (version, value)) is = omega (arith, ap (λ r. r.kind) is)

owed_put_kind : (m : Message) (b : Bool) → m.kind ≡ kind_put → (owed_put m b).kind < 4
unfolding new_error_message
owed_put_kind m true k = omega (arith, k)
owed_put_kind m false k = omega arith

owed_put-if :
    (m : Message) (b : Bool)
    → (if b then m else new_error_message m.tag (error_text stale_put)) ≡ owed_put m b
owed_put-if m true = refl
owed_put-if m false = refl

abbrev carrying : Bytes → Encoding.Error → Reader
carrying stream fault = record { stream = stream; fault = fault }

streams :
    (m : Message) (ms : List Message) (rest : Bytes) (fault : Encoding.Error)
    → carrying (wires (m ∷ ms) ++ rest) fault ≡ carrying (wire m ++ (wires ms ++ rest)) fault
unfolding wires
streams m ms rest fault = ap (λ b. carrying b fault) (append_assoc (wire m) (wires ms) rest)

nothing_sent : (m output : Message) → m.kind ≡ kind_get → to_broadcast m output ≡ none
unfolding to_broadcast
nothing_sent m output k = ground arith

put_sent :
    (m : Message) (b : Bool)
    → m.kind ≡ kind_put
    → started (to_broadcast m (owed_put m b)) ≡ sent_on m b
unfolding to_broadcast new_error_message
put_sent m true k = rw k
put_sent m false k = rw k

module _ (verify : Bytes → Bytes → Bool) (format_kind : Kind → Bytes) (s : Store) (mm : IsMap s)
    (o : Options) where
  still_in :
      (sc sc' : ServerConn Bytes)
      → sc'.authorized ≡ sc.authorized
      → lets_in o sc ≡ true
      → lets_in o sc' ≡ true
  still_in sc sc' same h = ap (λ b. not (wants_password o && not b)) same ∙ h

  -- The rounds have returned, as the abstract server does.
  pub record Served (a : Entries) (ms : List Message) (sc : ServerConn Bytes) (st : s.State)
      : Type 0 where
    pub outs : List Message
    pub sent : List Message
    pub entries : Entries
    pub sc' : ServerConn Bytes
    pub st' : s.State
    pub returned : rounds verify format_kind s o (length ms) sc st ≡ some (sc', st', sent)
    pub session : Session a ms outs sent entries
    pub out : sc'.out ≡ sc.out ++ wires outs
    pub refines : Refines s mm st' entries

  rounds-suc :
      (n : ℕ) (sc sc' sc'' : ServerConn Bytes) (st st' st'' : s.State) (x : Option Message)
      (more : List Message)
      → handle_input buffer_write verify format_kind (new_versioned_wrapper s) o sc st
        ≡ some (handled sc' st' x)
      → rounds verify format_kind s o n sc' st' ≡ some (sc'', st'', more)
      → rounds verify format_kind s o (suc n) sc st ≡ some (sc'', st'', started x ++ more)
  unfolding rounds
  rounds-suc n sc sc' sc'' st st' st'' x more h r = rw (rounds, h, r)

  -- One round, and then what comes behind it.
  Served-next :
      (a b : Entries) (m output : Message) (ms : List Message) (sc sc' : ServerConn Bytes)
      (st st' : s.State) (x : Option Message) (rest : Reader)
      → handle_input buffer_write verify format_kind (new_versioned_wrapper s) o sc st
        ≡ some (handled sc' st' x)
      → Rounded buffer_write sc sc' rest output
      → ((outs sent : List Message) (a' : Entries)
          → Session b ms outs sent a'
          → Session a (m ∷ ms) (output ∷ outs) (started x ++ sent) a')
      → Served b ms sc' st'
      → Served a (m ∷ ms) sc st
  unfolding wires
  Served-next a b m output ms sc sc' st st' x rest h r extend v = record {
    outs = output ∷ v.outs;
    sent = started x ++ v.sent;
    entries = v.entries;
    sc' = v.sc';
    st' = v.st';
    returned = rounds-suc (length ms) sc sc' v.sc' st st' v.st' x v.sent h v.returned;
    session = extend v.outs v.sent v.entries v.session;
    out =
        v.out
        ∙ ap (λ b. b ++ wires v.outs) r.out
        ∙ append_assoc sc.out (wire output) (wires v.outs);
    refines = v.refines;
  }

  -- For messages that a client may send, gets and puts, on a connection that is let in, the rounds of
  -- handleInput over a map return, one for each message, and do what the abstract server does: the
  -- answers, which are written to the connection in order, and nothing else, the messages that are sent
  -- on, and the entries of the store afterwards are those of a session of the versioned map.
  pub session_lem :
      (ms : List Message) (rest : Bytes) (fault : Encoding.Error) (sc : ServerConn Bytes)
      (st : s.State) (a : Entries)
      → sc.input ≡ record { stream = wires ms ++ rest; fault = fault }
      → lets_in o sc ≡ true
      → All IsSendable ms
      → All IsRequest ms
      → Refines s mm st a
      → Served a ms sc st
  unfolding wires rounds
  session_lem [] rest fault sc st a at_input open_ sendable requests r = record {
    outs = [];
    sent = [];
    entries = a;
    sc' = sc;
    st' = st;
    returned = refl;
    session = over a;
    out = sym (append-nil sc.out);
    refines = r;
  }
  session_lem (m ∷ ms) rest fault sc st a at_input open_ (fit, fits) (inl k, requests) r =
      let (st', output, done, owed, r') = apply_message-get format_kind s mm m st a k r in
      let (sc', h, rd) =
        handle_input-Rounded buffer_write verify format_kind (new_versioned_wrapper s) o sc m output
          (wires ms ++ rest) fault st st' (at_input ∙ streams m ms rest fault) fit open_
          (OwedGet-kind m output (a m.key) owed) done in
      Served-next a a m output ms sc sc' st st' (to_broadcast m output)
        (record { stream = wires ms ++ rest; fault = fault }) h rd
        (λ outs sent a' rest'.
          subst (λ y. Session a (m ∷ ms) (output ∷ outs) (started y ++ sent) a')
            (sym (nothing_sent m output k)) (Session.get a a' m output ms outs sent k owed rest'))
        (session_lem ms rest fault sc' st' a rd.input (still_in sc sc' rd.authorized open_) fits
          requests r')
  session_lem (m ∷ ms) rest fault sc st a at_input open_ (fit, fits) (inr k, requests) r =
      let taken = accepts m.version (a m.key) in
      let b = put_entry m.version m.key m.value a in
      let (st', done, r') = apply_message-put format_kind s mm m st a k (put_version m fit k) r in
      let applied = done ∙ ap (λ out. some (st', out)) (owed_put-if m taken) in
      let (sc', h, rd) =
        handle_input-Rounded buffer_write verify format_kind (new_versioned_wrapper s) o sc m
          (owed_put m taken) (wires ms ++ rest) fault st st' (at_input ∙ streams m ms rest fault)
          fit open_ (owed_put_kind m taken k) applied in
      Served-next a b m (owed_put m taken) ms sc sc' st st' (to_broadcast m (owed_put m taken))
        (record { stream = wires ms ++ rest; fault = fault }) h rd
        (λ outs sent a' rest'.
          subst (λ l. Session a (m ∷ ms) (owed_put m taken ∷ outs) (l ++ sent) a')
            (sym (put_sent m taken k)) (Session.put a a' m ms outs sent k rest'))
        (session_lem ms rest fault sc' st' b rd.input (still_in sc sc' rd.authorized open_) fits
          requests r')
