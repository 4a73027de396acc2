-- ===== src/System.antt =====
-- A put of one client, from the connection that carries it to the tree of another client: the rounds
-- of pkg/network/server, Receive of pkg/network/client and the reload of pkg/node together.
-- The glue between Receive and InvalidateCache is a versioned store that the repository does not have;
-- here the other client's tree reads its metadata from the server's store.
use crypt_fs.Prelude.{
  ℕ, ◌^◌, ◌<◌, ◌≡◌, inl, inr, refl, sym, ap, ◌∙◌, subst, none, some, Bool, true, false, List, [],
  ◌∷◌, ◌++◌, map, Bytes, ◌==◌, if◌then◌else◌, arith, length, lookup, bytes_eq_refl,
}
use crypt_fs.Message.{Message, Kind, zero_message, kind_put, new_put_message, new_error_message}
use crypt_fs.Message.Encoding
use crypt_fs.Message.Encoding.{Reader}
use crypt_fs.Message.Encoding.Wire
use crypt_fs.Message.Encoding.Wire.{wire, IsSendable, text}
use crypt_fs.Message.Encoding.Stream.{buffer_write}
use crypt_fs.Storage.{error_text, stale_put, Store, IsMap}
use crypt_fs.Storage.Versioned.{new_versioned_wrapper}
use crypt_fs.Storage.Versioned.Refinement.{Entries, accepts, put_entry, Refines}
use crypt_fs.Storage.Apply.{apply_message, apply_message-put}
use crypt_fs.Server.{
  Options, ServerConn, handled, to_broadcast, handle_input, is_notified, broadcast,
}
use crypt_fs.Server.Rounds.{lets_in, handle_input-Rounded}
use crypt_fs.Server.Session.Refinement.{put_version}
use crypt_fs.Server.Broadcast.{notified_out, is_recipient, is_notified-is_recipient, broadcast_lem}
use crypt_fs.Client.{Client, Dialer, receive}
use crypt_fs.Client.Receive.{Received, receive_lem}
use crypt_fs.Node.Metadata.{Metadata, node_key_len}
use crypt_fs.Node.Metadata.Format.{metadata_bytes}
use crypt_fs.Node.Metadata.RoundTrip.{IsStored}
use crypt_fs.Node.File.{ok}
use crypt_fs.Node.Heap.{invalidate_cache}
use crypt_fs.Node.Tree.{Tree}
use crypt_fs.Node.Reload.{reload_if_needed}
use crypt_fs.Node.Reload.Merge.{IsSeparate}
use crypt_fs.Node.Reload.Returns.{IsAlive}
use crypt_fs.Node.Reload.Coherence.{IsClosed, Reloaded}
use crypt_fs.Node.Reload.Refresh.{refresh_lem}

-- Where one list's image is that of a list with an element in it, it has such an element too.
pub record Split {A B : Type 0} (f : A → B) (xs : List A) (y : B) : Type 0 where
  pub before : List A
  pub at : A
  pub after : List A
  pub split : xs ≡ before ++ at ∷ after
  pub image : f at ≡ y

map-Split :
    {A B : Type 0} (f g : A → B) (before after xs : List A) (a : A)
    → map f xs ≡ map g (before ++ a ∷ after)
    → Split f xs (g a)
map-Split f g [] after [] a e = cc
map-Split f g [] after (x ∷ xs) a e = record {
  before = [];
  at = x;
  after = xs;
  split = refl;
  image = cc;
}
map-Split f g (b ∷ before) after [] a e = cc
map-Split f g (b ∷ before) after (x ∷ xs) a e =
    let rest = map-Split f g before after xs a cc in
    record {
      before = x ∷ rest.before;
      at = rest.at;
      after = rest.after;
      split = ap (λ l. x ∷ l) rest.split;
      image = rest.image;
    }

-- The message that a broadcast of `m` carries.
abbrev pub told : Message → Message
told m = record m { tag = 0 }

told-put : (m : Message) → m.kind ≡ kind_put → new_put_message 0 m.key m.value m.version ≡ told m
unfolding new_put_message
told-put m k = ground arith

told-IsSendable : (m : Message) → m.kind ≡ kind_put → IsSendable m → IsSendable (told m)
told-IsSendable m k (Wire.get k' v ver t len) =
    let gone = sym k ∙ k' in absurd (omega (arith, gone))
told-IsSendable m k (Wire.put k' t key value ver) = Wire.put k' (omega arith) key value ver
told-IsSendable m k (text (inl k') key ver t len) = absurd (omega (arith, sym k ∙ k'))
told-IsSendable m k (text (inr k') key ver t len) = absurd (omega (arith, sym k ∙ k'))

accepted-entry :
    (m : Message) (a : Entries)
    → accepts m.version (a m.key) ≡ true
    → put_entry m.version m.key m.value a m.key ≡ some (m.version, m.value)
accepted-entry m a h = rw (h, bytes_eq_refl m.key)

sent_on-accepted : (m : Message) → m.kind ≡ kind_put → to_broadcast m m ≡ some m
unfolding to_broadcast
sent_on-accepted m k = rw k

notified_out-told :
    (o : Options) (excluded : ℕ) (bytes : Bytes) (b : ServerConn Bytes)
    → (excluded == b.id) ≡ false
    → lets_in o b ≡ true
    → notified_out buffer_write o excluded bytes b ≡ b.out ++ bytes
unfolding is_notified
notified_out-told o excluded bytes b other open_ =
    let notified : is_notified o excluded b ≡ true = rw (other, open_) refl in
    let told_it : is_recipient o excluded b ≡ true =
      sym (is_notified-is_recipient o excluded b) ∙ notified in
    rw told_it

module _ (verify : Bytes → Bytes → Bool) (format_kind : Kind → Bytes) (ms : Store) (mm : IsMap ms)
    (o : Options) where
  -- The server's part: the put is applied, and its broadcast writes it to a connection.
  pub record Told (m : Message) (sc b : ServerConn Bytes) (before after : List (ServerConn Bytes))
      (st : ms.State) (a : Entries) : Type 0 where
    pub sc' : ServerConn Bytes
    pub st' : ms.State
    pub round :
        handle_input buffer_write verify format_kind (new_versioned_wrapper ms) o sc st
        ≡ some (handled sc' st' (some m))
    pub reply : sc'.out ≡ sc.out ++ wire m
    pub entries : Refines ms mm st' (put_entry m.version m.key m.value a)
    pub conns' : List (ServerConn Bytes)
    pub cast : broadcast buffer_write o sc.id m (before ++ b ∷ after) ≡ some conns'
    pub told_b : Split (λ c. c.out) conns' (b.out ++ wire (told m))

  told_lem :
      (m : Message) (rest : Bytes) (fault : Encoding.Error) (sc b : ServerConn Bytes)
      (before after : List (ServerConn Bytes)) (st : ms.State) (a : Entries)
      → m.kind ≡ kind_put
      → IsSendable m
      → m.version < 2 ^ 64
      → sc.input ≡ record { stream = wire m ++ rest; fault = fault }
      → lets_in o sc ≡ true
      → (sc.id == b.id) ≡ false
      → lets_in o b ≡ true
      → Refines ms mm st a
      → accepts m.version (a m.key) ≡ true
      → Told m sc b before after st a
  told_lem m rest fault sc b before after st a k fit low at_input open_ other open_b r new =
      let (st', done, r') = apply_message-put format_kind ms mm m st a k low r in
      let applied : apply_message format_kind (new_versioned_wrapper ms) m st ≡ some (st', m) =
        done
        ∙ ap (λ t. some (st', if t then m else new_error_message m.tag (error_text stale_put)))
            new in
      let (sc', h, rd) =
        handle_input-Rounded buffer_write verify format_kind (new_versioned_wrapper ms) o sc m m
          rest fault st st' at_input fit open_ (omega (arith, k)) applied in
      let (conns', cast, n) = broadcast_lem buffer_write o sc.id m (before ++ b ∷ after) k in
      record {
        sc' = sc';
        st' = st';
        round = h ∙ ap (λ x. some (handled sc' st' x)) (sent_on-accepted m k);
        reply = rd.out;
        entries = r';
        conns' = conns';
        cast = cast;
        told_b =
            subst (Split (λ c. c.out) conns')
              (notified_out-told o sc.id (wire (told m)) b other open_b)
              (map-Split (λ c. c.out) (notified_out buffer_write o sc.id (wire (told m))) before
                after conns' b n.outs);
      }

module _ (verify : Bytes → Bytes → Bool) (format_kind : Kind → Bytes) (ms : Store) (mm : IsMap ms)
    (o : Options) (sum512 : Bytes → Bytes) (blobs : Store) where
  -- The other client's tree, on the server's store.
  abbrev at_server :
      ms.State
      → Tree sum512 blobs (new_versioned_wrapper ms)
      → Tree sum512 blobs (new_versioned_wrapper ms)
  at_server st w = record w { stores = (w.stores.0, st) }

  -- The put is applied and told, and the client that is told has it after its next reload.
  pub record Seen {W : Type 0} (m : Message) (meta : Metadata) (sc b : ServerConn Bytes)
      (before after : List (ServerConn Bytes)) (st : ms.State) (a : Entries) (d : Dialer)
      (s : Client W) (c p : ℕ) (more : Reader) (w : Tree sum512 blobs (new_versioned_wrapper ms))
      : Type 0 where
    pub server : Told verify format_kind ms mm o m sc b before after st a
    pub s' : Client W
    pub received : receive d s zero_message ≡ some (s', told m, none)
    pub kept : Received s s' c more
    pub v : Tree sum512 blobs (new_versioned_wrapper ms)
    pub marked : invalidate_cache (told m) (at_server server.st' w) ≡ some v
    pub w' : Tree sum512 blobs (new_versioned_wrapper ms)
    pub reload : reload_if_needed sum512 blobs (new_versioned_wrapper ms) p v ≡ some (w', ok)
    pub reloaded : Reloaded sum512 blobs ms mm w' p m.version meta

  -- A put of one client becomes visible to another. A connection of the server carries the put of a
  -- node's metadata, in the put's version, which the server's versioned map accepts; both connections
  -- are let in. Then the round applies it and answers with the put itself, and the broadcast that it
  -- starts writes it with tag zero to the other connection. The client there, whose cached connection
  -- carries those bytes, receives it without an error; InvalidateCache and the next reload of the node
  -- return, and the node then has the put's attributes and version, and exactly its children. The
  -- client's node is known by the key, is older, and it and its children are there and separate.
  pub put-Seen :
      {W : Type 0} (m : Message) (meta : Metadata) (rest later : Bytes)
      (fault fault' : Encoding.Error) (sc b : ServerConn Bytes)
      (before after : List (ServerConn Bytes)) (st : ms.State) (a : Entries) (d : Dialer)
      (s : Client W) (c p : ℕ) (w : Tree sum512 blobs (new_versioned_wrapper ms))
      → m.kind ≡ kind_put
      → IsSendable m
      → length m.key ≡ node_key_len
      → m.value ≡ metadata_bytes meta
      → IsStored meta
      → sc.input ≡ record { stream = wire m ++ rest; fault = fault }
      → lets_in o sc ≡ true
      → Refines ms mm st a
      → accepts m.version (a m.key) ≡ true
      → (sc.id == b.id) ≡ false
      → lets_in o b ≡ true
      → s.conn ≡ some c
      → s.readers c ≡ record { stream = wire (told m) ++ later; fault = fault' }
      → (alive : IsAlive w p) → IsClosed w p
      → IsSeparate w p
      → lookup m.key w.known ≡ some p
      → alive.self.node.key ≡ m.key
      → alive.self.node.version < m.version
      → Seen m meta sc b before after st a d s c p (record { stream = later; fault = fault' }) w
  put-Seen m meta rest later fault fault' sc b before after st a d s c p w k fit size is_meta stored
        at_input open_ r new other open_b at_conn at_reader alive closed sep known is_key newer =
      let server =
        told_lem verify format_kind ms mm o m rest fault sc b before after st a k fit
          (put_version m fit k) at_input open_ other open_b r new in
      let (s', received, kept) =
        receive_lem d s c (told m) later fault' at_conn at_reader (told-IsSendable m k fit) in
      let held = accepted-entry m a new ∙ ap (λ x. some (m.version, x)) is_meta in
      let (v, w', marked, reload, reloaded) =
        refresh_lem sum512 blobs ms mm p 0 m.version m.key m.value meta (at_server server.st' w)
          (put_entry m.version m.key m.value a)
          (record { self = alive.self; at = alive.at; map = alive.map; children = alive.children })
          (record { node = closed.node; children = closed.children }) (record { apart = sep.apart })
          size known is_key newer stored server.entries held in
      record {
        server = server;
        s' = s';
        received = received;
        kept = kept;
        v = v;
        marked =
            ap (λ x. invalidate_cache x (at_server server.st' w)) (sym (told-put m k)) ∙ marked;
        w' = w';
        reload = reload;
        reloaded = reloaded;
      }
