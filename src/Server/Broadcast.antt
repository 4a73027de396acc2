-- ===== src/Server/Broadcast.antt =====
-- What a broadcast of pkg/network/server/server.go writes, and to whom.
use crypt_fs.Prelude.{
  ℕ, ◌≡◌, refl, ap, Option, some, Bool, true, false, ◌==◌, List, [], ◌∷◌, map, Bytes, if◌then◌else◌,
  arith, Bool-cases, inl, inr,
}
use crypt_fs.Message.{Message, kind_put, for_broadcast}
use crypt_fs.Message.Encoding
use crypt_fs.Message.Encoding.{Encoder, encode}
use crypt_fs.Message.Encoding.Wire.{wire}
use crypt_fs.Message.Encoding.Encode.{encode-wire}
use crypt_fs.Server.{
  Options, ServerConn, wants_password, is_notified, notify, notify_all, broadcast,
}

for_broadcast-put :
    (m : Message) → m.kind ≡ kind_put → for_broadcast m ≡ some (record m { tag = 0 })
unfolding for_broadcast
for_broadcast-put m k = ground arith

-- Who is to be told of a put: without a password every connection but the one that it came from, and
-- with one those of them that are authorized.
abbrev pub is_recipient : {W : Type 0} → Options → ℕ → ServerConn W → Bool
is_recipient o from conn =
    if conn.id == from then false else (elim o.auth_hash [ [] ↦ true | b ∷ hash ↦ conn.authorized ])

pub is_notified-is_recipient :
    {W : Type 0} (o : Options) (from : ℕ) (conn : ServerConn W)
    → is_notified o from conn ≡ is_recipient o from conn
unfolding is_notified wants_password
is_notified-is_recipient o from conn = ground arith

module _ {W : Type 0} (write : W → Bytes → W × ℕ × Option Encoding.Error) (o : Options) where
  -- The writing side of a connection after the bytes of a message went to it, if it is to be told.
  abbrev pub notified_out : ℕ → Bytes → ServerConn W → W
  notified_out excluded bytes conn =
      if is_recipient o excluded conn then (write conn.out bytes).0 else conn.out

  -- The connections after a broadcast: the same, but for their writing sides and encoders.
  pub record Notified (excluded : ℕ) (bytes : Bytes) (conns conns' : List (ServerConn W))
      : Type 0 where
    pub outs : map (λ c. c.out) conns' ≡ map (notified_out excluded bytes) conns
    pub ids : map (λ c. c.id) conns' ≡ map (λ c. c.id) conns
    pub authorized : map (λ c. c.authorized) conns' ≡ map (λ c. c.authorized) conns

  notify-put :
      (excluded : ℕ) (m : Message) (conn : ServerConn W)
      → m.kind ≡ kind_put
      → (e : Encoder) × (notify write o excluded m conn
          ≡ some (record conn { encoder = e; out = notified_out excluded (wire m) conn }))
  unfolding notify
  notify-put excluded m conn k = elim (Bool-cases (is_recipient o excluded conn)) [
    | inl yes' ↦
        let (e, wrote) = encode-wire write conn.encoder conn.out m in
        (e, rw (is_notified-is_recipient o excluded conn, yes', wrote, k))
    | inr no' ↦ (conn.encoder, rw (is_notified-is_recipient o excluded conn, no'))
  ]

  notify_all-put :
      (excluded : ℕ) (m : Message) (conns : List (ServerConn W))
      → m.kind ≡ kind_put
      → (conns' : List (ServerConn W)) × (notify_all write o excluded m conns ≡ some conns')
        × Notified excluded (wire m) conns conns'
  unfolding notify_all
  notify_all-put excluded m [] k = ([], refl, record { outs = refl; ids = refl; authorized = refl })
  notify_all-put excluded m (conn ∷ conns) k =
      let (e, one) = notify-put excluded m conn k in
      let (conns', rest, n) = notify_all-put excluded m conns k in
      (
        record conn { encoder = e; out = notified_out excluded (wire m) conn } ∷ conns',
        rw (one, rest),
        record {
          outs = ap (λ l. notified_out excluded (wire m) conn ∷ l) n.outs;
          ids = ap (λ l. conn.id ∷ l) n.ids;
          authorized = ap (λ l. conn.authorized ∷ l) n.authorized;
        },
      )

  -- A broadcast of a put message does not panic. It writes the message with the tag zero, once, to
  -- every connection but the one excluded and, on a server that wants a password, those that are
  -- not authorized; to the others it writes nothing. No connection comes, goes or is authorized by
  -- it.
  pub broadcast_lem :
      (excluded : ℕ) (m : Message) (conns : List (ServerConn W))
      → m.kind ≡ kind_put
      → (conns' : List (ServerConn W)) × (broadcast write o excluded m conns ≡ some conns')
        × Notified excluded (wire (record m { tag = 0 })) conns conns'
  unfolding broadcast
  broadcast_lem excluded m conns k =
      let (conns', done, n) = notify_all-put excluded (record m { tag = 0 }) conns k in
      (conns', rw (for_broadcast-put m k, broadcast) done, n)
