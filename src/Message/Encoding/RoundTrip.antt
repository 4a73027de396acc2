-- ===== src/Message/Encoding/RoundTrip.antt =====
-- Messages that go through a connection, alone and in a row.
use crypt_fs.Prelude.{
  ℕ, ◌+◌, ◌^◌, ◌<◌, ◌≡◌, ◌⊎◌, refl, ap, ◌∙◌, Option, none, some, [], ◌++◌, Bytes, length, arith,
  append_assoc, length-append, inl, inr,
}
use crypt_fs.Bits.Wire.{little_endian}
use crypt_fs.Message.{Message, zero_message, kind_get, kind_put, kind_error, kind_auth}
use crypt_fs.Message.Encoding.{Error, Decoder, Reader, decode_fields, decode}
use crypt_fs.Message.Encoding.Wire.{wire_fields, wire, IsSendable, get, put, text}
use crypt_fs.Message.Encoding.Decode.{
  IsReady, loaded, header, spare, decode-header, decode_get-stream, decode_put-stream,
  decode_text-stream, put_tail, behind_length, value_spare,
}

wire-get :
    (m : Message) (rest : Bytes)
    → m.kind ≡ kind_get
    → wire m ++ rest ≡ header kind_get m.tag (length m.key) ++ (m.key ++ rest)
unfolding wire wire_fields
wire-get m rest e = rw e

wire-put :
    (m : Message) (rest : Bytes)
    → m.kind ≡ kind_put
    → wire m ++ rest ≡ header kind_put m.tag (length m.key) ++ put_tail m.key m.value m.version rest
unfolding wire wire_fields
wire-put m rest e = rw e (simp append_assoc)

-- The decoder ends without an error, ready for the next message.
pub record Decoded (d : Decoder) (r : Reader) (m : Message) (rest : Bytes) (fault : Error)
    : Type 0 where
  pub decoder : Decoder
  pub run : decode d r zero_message ≡ some (decoder, record { stream = rest; fault = fault }, m)
  pub clean : decoder.err ≡ none
  pub ready : IsReady decoder

abbrev front : ℕ → ℕ → Bytes
front kind tag = little_endian 1 kind ++ little_endian 2 tag

abbrev left_over : Decoder → Bytes
left_over d = spare (loaded d.buf d.off) 5

-- The decoder after one string, behind the kind and the tag.
abbrev after_string : Decoder → ℕ → ℕ → Bytes → Decoder
after_string d kind tag v =
    loaded (v ++ spare (behind_length (front kind tag) v (left_over d)) (length v)) (length v)

-- The decoder after the version of a put message.
abbrev after_put : Decoder → ℕ → Bytes → Bytes → ℕ → Decoder
after_put d tag key value version =
    loaded
      (value
        ++ (little_endian 8 version ++ value_spare (front kind_put tag) (left_over d) key value))
      (length value + 8)

module _ (d : Decoder) (tag : ℕ) (rest : Bytes) (fault : Error) (small : tag < 2 ^ 16) where
  decode-get :
      (key : Bytes)
      → length key < 2 ^ 16
      → decode d
          (record { stream = header kind_get tag (length key) ++ (key ++ rest); fault = fault })
          zero_message
        ≡ some (
          after_string d kind_get tag key,
          record { stream = rest; fault = fault },
          record zero_message { kind = kind_get; tag = tag; key = key },
        )
  unfolding decode_fields
  decode-get key h =
      decode-header d kind_get tag (length key) (key ++ rest) fault zero_message (omega arith) small
      ∙ decode_get-stream (front kind_get tag) (left_over d) key rest fault
          (record zero_message { kind = kind_get; tag = tag }) h

  decode-text :
      (kind : ℕ) (value : Bytes)
      → (kind ≡ kind_error) ⊎ (kind ≡ kind_auth)
      → length value < 2 ^ 16
      → decode d
          (record { stream = header kind tag (length value) ++ (value ++ rest); fault = fault })
          zero_message
        ≡ some (
          after_string d kind tag value,
          record { stream = rest; fault = fault },
          record zero_message { kind = kind; tag = tag; value = value },
        )
  unfolding decode_fields
  decode-text kind value (inl e) h =
      decode-header d kind tag (length value) (value ++ rest) fault zero_message (omega arith) small
      ∙ rw e (
          decode_text-stream (front kind_error tag) (left_over d) value rest fault
            (record zero_message { kind = kind_error; tag = tag }) h)
  decode-text kind value (inr e) h =
      decode-header d kind tag (length value) (value ++ rest) fault zero_message (omega arith) small
      ∙ rw e (
          decode_text-stream (front kind_auth tag) (left_over d) value rest fault
            (record zero_message { kind = kind_auth; tag = tag }) h)

  decode-put :
      (key value : Bytes) (version : ℕ)
      → length key + 2 < 2 ^ 16
      → length value + 8 < 2 ^ 16
      → version < 2 ^ 64
      → decode d
          (record {
            stream = header kind_put tag (length key) ++ put_tail key value version rest;
            fault = fault;
          })
          zero_message
        ≡ some (
          after_put d tag key value version,
          record { stream = rest; fault = fault },
          record { kind = kind_put; tag = tag; key = key; value = value; version = version },
        )
  unfolding decode_fields
  decode-put key value version hk hv hver =
      decode-header d kind_put tag (length key) _ fault zero_message (omega arith) small
      ∙ decode_put-stream (front kind_put tag) (left_over d) key value rest version fault
          (record zero_message { kind = kind_put; tag = tag }) hk hv hver

abbrev finished : Decoder → Bytes → Error → Message → Option (Decoder × Reader × Message)
finished d rest fault m = some (d, record { stream = rest; fault = fault }, m)

-- A message of each kind is what its constructor makes of the fields that it carries.
as_get :
    (m : Message)
    → m.kind ≡ kind_get
    → m.value ≡ []
    → m.version ≡ 0
    → record zero_message { kind = kind_get; tag = m.tag; key = m.key } ≡ m
as_get m k v ver = ground arith

as_put :
    (m : Message)
    → m.kind ≡ kind_put
    → record { kind = kind_put; tag = m.tag; key = m.key; value = m.value; version = m.version } ≡ m
as_put m k = ground arith

as_text :
    (m : Message)
    → m.key ≡ []
    → m.version ≡ 0
    → record zero_message { kind = m.kind; tag = m.tag; value = m.value } ≡ m
as_text m k ver = ground arith

wire-text :
    (m : Message) (rest : Bytes)
    → (m.kind ≡ kind_error) ⊎ (m.kind ≡ kind_auth)
    → wire m ++ rest ≡ header m.kind m.tag (length m.value) ++ (m.value ++ rest)
unfolding wire wire_fields
wire-text m rest (inl e) = rw e
wire-text m rest (inr e) = rw e

-- A decoder in any state reads from a connection the message that was encoded there, without an
-- error, leaves what follows it in the connection, and is ready for the next call.
pub decode-wire :
    (d : Decoder) (m : Message) (rest : Bytes) (fault : Error)
    → IsSendable m
    → Decoded d (record { stream = wire m ++ rest; fault = fault }) m rest fault
decode-wire d m rest fault (get k v ver t len) = record {
  decoder = after_string d kind_get m.tag m.key;
  run =
      rw (wire-get m rest k)
        (decode-get d m.tag rest fault t m.key len ∙ ap (finished _ rest fault) (as_get m k v ver));
  clean = refl;
  ready = record { inside = omega (arith, length-append m.key) };
}
decode-wire d m rest fault (put k t key value ver) = record {
  decoder = after_put d m.tag m.key m.value m.version;
  run = rw (wire-put m rest k) (
      decode-put d m.tag rest fault t m.key m.value m.version key value ver
      ∙ ap (finished _ rest fault) (as_put m k));
  clean = refl;
  ready = record { inside = omega (arith, length-append m.value) };
}
decode-wire d m rest fault (text k v ver t len) = record {
  decoder = after_string d m.kind m.tag m.value;
  run = rw (wire-text m rest k) (
      decode-text d m.tag rest fault t m.kind m.value k len
      ∙ ap (finished _ rest fault) (as_text m v ver));
  clean = refl;
  ready = record { inside = omega (arith, length-append m.value) };
}
