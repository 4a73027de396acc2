-- ===== src/Message/Encoding.antt =====
-- pkg/message/encoding.go: messages to bytes and back.
-- `none` is a panic. The mutexes that serialize the calls have no counterpart: a call is one step.
pub mod Wire
pub mod Encode
pub mod Decode
pub mod RoundTrip
pub mod Stream
pub mod Panics
pub mod Range
use crypt_fs.Prelude.{
  ℕ, ◌+◌, ◌-◌, ◌%◌, ◌^◌, Option, none, some, List, [], ◌∷◌, ◌++◌, Bytes, Bool, true, false, ◌&&◌,
  ◌||◌, ◌==◌, not, leb, ltb, length, take, drop, replicate, ◌>>=◌, if◌then◌else◌,
}
use crypt_fs.Bits.{put8, put16, put64, puts, get8, get16, get64, slice_from, slice_to}
use crypt_fs.Message.{Message, kind_get, kind_put, kind_error, kind_auth}

-- The errors of a call: nil is `none` of `Option Error`.
pub data Error : Type 0 where
  underflow bad_message eof unexpected_eof : Error
  -- an error of the connection
  io_error : ℕ → Error

pub record Encoder : Type 0 where
  pub buf : Bytes
  pub off : ℕ

unfoldable pub makeroom : Encoder → ℕ → Encoder
makeroom e required =
    if leb required (length e.buf)
    then e
    else record e { buf = e.buf ++ replicate (required - length e.buf) 0 }

-- bits.Put…(e.buf[e.off:], v) and the advance of the offset
unfoldable pub put_at : Encoder → (Bytes → Option (Bytes × Bytes)) → ℕ → Option Encoder
unfolding slice_from
put_at e put width = do
  b ← slice_from e.buf e.off
  (front, rest) ← put b
  some (record { buf = take e.off e.buf ++ (front ++ rest); off = e.off + width })

unfoldable pub enc_put8 : Encoder → ℕ → Option Encoder
enc_put8 e v = put_at e (λ b. put8 b v) 1

unfoldable pub enc_put16 : Encoder → ℕ → Option Encoder
enc_put16 e v = put_at e (λ b. put16 b v) 2

unfoldable pub enc_put64 : Encoder → ℕ → Option Encoder
enc_put64 e v = put_at e (λ b. put64 b v) 8

unfoldable pub enc_puts : Encoder → Bytes → Option Encoder
enc_puts e v = put_at e (λ b. puts b v) (2 + length v)

-- The fields that a kind puts behind the kind and the tag; `bad_message` for an unknown kind.
pub data Encoded : Type 0 where
  filled : Encoder → Encoded
  bad : Encoder → Encoded

unfoldable pub encode_fields : Encoder → Message → Option Encoded
encode_fields e m =
    if m.kind == kind_get
    then (do
      let roomy = makeroom e (e.off + 2 + length m.key)
      e' ← enc_puts roomy m.key
      some (filled e'))
    else if m.kind == kind_put
    then (do
      let roomy = makeroom e (e.off + 12 + length m.key + length m.value)
      e₁ ← enc_puts roomy m.key
      e₂ ← enc_puts e₁ m.value
      e' ← enc_put64 e₂ m.version
      some (filled e'))
    else if m.kind == kind_auth || m.kind == kind_error
    then (do
      let roomy = makeroom e (e.off + 2 + length m.value)
      e' ← enc_puts roomy m.value
      some (filled e'))
    else some (bad e)

-- The part of Encode in front of the write: the bytes e.buf[:e.off] or the bad message.
unfoldable pub encode_buffer : Encoder → Message → Option Encoded
unfolding makeroom
encode_buffer e m = do
  let roomy = makeroom (record e { off = 0 }) 3
  e₁ ← enc_put8 roomy (m.kind % 2 ^ 8)
  e₂ ← enc_put16 e₁ m.tag
  encode_fields e₂ m

-- The checks of what w.Write returned for `off` bytes.
unfoldable pub write_result : Option Error → ℕ → ℕ → Option Error
write_result (some err) n off = some err
write_result none n off = if n == off then none else some underflow

module _ {W : Type 0} (write : W → Bytes → W × ℕ × Option Error) where
  -- The writer, a parameter, returns its new state, the number of bytes that it took, and an error.
  unfoldable pub flush : Encoder → W → Option (Encoder × W × Option Error)
  unfolding slice_to write_result
  flush e w = do
    bytes ← slice_to e.buf e.off
    let (w', n, err) = write w bytes
    some (e, w', write_result err n e.off)

  unfoldable pub encode : Encoder → W → Message → Option (Encoder × W × Option Error)
  unfolding encode_buffer flush
  encode e w m = do
    done ← encode_buffer e m
    elim done [ filled e' ↦ flush e' w | bad e' ↦ some (e', w, some bad_message) ]

pub record Decoder : Type 0 where
  pub buf : Bytes
  pub off : ℕ
  pub err : Option Error

-- What is still to be read from a connection, and the error that comes behind it.
pub record Reader : Type 0 where
  pub stream : Bytes
  pub fault : Error

cut_short : Bytes → Error → Error
cut_short (_ ∷ _) eof = unexpected_eof
cut_short _ x = x

-- io.ReadFull(r, p) for a `p` of `n` bytes: the bytes read, the reader, and the error.
unfoldable pub read_full : Reader → ℕ → Bytes × Reader × Option Error
unfolding cut_short
read_full r n =
    if leb n (length r.stream)
    then (take n r.stream, record r { stream = drop n r.stream }, none)
    else (r.stream, record r { stream = [] }, some (cut_short r.stream r.fault))

unfoldable pub grow : Decoder → ℕ → Decoder
grow d n =
    if ltb (length d.buf) (d.off + n)
    then record d { buf = d.buf ++ replicate (d.off + n - length d.buf) 0 }
    else d

-- The end of `read`: d.buf[:n] is filled from the reader, and the count is checked.
unfoldable pub fill : Decoder → Reader → ℕ → Option (Decoder × Reader)
unfolding slice_to read_full
fill d r n = do
  target ← slice_to d.buf n
  let (bytes, r', e) = read_full r n
  some (
    record {
      buf = bytes ++ drop (length bytes) d.buf;
      off = 0;
      err = elim e [
        | some x ↦ some x
        | none ↦ if length bytes % 2 ^ 16 == n then none else some underflow
      ];
    },
    r',
  )

-- `n` is a uint16. After an error nothing is read.
unfoldable pub read : Decoder → Reader → ℕ → Option (Decoder × Reader)
unfolding grow fill
read d r n = let grown = grow d n in elim d.err [ some x ↦ some (grown, r) | none ↦ fill grown r n ]

unfoldable pub dec_get8 : Decoder → Option (ℕ × Decoder)
unfolding slice_from get8
dec_get8 d = do
  b ← slice_from d.buf d.off
  (v, rest) ← get8 b
  some (v, record d { off = d.off + 1 })

unfoldable pub dec_get16 : Decoder → Option (ℕ × Decoder)
unfolding slice_from get16
dec_get16 d = do
  b ← slice_from d.buf d.off
  (v, rest) ← get16 b
  some (v, record d { off = d.off + 2 })

unfoldable pub dec_get64 : Decoder → Option (ℕ × Decoder)
unfolding slice_from
dec_get64 d = do
  b ← slice_from d.buf d.off
  (v, rest) ← get64 b
  some (v, record d { off = d.off + 8 })

-- The slice expression d.buf[d.off : d.off+n].
unfoldable pub dec_gets : Decoder → ℕ → Option (Bytes × Decoder)
dec_gets d n =
    if leb (d.off + n) (length d.buf)
    then some (take n (drop d.off d.buf), record d { off = d.off + n })
    else none

-- The parts of Decode for each kind, behind the kind and the tag.
unfoldable pub decode_get : Decoder → Reader → Message → Option (Decoder × Reader × Message)
decode_get d r m = do
  (n, d₁) ← dec_get16 d
  (d₂, r') ← read d₁ r n
  (key, d') ← dec_gets d₂ n
  some (d', r', record m { key = key })

-- The sums n+2 and n+8 are of uint16.
unfoldable pub decode_put : Decoder → Reader → Message → Option (Decoder × Reader × Message)
decode_put d r m = do
  (n, d₁) ← dec_get16 d
  (d₂, r₁) ← read d₁ r ((n + 2) % 2 ^ 16)
  (key, d₃) ← dec_gets d₂ n
  (n', d₄) ← dec_get16 d₃
  (d₅, r') ← read d₄ r₁ ((n' + 8) % 2 ^ 16)
  (value, d₆) ← dec_gets d₅ n'
  (version, d') ← dec_get64 d₆
  some (d', r', record m { key = key; value = value; version = version })

unfoldable pub decode_text : Decoder → Reader → Message → Option (Decoder × Reader × Message)
decode_text d r m = do
  (n, d₁) ← dec_get16 d
  (d₂, r') ← read d₁ r n
  (value, d') ← dec_gets d₂ n
  some (d', r', record m { value = value })

unfoldable pub decode_fields : Decoder → Reader → Message → Option (Decoder × Reader × Message)
decode_fields d r m =
    if m.kind == kind_get
    then decode_get d r m
    else if m.kind == kind_put
    then decode_put d r m
    else if m.kind == kind_auth || m.kind == kind_error
    then decode_text d r m
    else some (d, r, m)

-- Decodes into the message given, and leaves its error in the decoder.
unfoldable pub decode : Decoder → Reader → Message → Option (Decoder × Reader × Message)
decode d r m = do
  (d₁, r₁) ← read (record d { err = none }) r 5
  (kind, d₂) ← dec_get8 d₁
  (tag, d₃) ← dec_get16 d₂
  decode_fields d₃ r₁ (record m { kind = kind; tag = tag })
