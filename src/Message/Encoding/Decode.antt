-- ===== src/Message/Encoding/Decode.antt =====
-- What the decoder of pkg/message/encoding.go reads from a connection that carries a message.
use crypt_fs.Prelude.{
  ℕ, ◌+◌, ◌-◌, ◌%◌, ◌^◌, ◌≤◌, ◌<◌, ◌≡◌, none, some, ◌++◌, Bytes, length, drop, replicate, leb, ltb,
  arith, append_assoc, length-append, length-replicate, take-append, drop-append, Bool-cases, inl,
  inr, true, ◌==◌,
}
use crypt_fs.Bits.Wire.{little_endian, slice_from-fits, slice_to-fits, get64-little_endian}
use crypt_fs.Message.{Message}
use crypt_fs.Message.Encoding.{
  Error, Decoder, read_full, grow, fill, read, dec_get8, dec_get16, dec_get64, dec_gets, decode_get,
  decode_put, decode_text, decode_fields, decode,
}

-- The offset stays inside the buffer: slicing from it does not panic.
pub record IsReady (d : Decoder) : Type 0 where
  pub inside : d.off ≤ length d.buf

abbrev pub loaded : Bytes → ℕ → Decoder
loaded b off = record { buf = b; off = off; err = none }

-- What a buffer holds behind `n` bytes just read into its front.
unfoldable pub spare : Decoder → ℕ → Bytes
spare d n = drop n (grow d n).buf

grow-room : (d : Decoder) (n : ℕ) → d.off + n ≤ length (grow d n).buf
unfolding grow
grow-room d n = elim (Bool-cases (ltb (length d.buf) (d.off + n))) [
  | inl short ↦ rw short (
      omega (
        arith,
        length-append d.buf (replicate (d.off + n - length d.buf) 0),
        length-replicate {A = ℕ} (d.off + n - length d.buf) 0,
      ))
  | inr roomy ↦ rw roomy (ground arith)
]

read_full-stream :
    (x rest : Bytes) (fault : Error)
    → read_full (record { stream = x ++ rest; fault = fault }) (length x)
      ≡ (x, record { stream = rest; fault = fault }, none)
unfolding read_full
read_full-stream x rest fault =
    let enough : leb (length x) (length (x ++ rest)) ≡ true =
      ground (arith, length-append x rest) in
    rw (enough, take-append, drop-append)

same_count : (n : ℕ) → n < 2 ^ 16 → (n % 2 ^ 16 == n) ≡ true
same_count n h = ground arith

-- A read of bytes that the connection holds.
pub read-stream :
    (b : Bytes) (off : ℕ) (x rest : Bytes) (fault : Error)
    → length x < 2 ^ 16
    → read (loaded b off) (record { stream = x ++ rest; fault = fault }) (length x)
      ≡ some
          (loaded (x ++ spare (loaded b off) (length x)) 0, record { stream = rest; fault = fault })
unfolding read fill spare
read-stream b off x rest fault short =
    let d : Decoder = loaded b off in
    let room : length x ≤ length (grow d (length x)).buf = omega (arith, grow-room d (length x)) in
    rw (
      slice_to-fits (grow d (length x)).buf (length x) room,
      read_full-stream x rest fault,
      read_full-stream x rest fault,
      same_count (length x) short,
    )

-- The fields behind an offset.
pub dec_get16-at :
    (p s : Bytes) (v : ℕ)
    → v < 2 ^ 16
    → dec_get16 (loaded (p ++ (little_endian 2 v ++ s)) (length p))
      ≡ some (v, loaded (p ++ (little_endian 2 v ++ s)) (length p + 2))
unfolding dec_get16
dec_get16-at p s v h =
    let b : Bytes = little_endian 2 v ++ s in
    rw (slice_from-fits (p ++ b) (length p) (omega (arith, length-append p b)), drop-append)
      (ground arith)

dec_get64-at :
    (p s : Bytes) (v : ℕ)
    → v < 2 ^ 64
    → dec_get64 (loaded (p ++ (little_endian 8 v ++ s)) (length p))
      ≡ some (v, loaded (p ++ (little_endian 8 v ++ s)) (length p + 8))
unfolding dec_get64
dec_get64-at p s v h =
    let b : Bytes = little_endian 8 v ++ s in
    rw
      (
        slice_from-fits (p ++ b) (length p) (omega (arith, length-append p b)),
        drop-append,
        get64-little_endian v s,
      )
      (ground arith)

dec_gets-front :
    (x s : Bytes) → dec_gets (loaded (x ++ s) 0) (length x) ≡ some (x, loaded (x ++ s) (length x))
unfolding dec_gets
dec_gets-front x s =
    let inside : leb (0 + length x) (length (x ++ s)) ≡ true = ground (arith, length-append x s) in
    let zero_add : 0 + length x ≡ length x = omega arith in rw (inside, take-append, zero_add)

-- The five bytes that every message begins with: kind, tag and the first string's length.
abbrev pub header : ℕ → ℕ → ℕ → Bytes
header kind tag n = little_endian 1 kind ++ (little_endian 2 tag ++ little_endian 2 n)

-- The decoder behind the kind and the tag.
abbrev pub headed : ℕ → ℕ → ℕ → Bytes → Decoder
headed kind tag n s = loaded (header kind tag n ++ s) 3

pub decode-header :
    (d : Decoder) (kind tag n : ℕ) (rest : Bytes) (fault : Error) (m : Message)
    → kind < 2 ^ 8
    → tag < 2 ^ 16
    → decode d (record { stream = header kind tag n ++ rest; fault = fault }) m
      ≡ decode_fields
          (headed kind tag n (spare (loaded d.buf d.off) 5))
          (record { stream = rest; fault = fault })
          (record m { kind = kind; tag = tag })
unfolding decode
decode-header d kind tag n rest fault m hk ht =
    rw (read-stream d.buf d.off (header kind tag n) rest fault (omega arith))
      (unfold dec_get8 dec_get16 in ground arith)

-- The string of a get, of an error and of an auth message: all that a 16-bit length can state.
abbrev pub behind_length : Bytes → Bytes → Bytes → Decoder
behind_length p v t = loaded (p ++ (little_endian 2 (length v) ++ t)) (length p + 2)

pub decode_text-stream :
    (p t v rest : Bytes) (fault : Error) (m : Message)
    → length v < 2 ^ 16
    → decode_text
        (loaded (p ++ (little_endian 2 (length v) ++ t)) (length p))
        (record { stream = v ++ rest; fault = fault })
        m
      ≡ some (
        loaded (v ++ spare (behind_length p v t) (length v)) (length v),
        record { stream = rest; fault = fault },
        record m { value = v },
      )
unfolding decode_text
decode_text-stream p t v rest fault m h = rw (
  dec_get16-at p t (length v) h,
  read-stream (p ++ (little_endian 2 (length v) ++ t)) (length p + 2) v rest fault h,
  dec_gets-front,
)

pub decode_get-stream :
    (p t v rest : Bytes) (fault : Error) (m : Message)
    → length v < 2 ^ 16
    → decode_get
        (loaded (p ++ (little_endian 2 (length v) ++ t)) (length p))
        (record { stream = v ++ rest; fault = fault })
        m
      ≡ some (
        loaded (v ++ spare (behind_length p v t) (length v)) (length v),
        record { stream = rest; fault = fault },
        record m { key = v },
      )
unfolding decode_get
decode_get-stream p t v rest fault m h = rw (
  dec_get16-at p t (length v) h,
  read-stream (p ++ (little_endian 2 (length v) ++ t)) (length p + 2) v rest fault h,
  dec_gets-front,
)

-- A read whose count is a 16-bit sum that does not wrap.
read-sum :
    (b : Bytes) (off n k : ℕ) (x rest : Bytes) (fault : Error)
    → length x ≡ n + k
    → n + k < 2 ^ 16
    → read (loaded b off) (record { stream = x ++ rest; fault = fault }) ((n + k) % 2 ^ 16)
      ≡ some (loaded (x ++ spare (loaded b off) (n + k)) 0, record { stream = rest; fault = fault })
read-sum b off n k x rest fault e h =
    let wrap : (n + k) % 2 ^ 16 ≡ length x = omega arith in
    rw (wrap, ← e) (read-stream b off x rest fault (omega arith))

-- The bytes of a put message behind the length of its key.
abbrev pub put_tail : Bytes → Bytes → ℕ → Bytes → Bytes
put_tail key value version rest =
    (key ++ little_endian 2 (length value)) ++ ((value ++ little_endian 8 version) ++ rest)

-- The buffer after the second and after the third read of a put message.
abbrev pub key_spare : Bytes → Bytes → Bytes → Bytes
key_spare p t key = spare (behind_length p key t) (length key + 2)

abbrev pub value_spare : Bytes → Bytes → Bytes → Bytes → Bytes
value_spare p t key value =
    spare (loaded (key ++ (little_endian 2 (length value) ++ key_spare p t key)) (length key + 2))
      (length value + 8)

pub decode_put-stream :
    (p t key value rest : Bytes) (version : ℕ) (fault : Error) (m : Message)
    → length key + 2 < 2 ^ 16
    → length value + 8 < 2 ^ 16
    → version < 2 ^ 64
    → decode_put
        (loaded (p ++ (little_endian 2 (length key) ++ t)) (length p))
        (record { stream = put_tail key value version rest; fault = fault })
        m
      ≡ some (
        loaded (value ++ (little_endian 8 version ++ value_spare p t key value)) (length value + 8),
        record { stream = rest; fault = fault },
        record m { key = key; value = value; version = version },
      )
unfolding decode_put
decode_put-stream p t key value rest version fault m hk hv hver =
    let keyed = key ++ little_endian 2 (length value) in
    let valued = value ++ little_endian 8 version in
    rw (
      dec_get16-at p t (length key) (omega arith),
      read-sum _ _ (length key) 2 keyed (valued ++ rest) fault
          (omega (arith, length-append key (little_endian 2 (length value)))) hk,
      append_assoc key (little_endian 2 (length value)) (key_spare p t key),
      dec_gets-front key (little_endian 2 (length value) ++ key_spare p t key),
      dec_get16-at key (key_spare p t key) (length value) (omega arith),
      read-sum _ _ (length value) 8 valued rest fault
          (omega (arith, length-append value (little_endian 8 version))) hv,
      append_assoc value (little_endian 8 version) (value_spare p t key value),
      dec_gets-front value (little_endian 8 version ++ value_spare p t key value),
      dec_get64-at value (value_spare p t key value) version hver,
    )
