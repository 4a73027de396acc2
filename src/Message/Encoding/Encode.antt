-- ===== src/Message/Encoding/Encode.antt =====
-- What the encoder of pkg/message/encoding.go writes.
use crypt_fs.Prelude.{
  ℕ, ◌+◌, ◌-◌, ◌%◌, ◌^◌, ◌≤◌, ◌≡◌, ◌⊎◌, refl, ◌∙◌, Option, some, [], ◌++◌, Bytes, length, drop,
  replicate, ◌>>=◌, if◌then◌else◌, leb, arith, append-nil, append_assoc, length-append, length-drop,
  length-replicate, take-append, drop-append, take-append-drop, Bool-cases, leb→le, ltb, ltb→lt,
  inl, inr,
}
use crypt_fs.Bits.{put8, put16, put64, puts}
use crypt_fs.Bits.Wire.{
  little_endian, prefixed, slice_from-fits, slice_to-fits, put8-little_endian, put16-little_endian,
  put64-little_endian, puts-fits,
}
use crypt_fs.Message.{Message, kind_get, kind_put, kind_error, kind_auth}
use crypt_fs.Message.Encoding.{
  Error, bad_message, Encoder, filled, bad, makeroom, put_at, enc_put8, enc_put16, enc_put64,
  enc_puts, encode_fields, encode_buffer, write_result, flush, encode,
}
use crypt_fs.Message.Encoding.Wire.{wire_fields, wire, IsKnown}

-- An encoder that has written `w`, in front of the spare bytes `s`.
abbrev holding : Bytes → Bytes → Encoder
holding w s = record { buf = w ++ s; off = length w }

-- A writer of `v` that needs `v`'s bytes as room.
put_at-holding :
    (w s v spare : Bytes) (put : Bytes → Option (Bytes × Bytes)) (front rest : Bytes) (width : ℕ)
    → put s ≡ some (front, rest)
    → front ++ rest ≡ v ++ spare
    → width ≡ length v
    → put_at (holding w s) put width ≡ some (holding (w ++ v) spare)
unfolding put_at
put_at-holding w s v spare put front rest width e joined size =
    rw (slice_from-fits (w ++ s) (length w) (omega (arith, length-append w s)), drop-append)
      (rw (e, take-append, joined, size, length-append, append_assoc))

enc_put8-holding :
    (w s : Bytes) (v : ℕ)
    → 1 ≤ length s
    → enc_put8 (holding w s) v ≡ some (holding (w ++ little_endian 1 v) (drop 1 s))
unfolding enc_put8
enc_put8-holding w s v h =
    put_at-holding w s _ _ (λ b. put8 b v) _ _ 1 (put8-little_endian s v h) refl refl

enc_put16-holding :
    (w s : Bytes) (v : ℕ)
    → 2 ≤ length s
    → enc_put16 (holding w s) v ≡ some (holding (w ++ little_endian 2 v) (drop 2 s))
unfolding enc_put16
enc_put16-holding w s v h =
    put_at-holding w s _ _ (λ b. put16 b v) _ _ 2 (put16-little_endian s v h) refl refl

enc_put64-holding :
    (w s : Bytes) (v : ℕ)
    → 8 ≤ length s
    → enc_put64 (holding w s) v ≡ some (holding (w ++ little_endian 8 v) (drop 8 s))
unfolding enc_put64
enc_put64-holding w s v h =
    put_at-holding w s _ _ (λ b. put64 b v) _ _ 8 (put64-little_endian s v h) refl refl

enc_puts-holding :
    (w s v : Bytes)
    → 2 + length v ≤ length s
    → enc_puts (holding w s) v ≡ some (holding (w ++ prefixed v) (drop (length v) (drop 2 s)))
unfolding enc_puts
enc_puts-holding w s v h =
    let n = length v % 2 ^ 16 in
    put_at-holding w s (prefixed v) (drop (length v) (drop 2 s)) (λ b. puts b v) _ _ (2 + length v)
      (puts-fits s v h) (rw (← append_assoc, take-append-drop n v)) (omega arith)

-- The spare bytes after `makeroom`.
roomy : Bytes → Bytes → ℕ → Bytes
roomy w s required = s ++ replicate (required - length (w ++ s)) 0

makeroom-holding :
    (w s : Bytes) (required : ℕ) → makeroom (holding w s) required ≡ holding w (roomy w s required)
unfolding makeroom roomy
makeroom-holding w s required = elim (Bool-cases (leb required (length (w ++ s)))) [
  | inl fits ↦ rw (fits, none_needed (leb→le required _ fits), append-nil)
  | inr short ↦ rw (short, append_assoc)
]
  where
    none_needed : required ≤ length (w ++ s) → required - length (w ++ s) ≡ 0
    none_needed h = omega arith

length-roomy : (w s : Bytes) (required : ℕ) → required ≤ length w + length (roomy w s required)
unfolding roomy
length-roomy w s required = omega (
  arith,
  length-append w s,
  length-append s (replicate (required - length (w ++ s)) 0),
  length-replicate {A = ℕ} (required - length (w ++ s)) 0,
)

-- The spare bytes after a string went in.
abbrev behind : Bytes → Bytes → Bytes
behind v s = drop (length v) (drop 2 s)

length-behind : (v s : Bytes) → length (behind v s) ≡ length s - 2 - length v
length-behind v s = omega (arith, length-drop (length v) (drop 2 s), length-drop 2 s)

-- One string behind what was written, in a buffer that is made large enough.
string_field :
    (w s v : Bytes)
    → enc_puts (makeroom (holding w s) (length w + 2 + length v)) v
      ≡ some (holding (w ++ prefixed v) (behind v (roomy w s (length w + 2 + length v))))
string_field w s v =
    rw makeroom-holding
      (enc_puts-holding w _ v (omega (arith, length-roomy w s (length w + 2 + length v))))

abbrev put_room : Bytes → Bytes → Message → Bytes
put_room w s m = roomy w s (length w + 12 + length m.key + length m.value)

put_fields :
    (w s : Bytes) (m : Message)
    → (do
      e₁ ← enc_puts (makeroom (holding w s) (length w + 12 + length m.key + length m.value)) m.key
      e₂ ← enc_puts e₁ m.value
      e' ← enc_put64 e₂ m.version
      some (filled e'))
      ≡ some (
          filled (
            holding
              (w ++ (prefixed m.key ++ (prefixed m.value ++ little_endian 8 m.version)))
              (drop 8 (behind m.value (behind m.key (put_room w s m))))))
put_fields w s m =
    let room = length-roomy w s (length w + 12 + length m.key + length m.value) in
    let r : Bytes = put_room w s m in
    let k = length-behind m.key r in
    let v = length-behind m.value (behind m.key r) in
    rw
      (
        makeroom-holding,
        enc_puts-holding w r m.key (omega (arith, room)),
        enc_puts-holding (w ++ prefixed m.key) (behind m.key r) m.value (omega (arith, room, k)),
        enc_put64-holding ((w ++ prefixed m.key) ++ prefixed m.value)
            (behind m.value (behind m.key r)) m.version (omega (arith, room, k, v)),
      )
      (simp append_assoc)

kind_cases :
    (m : Message)
    → IsKnown m
    → (m.kind ≡ kind_get) ⊎ (m.kind ≡ kind_put) ⊎ (m.kind ≡ kind_auth) ⊎ (m.kind ≡ kind_error)
kind_cases m h = ground arith

-- Each kind's fields go behind what was written, whatever their lengths.
encode_fields-wire :
    (w s : Bytes) (m : Message)
    → IsKnown m
    → (spare : Bytes) × (encode_fields (holding w s) m
        ≡ some (filled (holding (w ++ wire_fields m) spare)))
unfolding encode_fields wire_fields
encode_fields-wire w s m h = elim (kind_cases m h) [
  | inl e ↦ (behind m.key (roomy w s (length w + 2 + length m.key)), rw (e, string_field))
  | inr (inl e) ↦ (drop 8 (behind m.value (behind m.key (put_room w s m))), rw (e, put_fields))
  | inr (inr (inl e)) ↦
      (behind m.value (roomy w s (length w + 2 + length m.value)), rw (e, string_field))
  | inr (inr (inr e)) ↦
      (behind m.value (roomy w s (length w + 2 + length m.value)), rw (e, string_field))
]

-- The kind and the tag, in an encoder in any state.
abbrev head_spare : Encoder → Bytes
head_spare e = drop 2 (drop 1 (roomy [] e.buf 3))

encode_buffer-head :
    (e : Encoder) (m : Message)
    → encode_buffer e m
      ≡ encode_fields
          (holding (little_endian 1 (m.kind % 2 ^ 8) ++ little_endian 2 m.tag) (head_spare e))
          m
unfolding encode_buffer
encode_buffer-head e m =
    let room = length-roomy [] e.buf 3 in
    let r : Bytes = roomy [] e.buf 3 in
    rw (
      makeroom-holding [] e.buf 3,
      enc_put8-holding [] r (m.kind % 2 ^ 8) (omega (arith, room)),
      enc_put16-holding (little_endian 1 (m.kind % 2 ^ 8)) (drop 1 r) m.tag
          (omega (arith, room, length-drop 1 r)),
    )

known_byte : (n : ℕ) → n % 2 ^ 8 % 256 ≡ n % 256
known_byte n = omega arith

encode_buffer-wire :
    (e : Encoder) (m : Message)
    → IsKnown m
    → (spare : Bytes) × (encode_buffer e m ≡ some (filled (holding (wire m) spare)))
unfolding wire
encode_buffer-wire e m h =
    let (spare, done) =
      encode_fields-wire (little_endian 1 (m.kind % 2 ^ 8) ++ little_endian 2 m.tag) (head_spare e)
        m h in
    (spare, encode_buffer-head e m ∙ done ∙ rw (known_byte m.kind))

encode_buffer-bad :
    (e : Encoder) (m : Message) → 4 ≤ m.kind → (e' : Encoder) × (encode_buffer e m ≡ some (bad e'))
unfolding encode_fields
encode_buffer-bad e m h = (
  holding (little_endian 1 (m.kind % 2 ^ 8) ++ little_endian 2 m.tag) (head_spare e),
  rw encode_buffer-head (ground arith),
)

flush-holding :
    {W : Type 0} (write : W → Bytes → W × ℕ × Option Error) (w s : Bytes) (out : W)
    → flush write (holding w s) out
      ≡ some (holding w s, (write out w).0, write_result (write out w).2 (write out w).1 (length w))
unfolding flush
flush-holding write w s out =
    rw (slice_to-fits (w ++ s) (length w) (omega (arith, length-append w s)), take-append)

-- An encoder in any state does not panic. Of a message of a known kind it hands exactly `wire m` to
-- the writer, in one write, and returns the writer's error, or `underflow` if the writer reports no
-- error and a count other than the length. At any other kind it writes nothing and returns
-- `bad_message`.
pub encode-wire :
    {W : Type 0} (write : W → Bytes → W × ℕ × Option Error) (e : Encoder) (out : W) (m : Message)
    → (e' : Encoder) × (encode write e out m ≡ (
        if ltb m.kind 4
        then some (
          e',
          (write out (wire m)).0,
          write_result (write out (wire m)).2 (write out (wire m)).1 (length (wire m)),
        )
        else some (e', out, some bad_message)))
unfolding encode
encode-wire write e out m = elim (Bool-cases (ltb m.kind 4)) [
  | inl known ↦
      let (spare, done) = encode_buffer-wire e m (ltb→lt m.kind 4 known) in
      (holding (wire m) spare, rw (known, done) (flush-holding write (wire m) spare out))
  | inr unknown ↦ let (e', done) = encode_buffer-bad e m (ground arith) in (e', rw (unknown, done))
]
