-- ===== src/Message/Encoding/Range.antt =====
-- The range of what the decoder reads (pkg/message/encoding.go).
use crypt_fs.Prelude.{
  ℕ, ◌%◌, ◌+◌, ◌^◌, ◌<◌, ◌≡◌, inl, inr, ap, Option, none, some, ◌∷◌, Bytes, arith, ◌==◌, ◌||◌,
  Bool-cases, >>=-eq-some,
}
use crypt_fs.Bits.{get64, slice_from}
use crypt_fs.Message.{Message, zero_message, kind_get, kind_put, kind_auth, kind_error}
use crypt_fs.Message.Encoding.{
  Decoder, Reader, read, dec_get8, dec_get16, dec_get64, dec_gets, decode_get, decode_put,
  decode_text, decode_fields, decode,
}

get64_range : (b : Bytes) (v : ℕ) (rest : Bytes) → get64 b ≡ some (v, rest) → v < 2 ^ 64
unfolding get64
get64_range (b0 ∷ b1 ∷ b2 ∷ b3 ∷ b4 ∷ b5 ∷ b6 ∷ b7 ∷ b) v rest e = ground arith
get64_range _ v rest e = cc

abbrev version_of : ℕ → Option (Decoder × Reader × Message) → ℕ
version_of n none = n
version_of n (some (d, r, m)) = m.version

dec_get64_range : (d : Decoder) (v : ℕ) (d' : Decoder) → dec_get64 d ≡ some (v, d') → v < 2 ^ 64
unfolding dec_get64
dec_get64_range d v d' e =
    let (b, sliced, e₁) = >>=-eq-some (slice_from d.buf d.off) _ e in
    let ((v', rest), got, e₂) = >>=-eq-some (get64 b) _ e₁ in
    let h = get64_range b v' rest got in ground (arith, h, e₂)

decode_put_range :
    (d d' : Decoder) (r r' : Reader) (m m' : Message)
    → decode_put d r m ≡ some (d', r', m')
    → m'.version < 2 ^ 64
unfolding decode_put
decode_put_range d d' r r' m m' e =
    let ((n, d₁), x₁, e₁) = >>=-eq-some (dec_get16 d) _ e in
    let ((d₂, r₁), x₂, e₂) = >>=-eq-some (read d₁ r ((n + 2) % 2 ^ 16)) _ e₁ in
    let ((key, d₃), x₃, e₃) = >>=-eq-some (dec_gets d₂ n) _ e₂ in
    let ((n', d₄), x₄, e₄) = >>=-eq-some (dec_get16 d₃) _ e₃ in
    let ((d₅, r₂), x₅, e₅) = >>=-eq-some (read d₄ r₁ ((n' + 8) % 2 ^ 16)) _ e₄ in
    let ((value, d₆), x₆, e₆) = >>=-eq-some (dec_gets d₅ n') _ e₅ in
    let ((version, d₇), x₇, e₇) = >>=-eq-some (dec_get64 d₆) _ e₆ in
    let h = dec_get64_range d₆ version d₇ x₇ in
    let same : version ≡ m'.version = ap (λ o. version_of m'.version o) e₇ in omega (arith, h, same)

decode_get_range :
    (d d' : Decoder) (r r' : Reader) (m m' : Message)
    → m.version < 2 ^ 64
    → decode_get d r m ≡ some (d', r', m')
    → m'.version < 2 ^ 64
unfolding decode_get
decode_get_range d d' r r' m m' h e =
    let ((n, d₁), x₁, e₁) = >>=-eq-some (dec_get16 d) _ e in
    let ((d₂, r₁), x₂, e₂) = >>=-eq-some (read d₁ r n) _ e₁ in
    let ((key, d₃), x₃, e₃) = >>=-eq-some (dec_gets d₂ n) _ e₂ in
    let same : m.version ≡ m'.version = ap (λ o. version_of m'.version o) e₃ in
    omega (arith, h, same)

decode_text_range :
    (d d' : Decoder) (r r' : Reader) (m m' : Message)
    → m.version < 2 ^ 64
    → decode_text d r m ≡ some (d', r', m')
    → m'.version < 2 ^ 64
unfolding decode_text
decode_text_range d d' r r' m m' h e =
    let ((n, d₁), x₁, e₁) = >>=-eq-some (dec_get16 d) _ e in
    let ((d₂, r₁), x₂, e₂) = >>=-eq-some (read d₁ r n) _ e₁ in
    let ((value, d₃), x₃, e₃) = >>=-eq-some (dec_gets d₂ n) _ e₂ in
    let same : m.version ≡ m'.version = ap (λ o. version_of m'.version o) e₃ in
    omega (arith, h, same)

decode_fields_range :
    (d d' : Decoder) (r r' : Reader) (m m' : Message)
    → m.version < 2 ^ 64
    → decode_fields d r m ≡ some (d', r', m')
    → m'.version < 2 ^ 64
unfolding decode_fields
decode_fields_range d d' r r' m m' h e = elim (Bool-cases (m.kind == kind_get)) [
  | inl get ↦ decode_get_range d d' r r' m m' h (rw get at e)
  | inr other ↦ elim (Bool-cases (m.kind == kind_put)) [
    | inl put ↦ decode_put_range d d' r r' m m' (rw (other, put) at e)
    | inr neither ↦ elim (Bool-cases (m.kind == kind_auth || m.kind == kind_error)) [
      | inl talk ↦ decode_text_range d d' r r' m m' h (rw (other, neither, talk) at e)
      | inr unknown ↦
          let same : m.version ≡ m'.version =
            ap (λ o. version_of m'.version o) (rw (other, neither, unknown) at e) in
          omega (arith, h, same)
    ]
  ]
]

-- A message that is decoded has a version of 64 bits.
pub decode_range :
    (d d' : Decoder) (r r' : Reader) (m : Message)
    → decode d r zero_message ≡ some (d', r', m)
    → m.version < 2 ^ 64
unfolding decode
decode_range d d' r r' m e =
    let ((d₁, r₁), x₁, e₁) = >>=-eq-some (read (record d { err = none }) r 5) _ e in
    let ((kind, d₂), x₂, e₂) = >>=-eq-some (dec_get8 d₁) _ e₁ in
    let ((tag, d₃), x₃, e₃) = >>=-eq-some (dec_get16 d₂) _ e₂ in
    decode_fields_range d₃ d' r₁ r' (record zero_message { kind = kind; tag = tag }) m (omega arith)
      e₃
