-- ===== src/Message/Encoding/Panics.antt =====
-- Inputs at which the decoder of pkg/message/encoding.go panics.
use crypt_fs.Prelude.{
  ℕ, ◌+◌, ◌-◌, ◌%◌, ◌^◌, ◌≤◌, ◌<◌, ◌≡◌, none, ◌++◌, Bytes, length, ltb, Bool-cases, inl, inr,
  ltb→lt, arith, length-append, length-drop, length-replicate, replicate, ◌∙◌,
}
use crypt_fs.Message.{Message, kind_put}
use crypt_fs.Message.Encoding.{Error, Decoder, grow, dec_gets, decode_fields, decode_put, decode}
use crypt_fs.Message.Encoding.Decode.{
  loaded, header, spare, decode-header, dec_get16-at, read-stream,
}
use crypt_fs.Bits.Wire.{little_endian}

-- A read grows the buffer to what it needs, and no further.
length-grow : (d : Decoder) (n k : ℕ) → length d.buf ≤ k → d.off + n ≤ k → length (grow d n).buf ≤ k
unfolding grow
length-grow d n k h h' = elim (Bool-cases (ltb (length d.buf) (d.off + n))) [
  | inl short ↦ rw short (
      omega (
        arith,
        ltb→lt (length d.buf) (d.off + n) short,
        length-append d.buf (replicate (d.off + n - length d.buf) 0),
        length-replicate {A = ℕ} (d.off + n - length d.buf) 0,
      ))
  | inr roomy ↦ rw roomy h
]

length-spare :
    (d : Decoder) (n k : ℕ) → length d.buf ≤ k → d.off + n ≤ k → length (spare d n) ≤ k - n
unfolding spare
length-spare d n k h h' = omega (arith, length-grow d n k h h', length-drop n (grow d n).buf)

dec_gets-short : (b : Bytes) (off n : ℕ) → length b < off + n → dec_gets (loaded b off) n ≡ none
unfolding dec_gets
dec_gets-short b off n h = ground arith

-- A put message whose key length, 65534 or 65535, wraps the decoder's 16-bit sum: the decoder reads
-- no more than one of the bytes that follow and then slices the whole key out of its buffer. It
-- panics if the buffer is shorter than the key and its first read stays short of it.
pub decode-panics :
    (d : Decoder) (m : Message) (tag n : ℕ) (x rest : Bytes) (fault : Error)
    → tag < 2 ^ 16
    → n + 2 ≡ 2 ^ 16 + length x
    → n < 2 ^ 16
    → length d.buf < 65534
    → d.off + 5 < 65534
    → decode d (record { stream = header kind_put tag n ++ (x ++ rest); fault = fault }) m ≡ none
unfolding decode_fields decode_put
decode-panics d m tag n x rest fault ht e hn hb ho =
    let p = little_endian 1 kind_put ++ little_endian 2 tag in
    let t = spare (loaded d.buf d.off) 5 in
    let b : Bytes = p ++ (little_endian 2 n ++ t) in
    let t_short : length t ≤ 65533 - 5 =
      length-spare (loaded d.buf d.off) 5 65533 (omega arith) (omega arith) in
    let wrap : (n + 2) % 2 ^ 16 ≡ length x = omega arith in
    let left = length-spare (loaded b 5) (length x) 65533 (omega arith) (omega arith) in
    decode-header d kind_put tag n (x ++ rest) fault m (omega arith) ht
    ∙ rw (
      dec_get16-at p t n hn,
      wrap,
      read-stream b 5 x rest fault (omega arith),
      dec_gets-short (x ++ spare (loaded b 5) (length x)) 0 n
          (omega (arith, length-append x (spare (loaded b 5) (length x)), left)),
    )
