-- ===== src/Message/Encoding/Stream.antt =====
-- Messages in a row, through one encoder and one decoder.
use crypt_fs.Prelude.{
  ℕ, ◌≡◌, subst, refl, sym, ap, ◌∙◌, Option, none, some, List, [], ◌∷◌, ◌++◌, Bytes, length, ◌>>=◌,
  arith, append_assoc, append-nil, lt→ltb, true, zero, suc, ◌==◌, All,
}
use crypt_fs.Message.{Message, zero_message}
use crypt_fs.Message.Encoding.{Error, Encoder, Decoder, Reader, write_result, encode, decode}
use crypt_fs.Message.Encoding.Encode.{encode-wire}
use crypt_fs.Message.Encoding.Wire.{wire, IsKnown, IsSendable, get, put, text}
use crypt_fs.Message.Encoding.RoundTrip.{decode-wire}

-- A bytes.Buffer takes all that is written.
abbrev pub buffer_write : Bytes → Bytes → Bytes × ℕ × Option Error
buffer_write out bytes = (out ++ bytes, length bytes, none)

-- One encoder puts messages into a buffer, one after the other.
pub send_all : Encoder → Bytes → List Message → Option Bytes
send_all e out [] = some out
send_all e out (m ∷ ms) = do
  (e', out', err) ← encode buffer_write e out m
  elim err [ some x ↦ none | none ↦ send_all e' out' ms ]

-- One decoder takes `n` messages from a connection, and stops at an error.
pub receive_all : Decoder → Reader → ℕ → Option (List Message)
receive_all d r zero = some []
receive_all d r (suc n) = do
  (d', r', m) ← decode d r zero_message
  ms ← elim d'.err [ some x ↦ none | none ↦ receive_all d' r' n ]
  some (m ∷ ms)

known : {m : Message} → IsSendable m → IsKnown m
known (get k _ _ _ _) = omega arith
known (put k _ _ _ _) = omega arith
known (text k _ _ _ _) = ground arith

unfoldable pub wires : List Message → Bytes
wires [] = []
wires (m ∷ ms) = wire m ++ wires ms

send_all-wires :
    (e : Encoder) (out : Bytes) (ms : List Message)
    → All IsSendable ms
    → send_all e out ms ≡ some (out ++ wires ms)
unfolding send_all wires write_result
send_all-wires e out [] h = ap some (sym (append-nil out))
send_all-wires e out (m ∷ ms) (hm, hms) =
    let (e', sent) = encode-wire buffer_write e out m in
    rw (sent, lt→ltb m.kind 4 (known hm), same_length (length (wire m)))
      (send_all-wires e' (out ++ wire m) ms hms ∙ rw append_assoc)
  where
    same_length : (n : ℕ) → (n == n) ≡ true
    same_length n = ground arith

receive_all-wires :
    (d : Decoder) (ms : List Message) (rest : Bytes) (fault : Error)
    → All IsSendable ms
    → receive_all d (record { stream = wires ms ++ rest; fault = fault }) (length ms) ≡ some ms
unfolding receive_all wires
receive_all-wires d [] rest fault h = refl
receive_all-wires d (m ∷ ms) rest fault (hm, hms) =
    let done = decode-wire d m (wires ms ++ rest) fault hm in
    rw (append_assoc, done.run, done.clean, receive_all-wires done.decoder ms rest fault hms)

-- Messages that one encoder in any state writes into an empty buffer are the messages that one
-- decoder in any state reads from a connection that carries the buffer's bytes.
pub receive_all-send_all :
    (e : Encoder) (d : Decoder) (ms : List Message) (fault : Error)
    → All IsSendable ms
    → (send_all e [] ms >>= λ bytes.
        receive_all d (record { stream = bytes; fault = fault }) (length ms))
      ≡ some ms
receive_all-send_all e d ms fault h = rw (send_all-wires e [] ms h) (
    subst
      (λ (b : Bytes). receive_all d (record { stream = b; fault = fault }) (length ms) ≡ some ms)
      (append-nil (wires ms)) (receive_all-wires d ms [] fault h))
