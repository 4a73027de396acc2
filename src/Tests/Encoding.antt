-- ===== src/Tests/Encoding.antt =====
-- Runs of pkg/message/encoding.go.
use crypt_fs.Prelude.{◌≡◌, refl, arith, none, some, [], ◌∷◌, ◌++◌, ◌>>=◌, length, inr}
use crypt_fs.Message.{Message, zero_message, kind_put, kind_auth}
use crypt_fs.Message.Encoding.{
  eof, unexpected_eof, Encoder, Decoder, write_result, encode, read, dec_get8, dec_get16,
  decode_fields, decode_get, dec_gets, decode,
}
use crypt_fs.Message.Encoding.Wire.{wire, wire_fields, IsSendable, put, text}
use crypt_fs.Message.Encoding.Encode.{encode-wire}
use crypt_fs.Message.Encoding.Decode.{header}
use crypt_fs.Message.Encoding.RoundTrip.{Decoded, decode-wire}
use crypt_fs.Message.Encoding.Stream.{buffer_write, send_all, receive_all, receive_all-send_all}
use crypt_fs.Message.Encoding.Panics.{decode-panics}

abbrev hello : Message
hello = record {
  kind = kind_put;
  tag = 258;
  key = b'k' ∷ [];
  value = b'v' ∷ b'w' ∷ [];
  version = 7;
}

abbrev secret : Message
secret = record zero_message { kind = kind_auth; tag = 3; value = b'p' ∷ [] }

abbrev used_encoder : Encoder
used_encoder = record { buf = 9 ∷ 9 ∷ []; off = 1 }

abbrev used_decoder : Decoder
used_decoder = record { buf = 9 ∷ 9 ∷ []; off = 2; err = some eof }

wire-hello :
    wire hello ≡ 1 ∷ 2 ∷ 1 ∷ 1 ∷ 0 ∷ b'k' ∷ 2 ∷ 0 ∷ b'v' ∷ b'w' ∷ 7 ∷ 0 ∷ 0 ∷ 0 ∷ 0 ∷ 0 ∷ 0 ∷ 0 ∷ []
unfolding wire wire_fields
wire-hello = refl

hello-IsSendable : IsSendable hello
hello-IsSendable = put refl (omega arith) (omega arith) (omega arith) (omega arith)

secret-IsSendable : IsSendable secret
secret-IsSendable = text (inr refl) refl refl (omega arith) (omega arith)

encode-wire_example :
    (e' : Encoder) × (encode buffer_write used_encoder [] hello
      ≡ some (e', wire hello, write_result none 18 (length (wire hello))))
unfolding wire wire_fields
encode-wire_example = encode-wire buffer_write used_encoder [] hello

decode-wire_example :
    Decoded used_decoder (record { stream = wire hello ++ 5 ∷ []; fault = eof }) hello (5 ∷ []) eof
decode-wire_example = decode-wire used_decoder hello (5 ∷ []) eof hello-IsSendable

receive_all-send_all_example :
    (send_all used_encoder [] (hello ∷ secret ∷ []) >>= λ bytes.
    receive_all used_decoder (record { stream = bytes; fault = eof }) 2)
    ≡ some (hello ∷ secret ∷ [])
receive_all-send_all_example =
    receive_all-send_all used_encoder used_decoder (hello ∷ secret ∷ []) eof
      (hello-IsSendable, (secret-IsSendable, tt))

decode-panics_example :
    decode used_decoder
      (record { stream = header kind_put 1 65535 ++ ((b'x' ∷ []) ++ []); fault = eof })
      zero_message
    ≡ none
decode-panics_example =
    decode-panics used_decoder zero_message 1 65535 (b'x' ∷ []) [] eof (omega arith) (omega arith)
      (omega arith) (omega arith) (omega arith)

-- A message cut short.
decode_cut :
    (decode used_decoder (record { stream = 0 ∷ 1 ∷ []; fault = eof }) zero_message >>= λ r.
    r.0.err)
    ≡ some unexpected_eof
unfolding decode read dec_get8 dec_get16 decode_fields decode_get dec_gets
decode_cut = refl
