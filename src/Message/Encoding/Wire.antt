-- ===== src/Message/Encoding/Wire.antt =====
-- The wire format of a message, apart from how the encoder and the decoder come to it.
use crypt_fs.Prelude.{◌+◌, ◌^◌, ◌<◌, ◌≡◌, ◌⊎◌, [], ◌++◌, Bytes, ◌==◌, length, if◌then◌else◌}
use crypt_fs.Bits.Wire.{little_endian, prefixed}
use crypt_fs.Message.{Message, kind_get, kind_put, kind_error, kind_auth}

-- What stands behind the kind and the tag.
unfoldable pub wire_fields : Message → Bytes
wire_fields m =
    if m.kind == kind_get
    then prefixed m.key
    else if m.kind == kind_put
    then prefixed m.key ++ (prefixed m.value ++ little_endian 8 m.version)
    else prefixed m.value

unfoldable pub wire : Message → Bytes
wire m = little_endian 1 m.kind ++ (little_endian 2 m.tag ++ wire_fields m)

-- The kinds that have an encoding.
abbrev pub IsKnown : Message → Type 0
IsKnown m = m.kind < 4

-- A message of each kind with the fields that the kind does not carry left zero, and with lengths
-- that the decoder's 16-bit sums hold.
pub data IsSendable : Message → Type 0 where
  get :
      {m : Message}
      → m.kind ≡ kind_get
      → m.value ≡ []
      → m.version ≡ 0
      → m.tag < 2 ^ 16
      → length m.key < 2 ^ 16
      → IsSendable m
  put :
      {m : Message}
      → m.kind ≡ kind_put
      → m.tag < 2 ^ 16
      → length m.key + 2 < 2 ^ 16
      → length m.value + 8 < 2 ^ 16
      → m.version < 2 ^ 64
      → IsSendable m
  text :
      {m : Message}
      → (m.kind ≡ kind_error) ⊎ (m.kind ≡ kind_auth)
      → m.key ≡ []
      → m.version ≡ 0
      → m.tag < 2 ^ 16
      → length m.value < 2 ^ 16
      → IsSendable m
