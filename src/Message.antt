-- ===== src/Message.antt =====
-- pkg/message/message.go: the messages that clients and the metadata server exchange.
pub mod Encoding
pub mod Tag
pub mod Text
use crypt_fs.Prelude.{ℕ, ◌≡◌, Option, none, some, [], Bytes, ◌||◌, ◌==◌, if◌then◌else◌}

-- A `Kind` is a uint8, and a decoded message may carry any.
abbrev pub Kind : Type 0
Kind = ℕ

abbrev pub kind_get : Kind
kind_get = 0

abbrev pub kind_put : Kind
kind_put = 1

abbrev pub kind_error : Kind
kind_error = 2

abbrev pub kind_auth : Kind
kind_auth = 3

abbrev pub kind_count : Kind
kind_count = 4

pub record Message : Type 0 where
  pub kind : Kind
  pub tag : ℕ
  pub key : Bytes
  pub value : Bytes
  pub version : ℕ

-- var m Message
abbrev pub zero_message : Message
zero_message = record { kind = 0; tag = 0; key = []; value = []; version = 0 }

-- Accessors: `none` is the panic of a call that does not fit the kind.
unfoldable pub get_key : Message → Option Bytes
get_key m = if m.kind == kind_get || m.kind == kind_put then some m.key else none

unfoldable pub get_value : Message → Option Bytes
get_value m =
    if m.kind == kind_auth || m.kind == kind_error || m.kind == kind_put then some m.value else none

unfoldable pub get_version : Message → Option ℕ
get_version m = if m.kind == kind_put then some m.version else none

unfoldable pub new_get_message : ℕ → Bytes → Message
new_get_message tag key = record zero_message { kind = kind_get; tag = tag; key = key }

unfoldable pub new_put_message : ℕ → Bytes → Bytes → ℕ → Message
new_put_message tag key value version = record {
  kind = kind_put;
  tag = tag;
  key = key;
  value = value;
  version = version;
}

unfoldable pub new_error_message : ℕ → Bytes → Message
new_error_message tag message = record zero_message {
  kind = kind_error;
  tag = tag;
  value = message;
}

unfoldable pub new_auth_message : ℕ → Bytes → Message
new_auth_message tag password = record zero_message {
  kind = kind_auth;
  tag = tag;
  value = password;
}

-- A copy with the tag 0; `none` is the panic at a message that is no put.
unfoldable pub for_broadcast : Message → Option Message
for_broadcast m = if m.kind == kind_put then some (record m { tag = 0 }) else none
