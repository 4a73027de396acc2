-- ===== src/Tests/Client.antt =====
-- Runs of the client (pkg/network/client/client.go) over connections that write to one buffer.
use crypt_fs.Prelude.{
  List, ℕ, ◌≡◌, refl, Option, none, some, ◌==◌, [], ◌∷◌, Bytes, length, if◌then◌else◌,
}
use crypt_fs.Prelude.Text.{codes}
use crypt_fs.Message.{new_get_message}
use crypt_fs.Message.Encoding
use crypt_fs.Message.Encoding.{Reader, eof}
use crypt_fs.Message.Encoding.Stream.{buffer_write}
use crypt_fs.Client.{
  Options, Client, Dialer, with_address, with_fallback_to_plain_tcp, new_client, set_options,
  strip_prefix, dial, get_cached_conn, close_both, send,
}
use crypt_fs.Client.Tidy.{IsTidy, here, next, get, closes, Reach-IsTidy}
use crypt_fs.Client.Send.{Sent, send_lem}

-- A network where only the plain address of the server answers.
abbrev plain_only : Dialer
plain_only = record { tls_dial = λ a. some (Encoding.io_error 1); net_dial = λ a. none }

abbrev no_deadline : ℕ → Option Encoding.Error
no_deadline c = none

abbrev writes : ℕ → Bytes → Bytes → Bytes × ℕ × Option Encoding.Error
writes c = buffer_write

abbrev silent : ℕ → Reader
silent c = record { stream = []; fault = eof }

abbrev to_host : List (Options → Options)
to_host = with_address (codes "tls://h") ∷ with_fallback_to_plain_tcp ∷ []

abbrev fresh : Client Bytes
fresh = new_client to_host [] silent

-- The fallback dials the address with its scheme.
abbrev scheme_only : Dialer
scheme_only = record {
  tls_dial = λ a. some (Encoding.io_error 1);
  net_dial = λ a. if length a == 7 then none else some (Encoding.io_error 2);
}

falls_back : dial scheme_only fresh.opts ≡ none
unfolding dial strip_prefix with_address with_fallback_to_plain_tcp new_client set_options
falls_back = refl

-- A connection is got, fails, and another one is got.
abbrev one : Client Bytes
one = (get_cached_conn plain_only fresh).0

abbrev failed : Client Bytes
failed = close_both (some 0) one

Reach-IsTidy_example : IsTidy (get_cached_conn plain_only failed).0
Reach-IsTidy_example =
    Reach-IsTidy no_deadline writes to_host [] silent (get_cached_conn plain_only failed).0
      (next (next (next here (get plain_only fresh)) (closes (some 0) one)) (get plain_only failed))

fresh-IsTidy : IsTidy fresh
unfolding new_client
fresh-IsTidy = record { cached = λ c e. cc; usable = λ c e. cc }

send_lem_example :
    (s' : Client Bytes) × (err : Option Encoding.Error) × (send no_deadline writes plain_only fresh
        (new_get_message 1 (b'k' ∷ []))
      ≡ some (s', new_get_message 1 (b'k' ∷ []), err))
    × Sent no_deadline writes fresh (new_get_message 1 (b'k' ∷ [])) s' err
send_lem_example =
    send_lem no_deadline writes plain_only fresh (new_get_message 1 (b'k' ∷ [])) fresh-IsTidy
