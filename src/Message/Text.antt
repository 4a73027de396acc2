-- ===== src/Message/Text.antt =====
-- The text of messages for log lines: STring, repr and String of pkg/message/message.go.
-- A `Kind` prints as a number, since no method of it is named String.
pub mod Bounds
use crypt_fs.Prelude.{
  ℕ, zero, suc, ◌+◌, ◌/◌, ◌%◌, ◌^◌, ◌≤◌, ◌<◌, ◌≡◌, inl, inr, refl, Option, none, some, Bool, true,
  false, not, ◌&&◌, [], ◌∷◌, ◌++◌, Bytes, ◌==◌, ◌>>=◌, if◌then◌else◌, length, take, ltb, leb, arith,
  Bool-cases, All, length-append, length-take,
}
use crypt_fs.Prelude.Text.{codes, hex, hex_digit}
use crypt_fs.Message.{Kind, Message, kind_get, kind_put, kind_error, kind_auth, kind_count}

unfoldable pub kind_text : Kind → Bytes
kind_text k =
    if k == kind_get
    then codes "GET"
    else if k == kind_put
    then codes "PUT"
    else if k == kind_count
    then codes "Count"
    else if k == kind_auth
    then codes "AUTH"
    else if k == kind_error
    then codes "ERROR"
    else codes "UNKNOWN"

-- A byte that starts a printable ASCII rune; every other rune is above ASCII or not printable.
abbrev pub is_print : ℕ → Bool
is_print b = leb 32 b && leb b 126

-- How the loop over the runes ends. Up to its end each rune is one byte.
pub data Scan : Type 0 where
  unprintable too_long short : Scan

unfoldable pub scan : ℕ → Bytes → Scan
scan i [] = short
scan i (b ∷ bs) =
    let rest = scan (suc i) bs in
    if not (is_print b) then unprintable else if ltb 11 i then too_long else rest

-- What the loop returns; `other` is what comes of a text that is not printable.
abbrev pub clipped : Scan → Bytes → Option Bytes → Option Bytes
clipped unprintable any other = other
clipped too_long any other = some (take 8 any ++ codes "...")
clipped short any other = some any

-- `none` is no fuel left.
unfoldable pub repr : ℕ → Bytes → Option Bytes
unfolding scan hex
repr zero any = clipped (scan 0 any) any none
repr (suc fuel) any = clipped (scan 0 any) any (repr fuel (hex any))

-- fmt's %d. Twenty rounds are enough for 64 bits.
unfoldable pub decimal_digits : ℕ → ℕ → Bytes
decimal_digits zero n = (48 + n % 10) ∷ []
decimal_digits (suc fuel) n =
    let front = decimal_digits fuel (n / 10) in
    if ltb n 10 then (48 + n % 10) ∷ [] else front ++ (48 + n % 10) ∷ []

abbrev pub decimal : ℕ → Bytes
decimal n = decimal_digits 20 n

-- One round over hexadecimal is enough.
abbrev pub repr_fuel : ℕ
repr_fuel = 1

unfoldable pub string : Message → Option Bytes
unfolding repr decimal_digits
string m =
    let head = codes "kind=" ++ decimal m.kind ++ codes " tag=" ++ decimal m.tag in
    if m.kind == kind_get
    then (do key ← repr repr_fuel m.key; some (head ++ codes " key=" ++ key))
    else if m.kind == kind_error
    then (do value ← repr repr_fuel m.value; some (head ++ codes " value=" ++ value))
    else if m.kind == kind_auth
    then some
        (head ++ codes " value=" ++ (if length m.value == 0 then codes "false" else codes "true"))
    else (do
      key ← repr repr_fuel m.key
      value ← repr repr_fuel m.value
      some (
          head
          ++ codes " key="
          ++ key
          ++ codes " value="
          ++ value
          ++ codes " version="
          ++ decimal m.version))
