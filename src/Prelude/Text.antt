-- ===== src/Prelude/Text.antt =====
-- Texts of the source as byte strings, and hexadecimal, as `%x` prints it and encoding/hex reads it.
use Prim.Native.Nat.{ℕ, ◌+◌, ◌-◌, ◌*◌, ◌/◌, ◌%◌, ◌<◌}
use Prim.Native.Char.{code}
use Prim.Native.String.{String}
use mathlib.Core.Path.{◌≡◌, refl, ap}
use mathlib.Core.Bool.{◌&&◌}
use mathlib.Core.Option.{Option, none, some}
use mathlib.Core.List.{[], ◌∷◌}
use native.Mathlib.Omega.{arith}
use crypt_fs.Prelude.Lists.{Bytes, IsByte, All, length}
use crypt_fs.Prelude.Panic.{◌>>=◌}
use crypt_fs.Prelude.Tests.{ltb, leb, if◌then◌else◌}

-- The bytes of an ASCII text.
abbrev pub codes : String → Bytes
codes String.[] = []
codes (String.◌∷◌ c s) = code c ∷ codes s

unfoldable pub hex_digit : ℕ → ℕ
hex_digit n = if ltb n 10 then 48 + n else 87 + n

unfoldable pub from_hex_digit : ℕ → Option ℕ
from_hex_digit c =
    if leb 48 c && leb c 57
    then some (c - 48)
    else if leb 97 c && leb c 102
    then some (c - 87)
    else if leb 65 c && leb c 70
    then some (c - 55)
    else none

-- fmt.Sprintf("%x", b)
unfoldable pub hex : Bytes → Bytes
hex [] = []
hex (b ∷ bs) = hex_digit (b / 16 % 16) ∷ hex_digit (b % 16) ∷ hex bs

-- hex.DecodeString; `none` is its error, at an odd length or another character.
unfoldable pub decode_hex : Bytes → Option Bytes
decode_hex [] = some []
decode_hex (c ∷ []) = none
decode_hex (c ∷ c' ∷ cs) = do
  high ← from_hex_digit c
  low ← from_hex_digit c'
  bs ← decode_hex cs
  some ((high * 16 + low) ∷ bs)

from_hex_digit-hex_digit : (n : ℕ) → n < 16 → from_hex_digit (hex_digit n) ≡ some n
unfolding from_hex_digit hex_digit
from_hex_digit-hex_digit n h = ground arith

pub decode_hex-hex : (b : Bytes) → All IsByte b → decode_hex (hex b) ≡ some b
unfolding decode_hex hex
decode_hex-hex [] h = refl
decode_hex-hex (b ∷ bs) (hb, hbs) =
    let digits : b / 16 % 16 * 16 + b % 16 ≡ b = omega arith in
    rw
      (
        from_hex_digit-hex_digit (b / 16 % 16) (omega arith),
        from_hex_digit-hex_digit (b % 16) (omega arith),
        decode_hex-hex bs hbs,
      )
      (ap (λ (x : ℕ). some (x ∷ bs)) digits)

pub length-hex : (b : Bytes) → length (hex b) ≡ 2 * length b
unfolding hex
length-hex [] = refl
length-hex (b ∷ bs) = omega (arith, length-hex bs)
