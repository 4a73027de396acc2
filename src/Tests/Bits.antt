-- ===== src/Tests/Bits.antt =====
-- Runs of pkg/bits/bits.go.
use crypt_fs.Prelude.{◌≡◌, refl, none, some, [], ◌∷◌, ◌++◌, Bytes, replicate}
use crypt_fs.Bits.{puts, gets}
use crypt_fs.Bits.Wire.{gets-puts}

abbrev nine : Bytes
nine = replicate 9 7

puts_hi : puts nine (b'h' ∷ b'i' ∷ []) ≡ some (2 ∷ 0 ∷ b'h' ∷ b'i' ∷ [], 7 ∷ 7 ∷ 7 ∷ 7 ∷ 7 ∷ [])
unfolding puts
puts_hi = refl

puts_short : puts (7 ∷ 7 ∷ 7 ∷ []) (b'h' ∷ b'i' ∷ []) ≡ none
unfolding puts
puts_short = refl

gets-puts_example :
    gets ((2 ∷ 0 ∷ b'h' ∷ b'i' ∷ []) ++ 7 ∷ 7 ∷ 7 ∷ 7 ∷ 7 ∷ [])
    ≡ some (b'h' ∷ b'i' ∷ [], 7 ∷ 7 ∷ 7 ∷ 7 ∷ 7 ∷ [])
gets-puts_example = gets-puts nine (b'h' ∷ b'i' ∷ []) _ _ puts_hi
