-- ===== src/Bits.antt =====
-- pkg/bits/bits.go: little-endian integers and length-prefixed byte strings in a slice.
-- A `put` writes into the slice `b` and returns a later part of it. Here it returns two lists: the
-- bytes of `b` in front of the returned slice, as they are after the call, and the returned slice;
-- `b` itself is then their concatenation. A slice's capacity is its length, and `none` is a panic.
pub mod Wire
pub mod RoundTrip
use crypt_fs.Prelude.{
  ℕ, ◌+◌, ◌*◌, ◌/◌, ◌%◌, ◌^◌, Option, none, some, List, [], ◌∷◌, ◌++◌, Bytes, length, take, drop,
  leb, if◌then◌else◌, ◌>>=◌,
}

-- What the built-in `copy(b, v)` leaves in `b`.
unfoldable pub copy : Bytes → Bytes → Bytes
copy b v = take (length b) v ++ drop (length v) b

-- The slice expressions b[:n] and b[n:].
unfoldable pub slice_to : Bytes → ℕ → Option Bytes
slice_to b n = if leb n (length b) then some (take n b) else none

unfoldable pub slice_from : Bytes → ℕ → Option Bytes
slice_from b n = if leb n (length b) then some (drop n b) else none

unfoldable pub put8 : Bytes → ℕ → Option (Bytes × Bytes)
put8 [] v = none
put8 (_ ∷ b) v = some (v % 2 ^ 8 ∷ [], b)

unfoldable pub put16 : Bytes → ℕ → Option (Bytes × Bytes)
put16 (_ ∷ _ ∷ b) v = some (v % 2 ^ 8 ∷ v / 2 ^ 8 % 2 ^ 8 ∷ [], b)
put16 _ _ = none

unfoldable pub put32 : Bytes → ℕ → Option (Bytes × Bytes)
put32 (_ ∷ _ ∷ _ ∷ _ ∷ b) v =
    some (v % 2 ^ 8 ∷ v / 2 ^ 8 % 2 ^ 8 ∷ v / 2 ^ 16 % 2 ^ 8 ∷ v / 2 ^ 24 % 2 ^ 8 ∷ [], b)
put32 _ _ = none

unfoldable pub put64 : Bytes → ℕ → Option (Bytes × Bytes)
put64 (_ ∷ _ ∷ _ ∷ _ ∷ _ ∷ _ ∷ _ ∷ _ ∷ b) v = some (
  v % 2 ^ 8
      ∷ v / 2 ^ 8 % 2 ^ 8
      ∷ v / 2 ^ 16 % 2 ^ 8
      ∷ v / 2 ^ 24 % 2 ^ 8
      ∷ v / 2 ^ 32 % 2 ^ 8
      ∷ v / 2 ^ 40 % 2 ^ 8
      ∷ v / 2 ^ 48 % 2 ^ 8
      ∷ v / 2 ^ 56 % 2 ^ 8
      ∷ [],
  b,
)
put64 _ _ = none

-- The length goes into 16 bits, and the copy is not cut to it.
unfoldable pub putb : Bytes → Bytes → Option (Bytes × Bytes)
unfolding copy slice_from put16
putb b v = do
  let vlen = length v % 2 ^ 16
  (front, rest) ← put16 b vlen
  let copied = copy rest v
  after ← slice_from copied vlen
  some (front ++ take vlen copied, after)

unfoldable pub puts : Bytes → Bytes → Option (Bytes × Bytes)
unfolding copy slice_from put16
puts b v = do
  let vlen = length v % 2 ^ 16
  (front, rest) ← put16 b vlen
  let copied = copy rest v
  after ← slice_from copied vlen
  some (front ++ take vlen copied, after)

unfoldable pub get8 : Bytes → Option (ℕ × Bytes)
get8 [] = none
get8 (b0 ∷ b) = some (b0, b)

unfoldable pub get16 : Bytes → Option (ℕ × Bytes)
get16 (b0 ∷ b1 ∷ b) = some ((b0 + b1 * 2 ^ 8) % 2 ^ 16, b)
get16 _ = none

unfoldable pub get32 : Bytes → Option (ℕ × Bytes)
get32 (b0 ∷ b1 ∷ b2 ∷ b3 ∷ b) = some ((b0 + b1 * 2 ^ 8 + b2 * 2 ^ 16 + b3 * 2 ^ 24) % 2 ^ 32, b)
get32 _ = none

unfoldable pub get64 : Bytes → Option (ℕ × Bytes)
get64 (b0 ∷ b1 ∷ b2 ∷ b3 ∷ b4 ∷ b5 ∷ b6 ∷ b7 ∷ b) = some (
  (b0
        + b1 * 2 ^ 8
        + b2 * 2 ^ 16
        + b3 * 2 ^ 24
        + b4 * 2 ^ 32
        + b5 * 2 ^ 40
        + b6 * 2 ^ 48
        + b7 * 2 ^ 56)
      % 2 ^ 64,
  b,
)
get64 _ = none

unfoldable pub getb : Bytes → Option (Bytes × Bytes)
unfolding slice_to slice_from get16
getb b = do
  (vlen, rest) ← get16 b
  s ← slice_to rest vlen
  after ← slice_from rest vlen
  some (s, after)

unfoldable pub gets : Bytes → Option (Bytes × Bytes)
unfolding slice_to slice_from get16
gets b = do
  (vlen, rest) ← get16 b
  s ← slice_to rest vlen
  after ← slice_from rest vlen
  some (s, after)
