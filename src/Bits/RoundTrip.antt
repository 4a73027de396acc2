-- ===== src/Bits/RoundTrip.antt =====
-- Reading back what the writers of pkg/bits/bits.go wrote.
use crypt_fs.Prelude.{
  ℕ, ◌%◌, ◌^◌, ◌≤◌, ◌≡◌, Option, some, ◌++◌, Bytes, length, drop, ◌>>=◌, arith, refl,
}
use crypt_fs.Bits.{put8, put16, put32, put64, get8, get16, get32, get64}
use crypt_fs.Bits.Wire.{
  put8-little_endian, put16-little_endian, put32-little_endian, put64-little_endian,
  get16-little_endian, get32-little_endian, get64-little_endian,
}

-- What a writer leaves in the slice, read from the slice's start.
abbrev pub read_back {ℓ} : {A : Type ℓ} → (Bytes → Option A) → Option (Bytes × Bytes) → Option A
read_back get written = written >>= λ w. get (w.0 ++ w.1)

-- In a slice of eight bytes or more, each integer writer of 8, 16, 32 or 64 bits returns, and the
-- reader of that width, from the slice's start, gives the integer modulo 2 ^ width and the slice
-- behind it.
pub get-put_integer :
    (b : Bytes) (v : ℕ)
    → 8 ≤ length b
    → (read_back get8 (put8 b v) ≡ some (v % 2 ^ 8, drop 1 b))
      × (read_back get16 (put16 b v) ≡ some (v % 2 ^ 16, drop 2 b))
      × (read_back get32 (put32 b v) ≡ some (v % 2 ^ 32, drop 4 b))
      × (read_back get64 (put64 b v) ≡ some (v % 2 ^ 64, drop 8 b))
get-put_integer b v h = (
  rw (put8-little_endian b v (omega arith)) (unfold get8 in refl),
  rw (put16-little_endian b v (omega arith)) (get16-little_endian v (drop 2 b)),
  rw (put32-little_endian b v (omega arith)) (get32-little_endian v (drop 4 b)),
  rw (put64-little_endian b v h) (get64-little_endian v (drop 8 b)),
)
