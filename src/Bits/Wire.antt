-- ===== src/Bits/Wire.antt =====
-- The bytes that the writers of pkg/bits/bits.go put down, by their mathematical description, and
-- how the readers take them apart.
use mathlib.Core.Option.{some-injective}
use crypt_fs.Prelude.{
  subst, ℕ, zero, suc, ◌+◌, ◌/◌, ◌%◌, ◌^◌, ◌≤◌, ◌<◌, ◌≡◌, refl, some, [], ◌∷◌, ◌++◌, Bytes, length,
  take, drop, take-append, drop-append, length-append, length-drop, length-take, take-all,
  take-append_le, drop-append_le, take-append-drop, take-take_le, sym, ◌∙◌, arith,
}
use crypt_fs.Bits.{
  copy, put8, put16, put32, put64, putb, puts, get16, get32, get64, getb, gets, slice_to,
  slice_from,
}

-- The `k` low bytes of `v`, the lowest first.
abbrev pub little_endian : ℕ → ℕ → Bytes
little_endian zero v = []
little_endian (suc k) v = v % 256 ∷ little_endian k (v / 256)

-- A byte string behind its length in two bytes.
abbrev pub prefixed : Bytes → Bytes
prefixed v = little_endian 2 (length v) ++ v

pub put8-little_endian :
    (b : Bytes) (v : ℕ) → 1 ≤ length b → put8 b v ≡ some (little_endian 1 v, drop 1 b)
unfolding put8
put8-little_endian [] v h = absurd (omega arith)
put8-little_endian (x ∷ b) v h = ground arith

pub put16-little_endian :
    (b : Bytes) (v : ℕ) → 2 ≤ length b → put16 b v ≡ some (little_endian 2 v, drop 2 b)
unfolding put16
put16-little_endian (_ ∷ _ ∷ b) v h = ground arith
put16-little_endian _ v h = absurd (omega arith)

pub put32-little_endian :
    (b : Bytes) (v : ℕ) → 4 ≤ length b → put32 b v ≡ some (little_endian 4 v, drop 4 b)
unfolding put32
put32-little_endian (_ ∷ _ ∷ _ ∷ _ ∷ b) v h = ground arith
put32-little_endian _ v h = absurd (omega arith)

pub put64-little_endian :
    (b : Bytes) (v : ℕ) → 8 ≤ length b → put64 b v ≡ some (little_endian 8 v, drop 8 b)
unfolding put64
put64-little_endian (_ ∷ _ ∷ _ ∷ _ ∷ _ ∷ _ ∷ _ ∷ _ ∷ b) v h = ground arith
put64-little_endian _ v h = absurd (omega arith)

pub get16-little_endian :
    (v : ℕ) (rest : Bytes) → get16 (little_endian 2 v ++ rest) ≡ some (v % 2 ^ 16, rest)
unfolding get16
get16-little_endian v rest = ground arith

pub get32-little_endian :
    (v : ℕ) (rest : Bytes) → get32 (little_endian 4 v ++ rest) ≡ some (v % 2 ^ 32, rest)
unfolding get32
get32-little_endian v rest = ground arith

pub get64-little_endian :
    (v : ℕ) (rest : Bytes) → get64 (little_endian 8 v ++ rest) ≡ some (v % 2 ^ 64, rest)
unfolding get64
get64-little_endian v rest = ground arith

-- Readers of a string: the length in front, then that many bytes.
pub gets-little_endian :
    (n : ℕ) (s : Bytes)
    → n < 2 ^ 16
    → n ≤ length s
    → gets (little_endian 2 n ++ s) ≡ some (take n s, drop n s)
unfolding gets
gets-little_endian n s h k = ground arith

pub gets-prefixed :
    (v rest : Bytes) → length v < 2 ^ 16 → gets (prefixed v ++ rest) ≡ some (v, rest)
gets-prefixed v rest h =
    gets-little_endian (length v) (v ++ rest) h (omega (arith, length-append v rest))
    ∙ rw (take-append, drop-append)

pub getb-gets : (b : Bytes) → getb b ≡ gets b
unfolding getb gets
getb-gets b = refl

pub putb-puts : (b v : Bytes) → putb b v ≡ puts b v
unfolding putb puts
putb-puts b v = refl

-- What `copy` leaves where the source fits.
pub copy-fits : (b v : Bytes) → length v ≤ length b → copy b v ≡ v ++ drop (length v) b
unfolding copy
copy-fits b v h = rw (take-all (length b) v h)

pub length-copy : (b v : Bytes) → length (copy b v) ≡ length b
unfolding copy
length-copy b v = omega (
  arith,
  length-append (take (length b) v) (drop (length v) b),
  length-take (length b) v,
  length-drop (length v) b,
)

-- The first `n` bytes after a copy are the source's, if both hold that many.
pub take-copy : (n : ℕ) (b v : Bytes) → n ≤ length b → n ≤ length v → take n (copy b v) ≡ take n v
unfolding copy
take-copy n b v h k =
    take-append_le n (take (length b) v) (drop (length v) b)
      (omega (arith, length-take (length b) v))
    ∙ take-take_le n (length b) v h

pub slice_from-fits : (b : Bytes) (n : ℕ) → n ≤ length b → slice_from b n ≡ some (drop n b)
unfolding slice_from
slice_from-fits b n h = ground arith

pub slice_to-fits : (b : Bytes) (n : ℕ) → n ≤ length b → slice_to b n ≡ some (take n b)
unfolding slice_to
slice_to-fits b n h = ground arith

-- `puts` on a slice of at least the two bytes of the length.
puts_step :
    (x y : ℕ) (b v : Bytes)
    → length v % 2 ^ 16 ≤ length b
    → puts (x ∷ y ∷ b) v
      ≡ some (
        little_endian 2 (length v) ++ take (length v % 2 ^ 16) v,
        drop (length v % 2 ^ 16) (copy b v),
      )
unfolding puts
puts_step x y b v h =
    rw
      (
        slice_from-fits (copy b v) (length v % 2 ^ 16) (omega (arith, length-copy b v)),
        take-copy (length v % 2 ^ 16) b v h (omega arith),
      )
      (ground arith)

-- `puts` on a slice that holds the whole string, which may be longer than 16 bits can say.
pub puts-fits :
    (b v : Bytes)
    → 2 + length v ≤ length b
    → puts b v
      ≡ some (
        little_endian 2 (length v) ++ take (length v % 2 ^ 16) v,
        drop (length v % 2 ^ 16) v ++ drop (length v) (drop 2 b),
      )
puts-fits (x ∷ y ∷ b) v h =
    puts_step x y b v (omega arith)
    ∙ rw (
      copy-fits b v (omega arith),
      drop-append_le (length v % 2 ^ 16) v (drop (length v) b) (omega arith),
    )
puts-fits _ v h = absurd (omega arith)

-- `puts` returns only from a slice with room for the length and as many bytes as it states.
puts-room : (b v : Bytes) {p : Bytes × Bytes} → puts b v ≡ some p → 2 + length v % 2 ^ 16 ≤ length b
unfolding puts
puts-room (x ∷ y ∷ b) v e = ground (arith, length-copy b v)
puts-room [] v e = cc
puts-room (x ∷ []) v e = cc

-- Two bytes hold a number's 16 low bits.
pub little_endian-mod : (n : ℕ) → little_endian 2 (n % 2 ^ 16) ≡ little_endian 2 n
little_endian-mod n = ground arith

gets_step :
    (b v : Bytes)
    → length v % 2 ^ 16 ≤ length b
    → gets (
        (little_endian 2 (length v) ++ take (length v % 2 ^ 16) v)
        ++ drop (length v % 2 ^ 16) (copy b v))
      ≡ some (take (length v % 2 ^ 16) v, drop (length v % 2 ^ 16) (copy b v))
gets_step b v fits =
    let n = length v % 2 ^ 16 in
    let same : take n (copy b v) ≡ take n v = take-copy n b v fits (omega arith) in
    rw (← same, take-append-drop n (copy b v))
      (subst (λ (d : Bytes). gets (d ++ copy b v) ≡ some (take n (copy b v), drop n (copy b v)))
        (little_endian-mod (length v))
        (gets-little_endian n (copy b v) (omega arith) (omega (arith, length-copy b v))))

-- The string comes back cut to what its 16-bit length says.
pub gets-puts :
    (b v front rest : Bytes)
    → puts b v ≡ some (front, rest)
    → gets (front ++ rest) ≡ some (take (length v % 2 ^ 16) v, rest)
gets-puts (x ∷ y ∷ b) v front rest e =
    let fits : length v % 2 ^ 16 ≤ length b = omega (arith, puts-room (x ∷ y ∷ b) v e) in
    subst (λ (p : Bytes × Bytes). gets (p.0 ++ p.1) ≡ some (take (length v % 2 ^ 16) v, p.1))
      (some-injective _ _ (sym (puts_step x y b v fits) ∙ e)) (gets_step b v fits)
gets-puts [] v front rest e = absurd (omega (arith, puts-room [] v e))
gets-puts (x ∷ []) v front rest e = absurd (omega (arith, puts-room (x ∷ []) v e))
