-- ===== src/Node/Metadata/Writers.antt =====
-- Writers in a row: each puts down its bytes at the front of the slice that the one before left.
use crypt_fs.Prelude.{
  ℕ, suc, ◌+◌, ◌%◌, ◌^◌, ◌≤◌, ◌<◌, ◌≡◌, refl, ◌∙◌, Option, some, [], ◌∷◌, ◌++◌, Bytes, length, drop,
  length-append, length-drop, arith, Assoc, take-all, drop-all, drop-drop,
}
use crypt_fs.Bits.{put16, put32, put64, putb, puts}
use crypt_fs.Bits.Wire.{
  little_endian, prefixed, put16-little_endian, put32-little_endian, put64-little_endian, puts-fits,
  putb-puts,
}
use crypt_fs.Node.Metadata.{◌▸◌, put_entries}

-- A writer that puts `x` into every slice that has room for it.
pub record Emits (put : Bytes → Option (Bytes × Bytes)) (x : Bytes) : Type 0 where
  pub into : (s : Bytes) → length x ≤ length s → put s ≡ some (x, drop (length x) s)

pub Emits-seq :
    {p q : Bytes → Option (Bytes × Bytes)} {x y : Bytes}
    → Emits p x
    → Emits q y
    → Emits (p ▸ q) (x ++ y)
Emits-seq {x} {y} hp hq = record {
  into = λ s h.
      let both = length-append x y in
      rw (
        hp.into s (omega (arith, both)),
        hq.into (drop (length x) s) (omega (arith, both, length-drop (length x) s)),
        both,
        drop-drop,
      );
}

pub Emits-put16 : (v : ℕ) → Emits (λ b. put16 b v) (little_endian 2 v)
Emits-put16 v = record { into = λ s h. put16-little_endian s v h }

pub Emits-put32 : (v : ℕ) → Emits (λ b. put32 b v) (little_endian 4 v)
Emits-put32 v = record { into = λ s h. put32-little_endian s v h }

pub Emits-put64 : (v : ℕ) → Emits (λ b. put64 b v) (little_endian 8 v)
Emits-put64 v = record { into = λ s h. put64-little_endian s v h }

pub Emits-puts : (v : Bytes) → length v < 2 ^ 16 → Emits (λ b. puts b v) (prefixed v)
Emits-puts v short = record {
  into = λ s h.
      puts-fits s v (omega arith)
      ∙ rw
          (whole, take-all (length v) v le_self, drop-all (length v) v le_self, drop-drop, two_add);
}
  where
    whole : length v % 2 ^ 16 ≡ length v
    whole = omega arith

    le_self : length v ≤ length v
    le_self = omega arith

    two_add : 2 + length v ≡ suc (suc (length v))
    two_add = omega arith

pub Emits-putb : (v : Bytes) → length v < 2 ^ 16 → Emits (λ b. putb b v) (prefixed v)
Emits-putb v short = record { into = λ s h. putb-puts s v ∙ (Emits-puts v short).into s h }

Emits-nil : Emits (λ b. some ([], b)) []
Emits-nil = record { into = λ s h. refl }

-- A name or value that its 16-bit length can state, in front of the rest of the map.
abbrev pub Fits : Assoc Bytes → Type 0
Fits [] = Unit {0}
Fits ((name, value) ∷ entries) = (length name < 2 ^ 16) × (length value < 2 ^ 16) × Fits entries

abbrev pub entries_bytes : Assoc Bytes → Bytes
entries_bytes [] = []
entries_bytes ((name, value) ∷ entries) = prefixed name ++ (prefixed value ++ entries_bytes entries)

pub Emits-put_entries :
    (entries : Assoc Bytes)
    → Fits entries
    → Emits (λ b. put_entries entries b) (entries_bytes entries)
unfolding put_entries
Emits-put_entries [] h = Emits-nil
Emits-put_entries ((name, value) ∷ entries) h =
    Emits-seq (Emits-puts name h.0)
      (Emits-seq (Emits-putb value h.1) (Emits-put_entries entries h.2))
