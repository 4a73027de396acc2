-- ===== src/Server/History/Order.antt =====
-- Histories of accepted puts, one after the other.
use crypt_fs.Prelude.{
  ℕ, ◌-◌, ◌^◌, ◌<◌, ◌≤◌, ◌≡◌, inl, inr, refl, some, true, List, [], ◌∷◌, ◌++◌, Bytes, arith, All,
  Bool-cases, bytes_eq, bytes_eq_iff, subst,
}
use crypt_fs.Message.{Message}
use crypt_fs.Storage.Versioned.Refinement.{Entries, accepts, put_entry}
use crypt_fs.Server.History.{entries_after, IsLegal}

pub entries_after-append :
    (xs ys : List Message) (a : Entries)
    → entries_after (xs ++ ys) a ≡ entries_after ys (entries_after xs a)
entries_after-append [] ys a = refl
entries_after-append (x ∷ xs) ys a =
    entries_after-append xs ys (put_entry x.version x.key x.value a)

pub IsLegal-append :
    (xs ys : List Message) (a : Entries)
    → IsLegal xs a
    → IsLegal ys (entries_after xs a)
    → IsLegal (xs ++ ys) a
IsLegal-append [] ys a l m = m
IsLegal-append (x ∷ xs) ys a (ok, l) m =
    (ok, IsLegal-append xs ys (put_entry x.version x.key x.value a) l m)

-- The entry of a key has a version of `n` at least, which is below the largest.
abbrev HasReached : ℕ → Bytes → Entries → Type 0
HasReached n key a =
    (v : ℕ) × (value : Bytes) × (a key ≡ some (v, value)) × (n ≤ v) × (v < 2 ^ 64 - 1)

put_entry-HasReached :
    (n version : ℕ) (key key' value : Bytes) (a : Entries)
    → version < 2 ^ 64 - 1
    → HasReached n key a
    → accepts version (a key') ≡ true
    → HasReached n key (put_entry version key' value a)
put_entry-HasReached n version key key' value a h (v, old, at, le, small) ok =
    elim (Bool-cases (bytes_eq key' key)) [
      | inr other ↦ (v, old, rw (ok, other) at, le, small)
      | inl same ↦
          let is = (bytes_eq_iff key' key).0 same in
          let ok' : accepts version (some (v, old)) ≡ true = rw (is, at) at ok in
          (version, value, rw (ok, same) refl, ground (arith, ok', le, small, h), h)
    ]

put_entry-reached :
    (version : ℕ) (key value : Bytes) (a : Entries)
    → version < 2 ^ 64 - 1
    → accepts version (a key) ≡ true
    → HasReached version key (put_entry version key value a)
put_entry-reached version key value a h ok =
    let self : bytes_eq key key ≡ true = (bytes_eq_iff key key).1 refl in
    (version, value, rw (ok, self) refl, omega arith, h)

-- A later put of the key goes beyond what is reached.
IsLegal-beyond :
    (n : ℕ) (ys zs : List Message) (m : Message) (a : Entries)
    → HasReached n m.key a
    → All (λ x. x.version < 2 ^ 64 - 1) ys
    → IsLegal (ys ++ m ∷ zs) a
    → n < m.version
IsLegal-beyond n [] zs m a (v, value, at, le, small) h (ok, l) =
    let ok' : accepts m.version (some (v, value)) ≡ true = rw at at ok in
    ground (arith, ok', le, small)
IsLegal-beyond n (y ∷ ys) zs m a r (h, hs) (ok, l) =
    IsLegal-beyond n ys zs m (put_entry y.version y.key y.value a)
      (put_entry-HasReached n y.version m.key y.key y.value a h r ok) hs l

pub IsLegal-ascending :
    (xs ys zs : List Message) (m m' : Message) (a : Entries)
    → m.key ≡ m'.key
    → m.version < 2 ^ 64 - 1
    → All (λ x. x.version < 2 ^ 64 - 1) ys
    → IsLegal (xs ++ m ∷ (ys ++ m' ∷ zs)) a
    → m.version < m'.version
IsLegal-ascending [] ys zs m m' a same h hs (ok, l) =
    IsLegal-beyond m.version ys zs m' (put_entry m.version m.key m.value a)
      (subst (λ k. HasReached m.version k (put_entry m.version m.key m.value a)) same
        (put_entry-reached m.version m.key m.value a h ok))
      hs l
IsLegal-ascending (x ∷ xs) ys zs m m' a same h hs (ok, l) =
    IsLegal-ascending xs ys zs m m' (put_entry x.version x.key x.value a) same h hs l
