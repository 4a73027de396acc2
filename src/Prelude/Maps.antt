-- ===== src/Prelude/Maps.antt =====
-- A Go map with strings for keys, as the list of its entries. A loop over a map visits the entries
-- in an order that Go leaves open: here it is the list's, and theorems hold for every list.
use mathlib.Core.Path.{◌≡◌, refl}
use mathlib.Core.Bool.{false}
use mathlib.Core.Option.{Option, none, some}
use mathlib.Core.List.{List, [], ◌∷◌, ◌++◌}
use native.Mathlib.Omega.{arith}
use crypt_fs.Prelude.Lists.{Bytes, bytes_eq, bytes_eq_iff, bytes_eq_comm}
use crypt_fs.Prelude.Tests.{if◌then◌else◌}

abbrev pub Assoc {ℓ} : Type ℓ → Type ℓ
Assoc V = List (Bytes × V)

module _ {ℓ} {V : Type ℓ} where
  -- m[k]
  unfoldable pub lookup : Bytes → Assoc V → Option V
  lookup k [] = none
  lookup k ((j, v) ∷ m) = if bytes_eq j k then some v else lookup k m

  -- m[k] = v
  unfoldable pub insert : Bytes → V → Assoc V → Assoc V
  insert k v [] = (k, v) ∷ []
  insert k v ((j, w) ∷ m) = if bytes_eq j k then (k, v) ∷ m else (j, w) ∷ insert k v m

  -- delete(m, k)
  unfoldable pub delete : Bytes → Assoc V → Assoc V
  delete k [] = []
  delete k ((j, v) ∷ m) = let rest = delete k m in if bytes_eq j k then rest else (j, v) ∷ rest

  pub lookup-insert :
      (k j : Bytes) (v : V) (m : Assoc V)
      → lookup j (insert k v m) ≡ (if bytes_eq k j then some v else lookup j m)
  unfolding lookup insert
  lookup-insert k j v [] = refl
  lookup-insert k j v ((i, w) ∷ m) =
      ground (arith, bytes_eq_iff k j, bytes_eq_iff i k, bytes_eq_iff i j, lookup-insert k j v m)

  pub lookup-delete :
      (k j : Bytes) (m : Assoc V)
      → lookup j (delete k m) ≡ (if bytes_eq k j then none else lookup j m)
  unfolding lookup delete
  lookup-delete k j [] = ground arith
  lookup-delete k j ((i, w) ∷ m) =
      ground (arith, bytes_eq_iff k j, bytes_eq_iff i k, bytes_eq_iff i j, lookup-delete k j m)

  -- No key stands twice in a map.
  abbrev pub IsDistinct : Assoc V → Type ℓ
  IsDistinct [] = Unit {ℓ}
  IsDistinct ((k, v) ∷ m) = (lookup k m ≡ none) × IsDistinct m

  pub insert-new :
      (k : Bytes) (v : V) (m : Assoc V) → lookup k m ≡ none → insert k v m ≡ m ++ (k, v) ∷ []
  unfolding lookup insert
  insert-new k v [] h = refl
  insert-new k v ((j, w) ∷ m) h = ground (arith, insert-new k v m)

  lookup_tail :
      (k j : Bytes) (w : V) (m : Assoc V)
      → lookup k ((j, w) ∷ m) ≡ none
      → (bytes_eq j k ≡ false) × (lookup k m ≡ none)
  unfolding lookup
  lookup_tail k j w m h = ground arith

module _ {ℓ κ} {V : Type ℓ} {U : Type κ} where
  -- No key of the entries stands in the map.
  abbrev pub IsApart : Assoc V → Assoc U → Type ℓ
  IsApart acc [] = Unit {ℓ}
  IsApart acc ((k, u) ∷ m) = (lookup k acc ≡ none) × IsApart acc m

  pub IsApart-insert :
      (k : Bytes) (v : V) (acc : Assoc V) (m : Assoc U)
      → lookup k m ≡ none
      → IsApart acc m
      → IsApart (insert k v acc) m
  IsApart-insert k v acc [] h a = tt
  IsApart-insert k v acc ((j, u) ∷ m) h (fresh, a) =
      let (ne, h') = lookup_tail k j u m h in
      (rw (lookup-insert, bytes_eq_comm k j, ne) fresh, IsApart-insert k v acc m h' a)

pub IsApart-nil {ℓ κ} : (V : Type ℓ) {U : Type κ} (m : Assoc U) → IsApart {V = V} [] m
unfolding lookup
IsApart-nil V [] = tt
IsApart-nil V ((k, u) ∷ m) = (refl, IsApart-nil V m)
