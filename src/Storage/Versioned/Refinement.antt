-- ===== src/Storage/Versioned/Refinement.antt =====
-- The versioned wrapper of pkg/storage/store.go over a map is a map of versions and values.
use crypt_fs.Prelude.{
  ℕ, ◌-◌, ◌^◌, ◌<◌, ◌≡◌, refl, ap, ◌∙◌, subst, Option, none, some, Bool, true, false, ◌&&◌, ◌||◌,
  ◌==◌, ◌++◌, Bytes, if◌then◌else◌, ltb, bytes_eq, arith, inl, inr, Bool-cases,
}
use crypt_fs.Bits.{slice_to, slice_from}
use crypt_fs.Storage.{Error, stale_put, is_not_found, Store, Answers, IsMap}
use crypt_fs.Storage.Versioned.{
  put_uint64, uint64, Versioned, check_version, wrapper_put, split_value, wrapper_get,
}

-- What a versioned store holds: for each key a version and a value.
abbrev pub Entries : Type 0
Entries = Bytes → Option (ℕ × Bytes)

-- A put is accepted at a new key, and otherwise with a version beyond the entry's; also with any
-- version at an entry with the largest one, where the sum in the code wraps.
abbrev pub accepts : ℕ → Option (ℕ × Bytes) → Bool
accepts version none = true
accepts version (some (current, _)) = ltb current version || current == 2 ^ 64 - 1

abbrev pub put_entry : ℕ → Bytes → Bytes → Entries → Entries
put_entry version key value a j =
    if accepts version (a key) && bytes_eq key j then some (version, value) else a j

-- The bytes in which the delegate holds an entry.
abbrev pub stored : Option (ℕ × Bytes) → Option Bytes
stored none = none
stored (some (version, value)) = some (put_uint64 version ++ value)

abbrev pub InRange : Option (ℕ × Bytes) → Type 0
InRange none = Unit
InRange (some (version, _)) = version < 2 ^ 64

-- What a Get must return for an entry: at a missing key an error that is ErrNotFound.
abbrev pub Reports : Option (ℕ × Bytes) → Versioned → Type 0
Reports none got = (e : Error) × (got.err ≡ some e) × (is_not_found e ≡ true)
Reports (some (version, value)) got =
    got ≡ record { version = version; value = some value; err = none }

uint64-put_uint64 : (v : ℕ) → v < 2 ^ 64 → uint64 (put_uint64 v) ≡ some v
unfolding uint64 put_uint64
uint64-put_uint64 v h = ground arith

slice_to-put_uint64 : (v : ℕ) (b : Bytes) → slice_to (put_uint64 v ++ b) 8 ≡ some (put_uint64 v)
unfolding slice_to put_uint64
slice_to-put_uint64 v b = ground arith

slice_from-put_uint64 : (v : ℕ) (b : Bytes) → slice_from (put_uint64 v ++ b) 8 ≡ some b
unfolding slice_from put_uint64
slice_from-put_uint64 v b = ground arith

-- The code's test with its wrapping sum decides `accepts`.
check_version-accepts :
    (version : ℕ) (o : Option (ℕ × Bytes))
    → version < 2 ^ 64
    → InRange o
    → check_version version (stored o) ≡ some (if accepts version o then none else some stale_put)
unfolding check_version
check_version-accepts version none h r = refl
check_version-accepts version (some (v, b)) h r =
    rw (slice_to-put_uint64, uint64-put_uint64 v r) (ground arith)

split_value-stored :
    (s : Store) (v : ℕ) (b : Bytes)
    → v < 2 ^ 64
    → split_value s (some (put_uint64 v ++ b))
      ≡ some (record { version = v; value = some b; err = none })
unfolding split_value
split_value-stored s v b h = rw (slice_to-put_uint64, uint64-put_uint64 v h, slice_from-put_uint64)

module _ (s : Store) (m : IsMap s) where
  -- The store holds the entries `a`, and nothing else.
  pub record Refines (st : s.State) (a : Entries) : Type 0 where
    pub shown : (k : Bytes) → m.view st k ≡ stored (a k)
    pub bounded : (k : Bytes) → InRange (a k)

  put_answered :
      (version : ℕ) (key value : Bytes) (st : s.State) (o : Option (ℕ × Bytes))
      → version < 2 ^ 64
      → InRange o
      → Answers (stored o) (s.get key st).1
      → wrapper_put s version key value st
        ≡ some (
            if accepts version o
            then s.put key (put_uint64 version ++ value) (s.get key st).0
            else ((s.get key st).0, some stale_put))
  unfolding wrapper_put
  put_answered version key value st none h r (no_value, (e, failed, missing)) =
      rw (failed, missing, no_value, wrapper_put) (unfold check_version in refl)
  put_answered version key value st (some (v, b)) h r (found, fine) =
      rw (fine, found, check_version-accepts version (some (v, b)) h r, wrapper_put) (ground arith)

  get_answered :
      (key : Bytes) (st : s.State) (o : Option (ℕ × Bytes))
      → InRange o
      → Answers (stored o) (s.get key st).1
      → (got : Versioned) × (wrapper_get s key st ≡ some ((s.get key st).0, got)) × Reports o got
  unfolding wrapper_get
  get_answered key st none r (no_value, (e, failed, missing)) = (
    record { version = 0; value = (s.get key st).1.value; err = some e },
    rw (failed, wrapper_get),
    (e, refl, missing),
  )
  get_answered key st (some (v, b)) r (found, fine) = (
    record { version = v; value = some b; err = none },
    rw (fine, found, split_value-stored s v b r, wrapper_get),
    refl,
  )

  get_keeps-Refines :
      {st : s.State} {a : Entries} (key : Bytes) → Refines st a → Refines (s.get key st).0 a
  get_keeps-Refines key r = record {
    shown = λ k. m.get_keeps key k _ ∙ r.shown k;
    bounded = r.bounded;
  }

  put_keeps-Refines :
      {st : s.State} {a : Entries} (version : ℕ) (key value : Bytes)
      → version < 2 ^ 64
      → accepts version (a key) ≡ true
      → Refines st a
      → Refines (s.put key (put_uint64 version ++ value) st).0 (put_entry version key value a)
  put_keeps-Refines {st} {a} version key value h ok r = record {
    shown = λ k.
        rw (m.put_view, ok)
          (elim (Bool-cases (bytes_eq key k)) [
            | inl same ↦ rw same
            | inr other ↦ rw other (r.shown k)
          ]);
    bounded = λ k. rw ok (elim (Bool-cases (bytes_eq key k)) [
      | inl same ↦ rw same h
      | inr other ↦ rw other (r.bounded k)
    ]);
  }

  refused_put-Refines :
      {st : s.State} {a : Entries} (version : ℕ) (key value : Bytes)
      → accepts version (a key) ≡ false
      → Refines st a
      → Refines st (put_entry version key value a)
  refused_put-Refines version key value stale r = record {
    shown = λ k. rw stale (r.shown k);
    bounded = λ k. rw stale (r.bounded k);
  }

  -- A Put of the wrapper over a map does not panic. Where the key has no entry, or its version is
  -- below the put's, or is the largest, the Put succeeds and the entry becomes the version and the
  -- value put; otherwise it returns ErrStalePut and no entry changes. No other key changes.
  pub wrapper_put-Refines :
      (version : ℕ) (key value : Bytes) (st : s.State) (a : Entries)
      → version < 2 ^ 64
      → Refines st a
      → (st' : s.State) × (wrapper_put s version key value st
          ≡ some (st', if accepts version (a key) then none else some stale_put))
        × Refines st' (put_entry version key value a)
  wrapper_put-Refines version key value st a h r =
      let done =
        put_answered version key value st (a key) h (r.bounded key)
          (subst (λ o. Answers o (s.get key st).1) (r.shown key) (m.get_answers key st)) in
      let written = s.put key (put_uint64 version ++ value) (s.get key st).0 in
      elim (Bool-cases (accepts version (a key))) [
        | inl ok ↦ (
          written.0,
          done ∙ rw ok (ap (λ e. some (written.0, e)) (m.put_succeeds key _ _)),
          put_keeps-Refines version key value h ok (get_keeps-Refines key r),
        )
        | inr stale ↦ (
          (s.get key st).0,
          done ∙ rw stale,
          refused_put-Refines version key value stale (get_keeps-Refines key r),
        )
      ]

  -- A Get of the wrapper over a map does not panic, changes no entry, and returns the version and
  -- the value of the key's entry with no error, or, at a key with no entry, an error that is
  -- ErrNotFound.
  pub wrapper_get-Refines :
      (key : Bytes) (st : s.State) (a : Entries)
      → Refines st a
      → (st' : s.State) × (got : Versioned) × (wrapper_get s key st ≡ some (st', got))
        × Reports (a key) got
        × Refines st' a
  wrapper_get-Refines key st a r =
      let (got, done, reports) =
        get_answered key st (a key) (r.bounded key)
          (subst (λ o. Answers o (s.get key st).1) (r.shown key) (m.get_answers key st)) in
      ((s.get key st).0, got, done, reports, get_keeps-Refines key r)
