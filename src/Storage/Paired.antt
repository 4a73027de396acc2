-- ===== src/Storage/Paired.antt =====
-- pkg/storage/paired.go: a fast store in front of a slow one.
use mathlib.Core.Option
use mathlib.Core.Path.{fun_ext}
use crypt_fs.Prelude.{
  ℕ, zero, suc, ◌≡◌, refl, ap, ◌∙◌, Option, none, some, Bool, false, not, List, [], ◌∷◌, Bytes,
  ◌>>=◌, if◌then◌else◌, arith, bytes_eq,
}
use crypt_fs.Storage.{Error, is_not_found, Got, Store, IsMap}

-- errors.Is(err, ErrNotFound), where `err` may be nil
unfoldable pub is_missing : Option Error → Bool
is_missing none = false
is_missing (some e) = is_not_found e

module _ (fast slow : Store) where
  -- What follows on the slow store's answer: a value goes to the fast store too, whose error is
  -- only logged.
  unfoldable pub propagate : Bytes → slow.State × Got → fast.State → (fast.State × slow.State) × Got
  propagate key (sl, got) fa = elim got.err [
    | some e ↦ ((fa, sl), record { value = none; err = some e })
    | none ↦ (
      ((fast.put key (Option.get_or got.value []) fa).0, sl),
      record { value = got.value; err = none },
    )
  ]

  unfoldable pub paired_get : Bytes → fast.State × slow.State → (fast.State × slow.State) × Got
  unfolding propagate is_missing
  paired_get key (fa, sl) =
      let (fa', got) = fast.get key fa in
      elim got.err [
        | some e ↦ ((fa', sl), got)
        | none ↦
            if not (is_missing got.err)
            then ((fa', sl), got)
            else propagate key (slow.get key sl) fa'
      ]

  -- Tries until the slow store takes the value; `none` means that the fuel ran out first.
  unfoldable pub writeback1 : ℕ → Bytes → Bytes → slow.State → Option slow.State
  writeback1 zero key value sl = none
  writeback1 (suc fuel) key value sl =
      let (sl', err) = slow.put key value sl in
      elim err [ none ↦ some sl' | some e ↦ writeback1 fuel key value sl' ]

  -- The values that were queued, in their order.
  unfoldable pub writeback : ℕ → List (Bytes × Bytes) → slow.State → Option slow.State
  unfolding writeback1
  writeback fuel [] sl = some sl
  writeback fuel ((key, value) ∷ queue) sl = do
    sl' ← writeback1 fuel key value sl
    writeback fuel queue sl'

  -- Whatever the two stores do, a Get returns just what the fast store returns, found or not, and
  -- neither reads nor changes the slow store.
  pub paired_get-fast :
      (key : Bytes) (fa : fast.State) (sl : slow.State)
      → paired_get key (fa, sl) ≡ (((fast.get key fa).0, sl), (fast.get key fa).1)
  unfolding paired_get
  paired_get-fast key fa sl = ground arith

-- What the writes of a queue make of a map.
abbrev pub put_all : List (Bytes × Bytes) → (Bytes → Option Bytes) → Bytes → Option Bytes
put_all [] a j = a j
put_all ((key, value) ∷ queue) a j =
    put_all queue (λ k. if bytes_eq key k then some value else a k) j

module _ (fast slow : Store) (m : IsMap slow) where
  writeback1-map :
      (fuel : ℕ) (key value : Bytes) (sl : slow.State)
      → writeback1 fast slow (suc fuel) key value sl ≡ some (slow.put key value sl).0
  unfolding writeback1
  writeback1-map fuel key value sl = rw (m.put_succeeds key value sl, writeback1)

  -- With a map as the slow store each write is tried once, and after the queue the slow store holds
  -- what its writes, in their order, make of what it held.
  pub writeback_lem :
      (fuel : ℕ) (queue : List (Bytes × Bytes)) (sl : slow.State)
      → (sl' : slow.State) × (writeback fast slow (suc fuel) queue sl ≡ some sl')
        × ((j : Bytes) → m.view sl' j ≡ put_all queue (m.view sl) j)
  unfolding writeback
  writeback_lem fuel [] sl = (sl, refl, λ j. refl)
  writeback_lem fuel ((key, value) ∷ queue) sl =
      let (sl', done, shown) = writeback_lem fuel queue (slow.put key value sl).0 in
      (
        sl',
        rw (writeback1-map, done),
        λ j. shown j ∙ ap (λ a. put_all queue a j) (fun_ext (λ k. m.put_view key value k sl)),
      )
