-- ===== src/Storage/Apply.antt =====
-- pkg/storage/message.go: a message applied to a versioned store.
use crypt_fs.Prelude.{
  ℕ, ◌^◌, ◌<◌, ◌≡◌, refl, ap, Option, none, some, Bool, true, false, ◌||◌, ◌==◌, [], ◌++◌, Bytes,
  ◌>>=◌, if◌then◌else◌,
}
use mathlib.Core.Option
use crypt_fs.Prelude.Text.{codes}
use crypt_fs.Message.{
  Message, Kind, kind_get, kind_put, kind_error, kind_auth, get_key, get_value, get_version,
  new_put_message, new_error_message,
}
use crypt_fs.Storage.{Error, error_text, stale_put, is_not_found, Store, IsMap}
use crypt_fs.Storage.Versioned.{Versioned, VersionedStore, new_versioned_wrapper}
use crypt_fs.Storage.Versioned.Refinement.{
  Entries, accepts, put_entry, Reports, Refines, wrapper_put-Refines, wrapper_get-Refines,
}

-- The answers to a get and to a put.
unfoldable pub answer_get : ℕ → Bytes → Versioned → Message
answer_get tag key got = elim got.err [
  | some e ↦ new_error_message tag (error_text e)
  | none ↦ new_put_message tag key (Option.get_or got.value []) got.version
]

unfoldable pub answer_put : Message → Option Error → Message
answer_put m (some e) = new_error_message m.tag (error_text e)
answer_put m none = m

-- `format_kind` is fmt's "%s" of a kind; `none` is a panic.
module _ (format_kind : Kind → Bytes) (store : VersionedStore) where
  unfoldable pub apply_message : Message → store.State → Option (store.State × Message)
  unfolding answer_get answer_put
  apply_message m st =
      if m.kind == kind_get
      then (do key ← get_key m; (st', got) ← store.get key st; some (st', answer_get m.tag key got))
      else if m.kind == kind_put
      then (do
        version ← get_version m
        key ← get_key m
        value ← get_value m
        (st', err) ← store.put version key value st
        some (st', answer_put m err))
      else if m.kind == kind_auth || m.kind == kind_error
      then some (
        st,
        new_error_message m.tag
            (codes "messages of kind " ++ (format_kind m.kind ++ codes " cannot be applied")),
      )
      else some (st, new_error_message m.tag (codes "unknown message kind"))

-- The answer to a get of an entry: a put message that carries it, or the error of a missing key.
abbrev pub OwedGet : Message → Option (ℕ × Bytes) → Message → Type 0
OwedGet m none out =
    (e : Error) × (is_not_found e ≡ true) × (out ≡ new_error_message m.tag (error_text e))
OwedGet m (some (version, value)) out = out ≡ new_put_message m.tag m.key value version

owed_get :
    (m : Message) (o : Option (ℕ × Bytes)) (got : Versioned)
    → Reports o got
    → OwedGet m o (answer_get m.tag m.key got)
unfolding answer_get
owed_get m none got (e, failed, missing) = (e, missing, rw (failed, answer_get))
owed_get m (some (version, value)) got same = rw same

answer_put-if :
    (m : Message) (b : Bool)
    → answer_put m (if b then none else some stale_put)
      ≡ (if b then m else new_error_message m.tag (error_text stale_put))
unfolding answer_put
answer_put-if m true = refl
answer_put-if m false = refl

module _ (format_kind : Kind → Bytes) (s : Store) (m : IsMap s) where
  -- A get message applied to a versioned wrapper over a map does not panic and changes no entry. The
  -- answer has the message's tag: it is a put message with the key's entry, or an error message with
  -- the text of an ErrNotFound where the key has none.
  pub apply_message-get :
      (msg : Message) (st : s.State) (a : Entries)
      → msg.kind ≡ kind_get
      → Refines s m st a
      → (st' : s.State) × (out : Message) × (apply_message format_kind
            (new_versioned_wrapper s)
            msg
            st
          ≡ some (st', out))
        × OwedGet msg (a msg.key) out
        × Refines s m st' a
  unfolding apply_message get_key
  apply_message-get msg st a k r =
      let (st', got, done, reports, kept) = wrapper_get-Refines s m msg.key st a r in
      (
        st',
        answer_get msg.tag msg.key got,
        rw (k, done),
        owed_get msg (a msg.key) got reports,
        kept,
      )

  -- A put message applied to a versioned wrapper over a map does not panic. Where its version is
  -- accepted the entry of its key becomes its version and value, and the answer is the message
  -- itself; otherwise no entry changes, and the answer is an error message with its tag and the text
  -- of ErrStalePut.
  pub apply_message-put :
      (msg : Message) (st : s.State) (a : Entries)
      → msg.kind ≡ kind_put
      → msg.version < 2 ^ 64
      → Refines s m st a
      → (st' : s.State) × (apply_message format_kind (new_versioned_wrapper s) msg st
          ≡ some (
            st',
            if accepts msg.version (a msg.key)
                then msg
                else new_error_message msg.tag (error_text stale_put),
          ))
        × Refines s m st' (put_entry msg.version msg.key msg.value a)
  unfolding apply_message get_key get_value get_version
  apply_message-put msg st a k h r =
      let (st', done, kept) = wrapper_put-Refines s m msg.version msg.key msg.value st a h r in
      (
        st',
        simp (k, done)
            (ap (λ x. some (st', x)) (answer_put-if msg (accepts msg.version (a msg.key)))),
        kept,
      )
