-- ===== src/Server/History/Legal.antt =====
-- That the server with all its connections is one versioned map (pkg/network/server/conn.go).
use crypt_fs.Prelude.{ℕ, ◌-◌, ◌^◌, ◌<◌, ◌≡◌, sym, Option, Bool, List, ◌∷◌, ◌++◌, Bytes, All, subst}
use crypt_fs.Message.{Message, Kind}
use crypt_fs.Message.Encoding
use crypt_fs.Storage.{Store, IsMap}
use crypt_fs.Storage.Versioned.{new_versioned_wrapper}
use crypt_fs.Storage.Versioned.Refinement.{Entries, Refines}
use crypt_fs.Server.{Options}
use crypt_fs.Server.Locked
use crypt_fs.Server.Locked.{Server, here, next, attach, round, detach, notify}
use crypt_fs.Server.History.{entries_after, IsLegal, step_history, history}
use crypt_fs.Server.History.Effect.{handle_input-Effect}
use crypt_fs.Server.History.Order.{entries_after-append, IsLegal-append, IsLegal-ascending}

module _ {W : Type 0} (write : W → Bytes → W × ℕ × Option Encoding.Error)
    (verify : Bytes → Bytes → Bool) (format_kind : Kind → Bytes) (s : Store) (mm : IsMap s)
    (o : Options) where
  abbrev Step : Server W s.State → Server W s.State → Type 0
  Step = Locked.Step write verify format_kind (new_versioned_wrapper s) o

  abbrev Reach : Server W s.State → Server W s.State → Type 0
  Reach = Locked.Reach write verify format_kind (new_versioned_wrapper s) o

  abbrev accepted : {u v : Server W s.State} → Reach u v → List Message
  accepted path = history write verify format_kind (new_versioned_wrapper s) o path

  Step-IsLegal :
      {u v : Server W s.State} (a : Entries) (step : Step u v)
      → Refines s mm u.store a
      → IsLegal (step_history write verify format_kind (new_versioned_wrapper s) o step) a
        × Refines s mm v.store (
            entries_after
              (step_history write verify format_kind (new_versioned_wrapper s) o step)
              a)
  Step-IsLegal a (attach u id input out) r = (tt, r)
  Step-IsLegal a (round u before after sc sc' st sent at_conn e) r =
      let effect =
        handle_input-Effect s mm write verify format_kind o sc sc' a u.store st sent r e in
      (effect.legal, effect.refines)
  Step-IsLegal a (detach u before after sc at_conn e) r = (tt, r)
  Step-IsLegal a (notify u before after id m conns is_pending e) r = (tt, r)

  -- However connections come, send and go, and broadcasts run, the server over a map is one versioned
  -- map. The puts that it has accepted, over all connections, in the order of their rounds, are each
  -- one that the entries accepted which those in front of it had left, and the store holds the entries
  -- after all of them, and nothing else.
  pub Reach-IsLegal :
      (u v : Server W s.State) (path : Reach u v) (a : Entries)
      → Refines s mm u.store a
      → IsLegal (accepted path) a × Refines s mm v.store (entries_after (accepted path) a)
  unfolding history
  Reach-IsLegal u _ here a r = (tt, r)
  Reach-IsLegal u v (next {t} path step) a r =
      let (legal, refines) = Reach-IsLegal u t path a r in
      let (more, refines') = Step-IsLegal (entries_after (accepted path) a) step refines in
      let puts = step_history write verify format_kind (new_versioned_wrapper s) o step in
      (
        IsLegal-append (accepted path) puts a legal more,
        subst (Refines s mm v.store) (sym (entries_after-append (accepted path) puts a)) refines',
      )

  -- No update is lost. Of two puts of one key that the server has accepted, over any connections, the
  -- later one has the larger version, so two clients that put the next version of a key at once are
  -- never both told that they did. The largest version is excepted, where the wrapper's sum wraps:
  -- neither the earlier put nor one in between may have it.
  pub history_ascending :
      (u v : Server W s.State) (path : Reach u v) (a : Entries) (xs ys zs : List Message)
      (m m' : Message)
      → Refines s mm u.store a
      → accepted path ≡ xs ++ m ∷ (ys ++ m' ∷ zs)
      → m.key ≡ m'.key
      → m.version < 2 ^ 64 - 1
      → All (λ x. x.version < 2 ^ 64 - 1) ys
      → m.version < m'.version
  history_ascending u v path a xs ys zs m m' r is same h hs =
      IsLegal-ascending xs ys zs m m' a same h hs
        (subst (λ l. IsLegal l a) is (Reach-IsLegal u v path a r).0)
