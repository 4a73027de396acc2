-- ===== src/Node/Locks.antt =====
-- The mutexes of the nodes, which the operations of pkg/node/node.go take one after the other and give
-- back together when they return. The mutex of the factory is held for one access of its map only and
-- is left out, and so is what an operation does between the mutexes.
pub mod Order
pub mod Rename
pub mod Return
use crypt_fs.Prelude.{
  ℕ, suc, ◌<◌, ◌≡◌, Bool, true, false, ◌||◌, List, [], ◌∷◌, ◌++◌, ◌==◌, All, if◌then◌else◌, length,
  ◌+◌,
}

-- The calls, by the mutexes that they take: those of one node (InvalidateCache too), those of a
-- directory and a child of it, and Rename of a child, to its own or another directory.
pub data Call : Type 0 where
  on_node : (node : ℕ) → Call
  rmdir create mkdir symlink : (node child : ℕ) → Call
  rename : (node child new_parent : ℕ) (same_key : Bool) → Call

unfoldable pub lock_order : Call → List ℕ
lock_order (on_node node) = node ∷ []
lock_order (rmdir node child) = node ∷ child ∷ []
lock_order (create node child) = node ∷ child ∷ []
lock_order (mkdir node child) = node ∷ child ∷ []
lock_order (symlink node child) = node ∷ child ∷ []
lock_order (rename node child new_parent same_key) =
    node ∷ child ∷ (if same_key then [] else new_parent ∷ [])

-- A call that runs: what it has locked, and what it has still to lock.
pub record Thread : Type 0 where
  pub held : List ℕ
  pub wanted : List ℕ

abbrev pub entering : Call → Thread
entering call = record { held = []; wanted = lock_order call }

abbrev pub member : ℕ → List ℕ → Bool
member p [] = false
member p (q ∷ qs) = p == q || member p qs

abbrev pub is_held : ℕ → List Thread → Bool
is_held p [] = false
is_held p (t ∷ ts) = member p t.held || is_held p ts

-- A running call takes its next mutex, which no call holds, or returns and gives all back.
pub data Progress : List Thread → List Thread → Type 0 where
  lock :
      (s before after : List Thread) (t : Thread) (p : ℕ) (rest : List ℕ)
      → s ≡ before ++ t ∷ after
      → t.wanted ≡ p ∷ rest
      → is_held p s ≡ false
      → Progress s (before ++ record { held = p ∷ t.held; wanted = rest } ∷ after)
  unlock :
      (s before after : List Thread) (t : Thread)
      → s ≡ before ++ t ∷ after
      → t.wanted ≡ []
      → Progress s (before ++ after)

-- The states that are reached where calls of some kind come at any time.
pub data Reach (Comes : Call → Type 0) : List Thread → Type 0 where
  start : Reach Comes []
  enter :
      {s : List Thread} (call : Call)
      → Comes call
      → Reach Comes s
      → Reach Comes (s ++ entering call ∷ [])
  go : {s t : List Thread} → Reach Comes s → Progress s t → Reach Comes t

-- The running calls go on without new ones.
pub data Runs : List Thread → List Thread → Type 0 where
  stops : (s : List Thread) → Runs s s
  goes : {s t u : List Thread} → Progress s t → Runs t u → Runs s u

unfoldable pub steps : {s t : List Thread} → Runs s t → ℕ
steps (stops s) = 0
steps (goes step run) = suc (steps run)

-- The mutexes that are still to be taken, and the calls that are still to return.
unfoldable pub work : List Thread → ℕ
work [] = 0
work (t ∷ ts) = suc (length t.wanted) + work ts
