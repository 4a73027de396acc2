-- ===== src/Tests/Locks.antt =====
-- A run of two calls that take the mutexes of nodes (pkg/node/node.go).
use crypt_fs.Prelude.{◌+◌, ◌≡◌, ◌⊎◌, refl, arith, List, [], ◌∷◌}
use crypt_fs.Node.Locks.{
  on_node, rmdir, lock_order, Thread, entering, Progress, lock, Reach, start, enter, Runs, stops,
  goes, steps, work,
}
use crypt_fs.Node.Locks.Return.{IsDownward, calls_return}

-- Rmdir of the child 1 of the directory 0, and a call on the child.
abbrev two_calls : List Thread
two_calls = entering (rmdir 0 1) ∷ entering (on_node 1) ∷ []

two_calls-Reach : Reach (IsDownward (λ p. p)) two_calls
two_calls-Reach = enter (on_node 1) tt (enter (rmdir 0 1) (omega arith) start)

abbrev after_one : List Thread
after_one = record { held = 0 ∷ []; wanted = 1 ∷ [] } ∷ entering (on_node 1) ∷ []

one_step : Runs two_calls after_one
unfolding lock_order
one_step =
    goes
      (lock two_calls [] (entering (on_node 1) ∷ []) (entering (rmdir 0 1)) 0 (1 ∷ []) refl refl
        refl)
      (stops after_one)

calls_return_example :
    ((after_one ≡ []) ⊎ ((u : List Thread) × Progress after_one u))
    × (steps one_step + work after_one ≡ work two_calls)
calls_return_example = calls_return (λ p. p) two_calls after_one one_step two_calls-Reach
