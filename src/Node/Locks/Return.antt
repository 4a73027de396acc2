-- ===== src/Node/Locks/Return.antt =====
-- That calls which take their mutexes in an order return (pkg/node/node.go).
use crypt_fs.Prelude.{
  ℕ, suc, ◌+◌, ◌<◌, true, false, ◌≡◌, ◌⊎◌, ap, ◌∙◌, List, [], ◌∷◌, ◌++◌, length, arith,
}
use crypt_fs.Node.Locks.{
  Call, on_node, rmdir, create, mkdir, symlink, rename, lock_order, start, enter, go, Thread,
  Progress, lock, unlock, Reach, Runs, stops, goes, steps, work,
}
use crypt_fs.Node.Locks.Order.{Ascends, goes_on, Reach-IsOrdered, Runs-IsOrdered}

work-append : (s t : List Thread) → work (s ++ t) ≡ work s + work t
unfolding work
work-append [] t = omega arith
work-append (u ∷ s) t = let rest = work-append s t in omega (arith, rest)

Progress-work : {s t : List Thread} → Progress s t → suc (work t) ≡ work s
unfolding work
Progress-work (lock s before after t p rest at is free) =
    let t' : Thread = record { held = p ∷ t.held; wanted = rest } in
    let old = ap work at ∙ work-append before (t ∷ after) in
    let new = work-append before (t' ∷ after) in
    let wanted : length t.wanted ≡ length (p ∷ rest) = ap length is in
    omega (arith, old, new, wanted)
Progress-work (unlock s before after t at is) =
    let old = ap work at ∙ work-append before (t ∷ after) in
    let new = work-append before after in
    let wanted : length t.wanted ≡ 0 = ap length is in omega (arith, old, new, wanted)

Runs-work : {s t : List Thread} (run : Runs s t) → steps run + work t ≡ work s
unfolding steps
Runs-work (stops s) = omega arith
Runs-work (goes step run) =
    let one = Progress-work step in let rest = Runs-work run in omega (arith, one, rest)

module _ (rank : ℕ → ℕ) where
  -- Calls whose child is ranked above its directory, Renames within one directory among them.
  abbrev pub IsDownward : Call → Type 0
  IsDownward (on_node node) = Unit {0}
  IsDownward (rmdir node child) = rank node < rank child
  IsDownward (create node child) = rank node < rank child
  IsDownward (mkdir node child) = rank node < rank child
  IsDownward (symlink node child) = rank node < rank child
  IsDownward (rename node child new_parent same_key) = (same_key ≡ true) × (rank node < rank child)

  IsDownward-Ascends : (call : Call) → IsDownward call → Ascends rank call
  unfolding lock_order
  IsDownward-Ascends (on_node node) h = (tt, tt)
  IsDownward-Ascends (rmdir node child) h = ((h, tt), (tt, tt))
  IsDownward-Ascends (create node child) h = ((h, tt), (tt, tt))
  IsDownward-Ascends (mkdir node child) h = ((h, tt), (tt, tt))
  IsDownward-Ascends (symlink node child) h = ((h, tt), (tt, tt))
  IsDownward-Ascends (rename node child new_parent true) (same, h) = ((h, tt), (tt, tt))
  IsDownward-Ascends (rename node child new_parent false) (same, h) = cc

  Reach-Ascends : {s : List Thread} → Reach IsDownward s → Reach (Ascends rank) s
  Reach-Ascends start = start
  Reach-Ascends (enter call h path) = enter call (IsDownward-Ascends call h) (Reach-Ascends path)
  Reach-Ascends (go path step) = go (Reach-Ascends path) step

  -- No deadlock. Where each child is ranked above its directory, and no Rename goes to a directory with
  -- another key, the calls that run all return, however they have come and interleaved: when they have
  -- gone on for any number of steps, either all have returned or one can go on, and each step takes
  -- one from the work that is left, which is one for each call and each mutex that it has still to take.
  pub calls_return :
      (s t : List Thread) (run : Runs s t)
      → Reach IsDownward s
      → ((t ≡ []) ⊎ ((u : List Thread) × Progress t u)) × (steps run + work t ≡ work s)
  calls_return s t run path = (
    goes_on rank t (Runs-IsOrdered rank run (Reach-IsOrdered rank (Reach-Ascends path))),
    Runs-work run,
  )
