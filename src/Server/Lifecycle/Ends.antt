-- ===== src/Server/Lifecycle/Ends.antt =====
-- That Serve of pkg/network/server/server.go ends, or waits.
use crypt_fs.Prelude.{
  ℕ, ◌+◌, ◌≤◌, ◌≡◌, refl, true, false, Bool-cases, List, [], ◌∷◌, arith, inl, inr,
}
use crypt_fs.Message.Encoding.{eof}
use crypt_fs.Server.Lifecycle.{
  Hand, nothing, accepted, numbered, Life, to_nat, Who, serve, Step, accept, accept_fails,
  accept_closed, take_id, add, generate, start_broadcast, end_broadcast, detach, stop_listening,
  stop_ids, close_conns, Reach, here, next, is_serve, serve_steps,
}

-- What Serve has still to do with what it has in hand, and with a closed listener.
abbrev hand_left : Hand → ℕ
hand_left nothing = 0
hand_left (accepted socket) = 2
hand_left (numbered socket id) = 1

abbrev left : Life → ℕ
left s = to_nat s.serving + hand_left s.in_hand

Step-left :
    {who : Who} {s t : Life}
    → Step who s t
    → s.listening ≡ false
    → (t.listening ≡ false) × (is_serve who + left t ≡ left s)
Step-left (accept s socket serving listening free) closed = cc
Step-left (accept_fails s serving listening free) closed = cc
Step-left (accept_closed s serving listening free) closed = (closed, rw serving (omega arith))
Step-left (take_id s socket id rest serving hand at) closed = (closed, rw hand (omega arith))
Step-left (add s socket id input serving hand free) closed = (closed, rw hand (omega arith))
Step-left (generate s ids step taken stopped) closed = (closed, omega arith)
Step-left (start_broadcast s free) closed = (closed, omega arith)
Step-left (end_broadcast s locked) closed = (closed, omega arith)
Step-left (detach s before after sc e free) closed = (closed, omega arith)
Step-left (stop_listening s is_running) closed = (refl, omega arith)
Step-left (stop_ids s is_closing) closed = (closed, omega arith)
Step-left (close_conns s is_stopping free) closed = (closed, omega arith)

left-Reach :
    {s t : Life} (path : Reach s t)
    → s.listening ≡ false
    → (t.listening ≡ false) × (serve_steps path + left t ≡ left s)
unfolding serve_steps
left-Reach here closed = (closed, omega arith)
left-Reach (next who path step) closed =
    let (closed', before) = left-Reach path closed in
    let (closed'', now) = Step-left step closed' in (closed'', omega (arith, before, now))

left-bounded : (s : Life) → left s ≤ 3
left-bounded s = ground arith

-- How Serve stands: it has returned, it can go on, it waits for an id where there is none, or it waits
-- for the mutex, which a broadcast holds.
pub data Standing (t : Life) : Type 0 where
  returned : t.serving ≡ false → Standing t
  goes_on : (u : Life) → Step serve t u → Standing t
  waits_for_id : (socket : ℕ) → t.in_hand ≡ accepted socket → t.ids.buffer ≡ [] → Standing t
  waits_for_lock : (socket id : ℕ) → t.in_hand ≡ numbered socket id → t.locked ≡ true → Standing t

standing_by :
    (t : Life) (hand : Hand) (buffer : List ℕ)
    → t.in_hand ≡ hand
    → t.ids.buffer ≡ buffer
    → t.listening ≡ false
    → t.serving ≡ true
    → Standing t
standing_by t nothing buffer has at closed serving =
    goes_on (record t { serving = false }) (accept_closed t serving closed has)
standing_by t (accepted socket) [] has at closed serving = waits_for_id socket has at
standing_by t (accepted socket) (id ∷ rest) has at closed serving =
    goes_on _ (take_id t socket id rest serving has at)
standing_by t (numbered socket id) buffer has at closed serving = elim (Bool-cases t.locked) [
  | inl locked ↦ waits_for_lock socket id has locked
  | inr free ↦ goes_on _ (add t socket id (record { stream = []; fault = eof }) serving has free)
]

-- Once the listener is closed Serve takes three steps at most, however the ids' goroutine, the
-- connections, the broadcasts and Shutdown interleave with it. Until it has returned it can take one,
-- or it waits for one of two things: with an accepted connection, for an id, where the channel of ids
-- is empty, or with one that has its id, for the mutex that a broadcast holds.
pub serve_ends :
    (s t : Life) (path : Reach s t) → s.listening ≡ false → (serve_steps path ≤ 3) × Standing t
serve_ends s t path closed =
    let (closed', count) = left-Reach path closed in
    let most = left-bounded s in
    (
      omega (arith, count, most),
      elim (Bool-cases t.serving) [
        | inl serving ↦ standing_by t t.in_hand t.ids.buffer refl refl closed' serving
        | inr over ↦ returned over
      ],
    )
