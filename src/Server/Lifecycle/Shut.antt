-- ===== src/Server/Lifecycle/Shut.antt =====
-- What Shutdown of pkg/network/server/server.go leaves.
use crypt_fs.Prelude.{
  ℕ, ◌+◌, ◌≤◌, ◌≡◌, ◌≢◌, refl, sym, ap, ◌∙◌, Bool, true, false, not, ◌&&◌, List, [], ◌∷◌, ◌++◌,
  arith, ◌==◌,
}
use crypt_fs.Server.{ServerConn, remove_conn}
use crypt_fs.Server.Locked.{wrap_conn}
use crypt_fs.Server.Lifecycle.{
  closing, stopping, shut, is_running, take_id, generate, start_broadcast, end_broadcast, stop_ids,
  Life, close_all, count_open, held, Who, Step, accept, accept_fails, accept_closed, add, detach,
  stop_listening, close_conns, listening_server, Reach, here, next,
}

close_all-keeps :
    (conns : List (ServerConn ℕ)) (is_open : ℕ → Bool) (d : ℕ)
    → is_open d ≡ false
    → close_all conns is_open d ≡ false
unfolding close_all
close_all-keeps [] is_open d h = h
close_all-keeps (c ∷ conns) is_open d h =
    close_all-keeps conns (λ d. not (c.out == d) && is_open d) d (ground arith)

count_open-close_all :
    (conns : List (ServerConn ℕ)) (is_open : ℕ → Bool)
    → count_open (close_all conns is_open) conns ≡ 0
unfolding close_all count_open
count_open-close_all [] is_open = refl
count_open-close_all (c ∷ conns) is_open =
    let closed = close_all-keeps conns (λ d. not (c.out == d) && is_open d) c.out (ground arith) in
    let rest = count_open-close_all conns (λ d. not (c.out == d) && is_open d) in rw (closed, rest)

count_open-remove_conn :
    (is_open : ℕ → Bool) (id : ℕ) (conns : List (ServerConn ℕ))
    → count_open is_open (remove_conn id conns) ≤ count_open is_open conns
unfolding count_open remove_conn
count_open-remove_conn is_open id [] = omega arith
count_open-remove_conn is_open id (c ∷ conns) =
    let rest = count_open-remove_conn is_open id conns in ground (arith, rest)

count_open-snoc :
    (is_open : ℕ → Bool) (conns : List (ServerConn ℕ)) (c : ServerConn ℕ)
    → count_open is_open (conns ++ c ∷ []) ≤ count_open is_open conns + 1
unfolding count_open
count_open-snoc is_open [] c = ground arith
count_open-snoc is_open (b ∷ conns) c =
    let rest = count_open-snoc is_open conns c in omega (arith, rest)

-- Once Shutdown has begun the listener is closed, and once it has ended one connection at most is open,
-- which Serve still had in hand.
pub record IsOrderly (s : Life) : Type 0 where
  pub closed : is_running s.phase ≡ false → s.listening ≡ false
  pub few : s.phase ≡ shut → count_open s.is_open s.conns + held s.in_hand ≤ 1

Step-IsOrderly : {who : Who} {s t : Life} → Step who s t → IsOrderly s → IsOrderly t
Step-IsOrderly (accept s socket serving listening free) h = record {
  closed = h.closed;
  few = λ is_shut.
      let gone = h.closed (ap is_running is_shut) in absurd (true-false (sym listening ∙ gone));
}
  where
    true-false : true ≢ false
    true-false e = cc
Step-IsOrderly (accept_fails s serving listening free) h = h
Step-IsOrderly (accept_closed s serving listening free) h = record {
  closed = h.closed;
  few = h.few;
}
Step-IsOrderly (take_id s socket id rest serving hand at) h = record {
  closed = h.closed;
  few = λ is_shut.
      let low = h.few is_shut in
      let one : held s.in_hand ≡ 1 = ap held hand in omega (arith, low, one);
}
Step-IsOrderly (generate s ids step taken stopped) h = record { closed = h.closed; few = h.few }
Step-IsOrderly (start_broadcast s free) h = record { closed = h.closed; few = h.few }
Step-IsOrderly (end_broadcast s locked) h = record { closed = h.closed; few = h.few }
Step-IsOrderly (add s socket id input serving hand free) h = record {
  closed = h.closed;
  few = λ is_shut.
      let low = h.few is_shut in
      let one : held s.in_hand ≡ 1 = ap held hand in
      let more = count_open-snoc s.is_open s.conns (wrap_conn id input socket) in
      omega (arith, low, one, more);
}
Step-IsOrderly (detach s before after sc e free) h = record {
  closed = h.closed;
  few = λ is_shut.
      let low = h.few is_shut in
      let less = count_open-remove_conn s.is_open sc.id s.conns in omega (arith, low, less);
}
Step-IsOrderly (stop_listening s is_running') h = record {
  closed = λ e. refl;
  few = λ e. absurd (closing-shut e);
}
  where
    closing-shut : closing ≢ shut
    closing-shut e = cc
Step-IsOrderly (stop_ids s is_closing) h = record {
  closed = λ e. h.closed (ap is_running is_closing);
  few = λ e. absurd (stopping-shut e);
}
  where
    stopping-shut : stopping ≢ shut
    stopping-shut e = cc
Step-IsOrderly (close_conns s is_stopping free) h = record {
  closed = λ e. h.closed (ap is_running is_stopping);
  few = λ e. let none_open = count_open-close_all s.conns s.is_open in ground (arith, none_open);
}

-- However Serve, the connections and Shutdown interleave, after Shutdown has returned the listener is
-- closed, and of the connections that the server knows and the one that Serve has in hand, one at
-- most is open. (Serve may have accepted that one just before.)
pub Reach-shut :
    (s : Life)
    → Reach listening_server s
    → s.phase ≡ shut
    → (s.listening ≡ false) × (count_open s.is_open s.conns + held s.in_hand ≤ 1)
Reach-shut s path is_shut =
    let h = orderly path in (h.closed (ap is_running is_shut), h.few is_shut)
  where
    orderly : {t : Life} → Reach listening_server t → IsOrderly t
    orderly here = record { closed = λ e. cc; few = λ e. cc }
    orderly (next who path step) = Step-IsOrderly step (orderly path)
