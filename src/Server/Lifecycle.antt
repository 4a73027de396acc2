-- ===== src/Server/Lifecycle.antt =====
-- Serve, Shutdown and the connections' sockets (pkg/network/server), as steps that interleave.
-- A connection's writing side is here its socket, a number; a round of handleInput that goes on
-- changes nothing here, and what a broadcast writes is left out, but for the mutex that it holds
-- meanwhile. Shutdown is called once: a second call closes a closed channel, which panics.
pub mod Shut
pub mod Ends
pub mod Hangs
use crypt_fs.Prelude.{
  ℕ, zero, suc, ◌+◌, ◌≤◌, ◌≡◌, ◌≢◌, refl, sym, ap, ◌∙◌, Option, none, some, Bool, true, false, not,
  ◌&&◌, ◌||◌, List, [], ◌∷◌, ◌++◌, Bytes, arith, ◌==◌, Bool-cases, Option-cases, inl, inr,
  if◌then◌else◌,
}
use crypt_fs.Message.Encoding.{Reader}
use crypt_fs.Message.Tag
use crypt_fs.Message.Tag.{MonotoneTags, new_monotone_tags}
use crypt_fs.Server.{ServerConn, remove_conn}
use crypt_fs.Server.Locked.{wrap_conn}

-- How far Shutdown is: it closes the listener, stops the ids, and closes the connections.
pub data Phase : Type 0 where
  running closing stopping shut : Phase

abbrev pub is_running : Phase → Bool
is_running running = true
is_running _ = false

-- What Serve has in hand: nothing, a socket that it has accepted, which waits in wrapConn for an id,
-- or a connection that has its id and is not added yet.
pub data Hand : Type 0 where
  nothing : Hand
  accepted : (socket : ℕ) → Hand
  numbered : (socket id : ℕ) → Hand

-- `serving` tells that Serve has not returned, and `locked` that a broadcast holds the mutex. `ids` is
-- connIDs.
pub record Life : Type 0 where
  pub listening : Bool
  pub serving : Bool
  pub phase : Phase
  pub in_hand : Hand
  pub ids : MonotoneTags
  pub locked : Bool
  pub conns : List (ServerConn ℕ)
  pub is_open : ℕ → Bool

-- conn.close() of each connection.
unfoldable pub close_all : List (ServerConn ℕ) → (ℕ → Bool) → ℕ → Bool
close_all [] is_open = is_open
close_all (c ∷ conns) is_open = close_all conns (λ d. not (c.out == d) && is_open d)

abbrev pub to_nat : Bool → ℕ
to_nat true = 1
to_nat false = 0

-- How many of the connections are open.
unfoldable pub count_open : (ℕ → Bool) → List (ServerConn ℕ) → ℕ
count_open is_open [] = 0
count_open is_open (c ∷ conns) = to_nat (is_open c.out) + count_open is_open conns

abbrev pub held : Hand → ℕ
held nothing = 0
held (accepted socket) = 1
held (numbered socket id) = 1

-- Whose step it is: Serve's, that of the ids' goroutine, of a connection's goroutine or a broadcast,
-- or Shutdown's.
pub data Who : Type 0 where
  serve generator conn shutdown : Who

pub data Step : Who → Life → Life → Type 0 where
  accept :
      (s : Life) (socket : ℕ)
      → s.serving ≡ true
      → s.listening ≡ true
      → s.in_hand ≡ nothing
      → Step serve s
          (record s { in_hand = accepted socket; is_open = λ d. socket == d || s.is_open d })
  accept_fails :
      (s : Life) → s.serving ≡ true → s.listening ≡ true → s.in_hand ≡ nothing → Step serve s s
  accept_closed :
      (s : Life)
      → s.serving ≡ true
      → s.listening ≡ false
      → s.in_hand ≡ nothing
      → Step serve s (record s { serving = false })
  -- connIDs.Next() of wrapConn, which waits while there is none
  take_id :
      (s : Life) (socket id : ℕ) (rest : List ℕ)
      → s.serving ≡ true
      → s.in_hand ≡ accepted socket
      → s.ids.buffer ≡ id ∷ rest
      → Step serve s (record s {
        in_hand = numbered socket id;
        ids = record s.ids { buffer = rest; taken = s.ids.taken ++ id ∷ [] };
      })
  add :
      (s : Life) (socket id : ℕ) (input : Reader)
      → s.serving ≡ true
      → s.in_hand ≡ numbered socket id
      → s.locked ≡ false
      → Step serve s
          (record s { in_hand = nothing; conns = s.conns ++ wrap_conn id input socket ∷ [] })
  -- the goroutine of the ids: it neither takes one nor stops itself
  generate :
      (s : Life) (ids : MonotoneTags)
      → Tag.Step s.ids ids
      → ids.taken ≡ s.ids.taken
      → ids.stopping ≡ s.ids.stopping
      → Step generator s (record s { ids = ids })
  start_broadcast : (s : Life) → s.locked ≡ false → Step conn s (record s { locked = true })
  -- a write that waits keeps the broadcast from this step
  end_broadcast : (s : Life) → s.locked ≡ true → Step conn s (record s { locked = false })
  detach :
      (s : Life) (before after : List (ServerConn ℕ)) (sc : ServerConn ℕ)
      → s.conns ≡ before ++ sc ∷ after
      → s.locked ≡ false
      → Step conn s (record s { conns = remove_conn sc.id s.conns })
  stop_listening :
      (s : Life)
      → s.phase ≡ running
      → Step shutdown s (record s { listening = false; phase = closing })
  stop_ids :
      (s : Life)
      → s.phase ≡ closing
      → Step shutdown s (record s { phase = stopping; ids = record s.ids { stopping = true } })
  close_conns :
      (s : Life)
      → s.phase ≡ stopping
      → s.locked ≡ false
      → Step shutdown s (record s { phase = shut; is_open = close_all s.conns s.is_open })

-- A server that listens, before Serve.
abbrev pub listening_server : Life
listening_server = record {
  listening = true;
  serving = true;
  phase = running;
  in_hand = nothing;
  ids = new_monotone_tags;
  locked = false;
  conns = [];
  is_open = λ d. false;
}

pub data Reach (s : Life) : Life → Type 0 where
  here : Reach s s
  next : {t u : Life} (who : Who) → Reach s t → Step who t u → Reach s u

abbrev pub is_serve : Who → ℕ
is_serve serve = 1
is_serve _ = 0

-- How many steps of a run are Serve's.
unfoldable pub serve_steps : {s t : Life} → Reach s t → ℕ
serve_steps here = 0
serve_steps (next who path step) = is_serve who + serve_steps path
