-- ===== src/Tests/Lifecycle.antt =====
-- Runs of Serve and Shutdown (pkg/network/server/server.go).
use crypt_fs.Prelude.{ℕ, ◌+◌, ◌≤◌, ◌≡◌, ◌==◌, ◌||◌, refl, arith, true, false, List, [], ◌∷◌}
use crypt_fs.Message.Encoding.{Reader, eof}
use crypt_fs.Generator.{send, end}
use crypt_fs.Message.Tag.{MonotoneTags, next_tag}
use crypt_fs.Server.Locked.{wrap_conn}
use crypt_fs.Server.Lifecycle.{
  Life, nothing, accepted, numbered, shut, closing, stopping, count_open, held, close_all, accept,
  take_id, add, generate, stop_listening, stop_ids, close_conns, listening_server, Reach, here,
  next, serve, generator, shutdown, serve_steps,
}
use crypt_fs.Server.Lifecycle.Shut.{Reach-shut}
use crypt_fs.Server.Lifecycle.Ends.{Standing, serve_ends}
use crypt_fs.Server.Lifecycle.Hangs.{Hanging, serve_hangs}

abbrev silent : Reader
silent = record { stream = []; fault = eof }

-- The first tags.
abbrev ids_left : List ℕ → List ℕ → MonotoneTags
ids_left buffer taken = record {
  buffer = buffer;
  upcoming = next_tag (next_tag 1);
  taken = taken;
  stopping = false;
  ended = false;
}

abbrev first_id : MonotoneTags
first_id = record {
  buffer = 1 ∷ [];
  upcoming = next_tag 1;
  taken = [];
  stopping = false;
  ended = false;
}

abbrev with_ids : Life
with_ids = record listening_server { ids = ids_left (1 ∷ 2 ∷ []) [] }

with_ids-Reach : Reach listening_server with_ids
unfolding next_tag
with_ids-Reach =
    next generator
      (next generator here (
        generate listening_server first_id (send listening_server.ids refl (omega arith)) refl
          refl))
      (generate (record listening_server { ids = first_id }) (ids_left (1 ∷ 2 ∷ []) [])
        (send first_id refl (omega arith)) refl refl)

-- A connection was accepted and added, and another one accepted.
abbrev one_accepted : Life
one_accepted = record with_ids { in_hand = accepted 7; is_open = λ d. 7 == d || false }

abbrev one_numbered : Life
one_numbered = record one_accepted { in_hand = numbered 7 1; ids = ids_left (2 ∷ []) (1 ∷ []) }

abbrev one_added : Life
one_added = record one_numbered { in_hand = nothing; conns = wrap_conn 1 silent 7 ∷ [] }

abbrev one_more : Life
one_more = record one_added { in_hand = accepted 8; is_open = λ d. 8 == d || (7 == d || false) }

one_more-Reach : Reach listening_server one_more
one_more-Reach =
    next serve
      (next serve
        (next serve (next serve with_ids-Reach (accept with_ids 7 refl refl refl))
          (take_id one_accepted 7 1 (2 ∷ []) refl refl refl))
        (add one_numbered 7 1 silent refl refl refl))
      (accept one_added 8 refl refl refl)

-- Shutdown has closed the first one.
abbrev deaf : Life
deaf = record one_more { listening = false; phase = closing }

abbrev without_ids : Life
without_ids = record deaf {
  phase = stopping;
  ids = record (ids_left (2 ∷ []) (1 ∷ [])) { stopping = true };
}

abbrev late : Life
late = record without_ids { phase = shut; is_open = close_all one_more.conns one_more.is_open }

late-Reach : Reach listening_server late
late-Reach =
    next shutdown
      (next shutdown (next shutdown one_more-Reach (stop_listening one_more refl))
        (stop_ids deaf refl))
      (close_conns without_ids refl refl)

-- The other one is added after that, and stays open.
abbrev late_numbered : Life
late_numbered = record late {
  in_hand = numbered 8 2;
  ids = record (ids_left [] (1 ∷ 2 ∷ [])) { stopping = true };
}

abbrev after_all : Life
after_all = record late_numbered {
  in_hand = nothing;
  conns = wrap_conn 1 silent 7 ∷ wrap_conn 2 silent 8 ∷ [];
}

after_all-Reach : Reach listening_server after_all
after_all-Reach =
    next serve (next serve late-Reach (take_id late 8 2 [] refl refl refl))
      (add late_numbered 8 2 silent refl refl refl)

Reach-shut_example :
    (after_all.listening ≡ false)
    × (count_open after_all.is_open after_all.conns + held after_all.in_hand ≤ 1)
Reach-shut_example = Reach-shut after_all after_all-Reach refl

-- The connection that was accepted late is open.
one_left_open : count_open after_all.is_open after_all.conns ≡ 1
unfolding count_open close_all wrap_conn
one_left_open = refl

abbrev late_run : Reach late after_all
late_run =
    next serve (next serve here (take_id late 8 2 [] refl refl refl))
      (add late_numbered 8 2 silent refl refl refl)

serve_ends_example : (serve_steps late_run ≤ 3) × Standing after_all
serve_ends_example = serve_ends late after_all late_run refl

-- A connection is accepted before there is an id, and Shutdown stops the ids.
abbrev early : Life
early = record listening_server { in_hand = accepted 7; is_open = λ d. 7 == d || false }

abbrev early_deaf : Life
early_deaf = record early { listening = false; phase = closing }

abbrev early_stopped : Life
early_stopped = record early_deaf {
  phase = stopping;
  ids = record early_deaf.ids { stopping = true };
}

abbrev hung : Life
hung = record early_stopped { ids = record early_stopped.ids { ended = true } }

hung-Reach : Reach listening_server hung
hung-Reach =
    next generator
      (next shutdown
        (next shutdown (next serve here (accept listening_server 7 refl refl refl))
          (stop_listening early refl))
        (stop_ids early_deaf refl))
      (generate early_stopped hung.ids (end early_stopped.ids refl) refl refl)

abbrev hung_shut : Life
hung_shut = record hung { phase = shut; is_open = close_all [] hung.is_open }

abbrev hung_run : Reach hung hung_shut
hung_run = next shutdown here (close_conns hung refl refl)

serve_hangs_example : Hanging hung_shut 7 × (serve_steps hung_run ≡ 0)
serve_hangs_example =
    serve_hangs hung hung_shut hung_run 7
      (record { serving = refl; hand = refl; no_ids = refl; ended = refl })
