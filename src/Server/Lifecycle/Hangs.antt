-- ===== src/Server/Lifecycle/Hangs.antt =====
-- That Serve of pkg/network/server/server.go can wait for an id for ever.
use crypt_fs.Prelude.{ℕ, ◌≡◌, refl, sym, ◌∙◌, true, [], arith}
use crypt_fs.Generator.{send, call_next, call_stop, end}
use crypt_fs.Message.Tag
use crypt_fs.Message.Tag.{MonotoneTags}
use crypt_fs.Server.Lifecycle.{
  nothing, accepted, numbered, Life, Who, Step, accept, accept_fails, accept_closed, take_id, add,
  generate, start_broadcast, end_broadcast, detach, stop_listening, stop_ids, close_conns, Reach,
  here, next, is_serve, serve_steps,
}

-- Serve waits for an id, and the goroutine that makes them has ended.
pub record Hanging (s : Life) (socket : ℕ) : Type 0 where
  pub serving : s.serving ≡ true
  pub hand : s.in_hand ≡ accepted socket
  pub no_ids : s.ids.buffer ≡ []
  pub ended : s.ids.ended ≡ true

generate-ended :
    {g h : MonotoneTags}
    → Tag.Step g h
    → g.buffer ≡ []
    → g.ended ≡ true
    → (h.buffer ≡ []) × (h.ended ≡ true)
generate-ended (send g running room) no_ids ended = cc
generate-ended (call_next g x rest at) no_ids ended = cc
generate-ended (call_stop g not_yet) no_ids ended = (no_ids, ended)
generate-ended (end g stopping) no_ids ended = (no_ids, refl)

other_hand : {socket other id : ℕ} → numbered other id ≡ accepted socket → ⊥
other_hand e = cc

no_hand : {socket : ℕ} → nothing ≡ accepted socket → ⊥
no_hand e = cc

Step-Hanging :
    {who : Who} {s t : Life} (socket : ℕ)
    → Step who s t
    → Hanging s socket
    → Hanging t socket × (is_serve who ≡ 0)
Step-Hanging socket (accept s other serving listening free) h = absurd (no_hand (sym free ∙ h.hand))
Step-Hanging socket (accept_fails s serving listening free) h = absurd (no_hand (sym free ∙ h.hand))
Step-Hanging socket (accept_closed s serving closed free) h = absurd (no_hand (sym free ∙ h.hand))
Step-Hanging socket (take_id s other id rest serving hand at) h =
    let none_left = sym at ∙ h.no_ids in cc
Step-Hanging socket (add s other id input serving hand free) h =
    absurd (other_hand (sym hand ∙ h.hand))
Step-Hanging socket (generate s ids step taken stopped) h =
    let (no_ids, ended) = generate-ended step h.no_ids h.ended in
    (record { serving = h.serving; hand = h.hand; no_ids = no_ids; ended = ended }, refl)
Step-Hanging socket (start_broadcast s free) h =
    (record { serving = h.serving; hand = h.hand; no_ids = h.no_ids; ended = h.ended }, refl)
Step-Hanging socket (end_broadcast s locked) h =
    (record { serving = h.serving; hand = h.hand; no_ids = h.no_ids; ended = h.ended }, refl)
Step-Hanging socket (detach s before after sc e free) h =
    (record { serving = h.serving; hand = h.hand; no_ids = h.no_ids; ended = h.ended }, refl)
Step-Hanging socket (stop_listening s is_running) h =
    (record { serving = h.serving; hand = h.hand; no_ids = h.no_ids; ended = h.ended }, refl)
Step-Hanging socket (stop_ids s is_closing) h =
    (record { serving = h.serving; hand = h.hand; no_ids = h.no_ids; ended = h.ended }, refl)
Step-Hanging socket (close_conns s is_stopping free) h =
    (record { serving = h.serving; hand = h.hand; no_ids = h.no_ids; ended = h.ended }, refl)

-- Where Serve waits for an id, none is buffered, and the goroutine that makes them has ended, which
-- Shutdown brings about, Serve takes no step any more and never returns, and the connection that it
-- has accepted stays in hand, whatever else happens.
pub serve_hangs :
    (s t : Life) (path : Reach s t) (socket : ℕ)
    → Hanging s socket
    → Hanging t socket × (serve_steps path ≡ 0)
unfolding serve_steps
serve_hangs s _ here socket h = (h, refl)
serve_hangs s t (next {t = u} who path step) socket h =
    let (before, none_yet) = serve_hangs s u path socket h in
    let (after, not_now) = Step-Hanging socket step before in
    (after, omega (arith, none_yet, not_now))
