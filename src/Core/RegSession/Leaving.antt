-- ===== src/Core/RegSession/Leaving.antt =====
-- src/anj/core/reg_session.c: how a client whose transition is forced de-registers and leaves.
use anjay_lite.Base.{
  arith, ◌≡◌, refl, ◌⊎◌, inl, inr, ℕ, ◌<◌, ◌≤◌, Bool, true, false, not, ◌&&◌, List, [], ◌∷◌,
  if◌then◌else◌, length,
}
use anjay_lite.Core.{
  Client, ConnStatus, initial, SessionState, idle, queue, exchange, disconnect, entering_queue,
  exiting_queue, state_transition_forced, client_registered,
}
use anjay_lite.Core.Callbacks.{run_callbacks-Kept, run_callbacks-forced, run_callbacks-restart}
use anjay_lite.Core.Calls.{Calls, is_in_progress, is_pending, Step}
use anjay_lite.Core.Register.{register_deregister}
use anjay_lite.Core.RegSession.{try_send_deregister, refresh_queue_mode_timeout}
use anjay_lite.Core.RegSession.Process.{
  process_registered, process_idle, send_requests, process_exchange, process_exiting,
  process_entering, process_disconnect, begin_exchange, get_new_state_for_new_exchange,
}

-- The network does not leave a call pending.
abbrev pub answered : Calls → Bool
answered e =
    not (is_pending e.handle_result)
    && not (is_in_progress e.close_result)
    && not (is_in_progress e.rx_off_result)

abbrev pub all_answered : List Calls → Bool
all_answered [] = true
all_answered (e ∷ es) = answered e && all_answered es

-- Successive rounds of the session, until the client is no longer registered.
unfoldable pub session_rounds : List Calls → Client → Client
unfolding process_registered
session_rounds [] c = c
session_rounds (e ∷ es) c =
    let rest = session_rounds es (process_registered e c).client in
    if client_registered c then rest else c

-- The rounds that a forced transition still needs
abbrev pub rank : SessionState → (transition_forced : Bool) → ℕ
rank disconnect b = 1
rank exchange true = 2
rank idle b = 3
rank exchange false = 4
rank exiting_queue b = 4
rank queue b = 5
rank entering_queue b = 6

abbrev pub client_rank : Client → ℕ
client_rank c = rank c.session.internal_state c.session.transition_forced

-- What one round does
record Closer (c c' : Client) : Type 0 where
  forced : state_transition_forced c' ≡ true
  closer : client_rank c' < client_rank c
  restarting : c.server_state.restart_triggered ≡ true → c'.server_state.restart_triggered ≡ true
  staying : client_registered c ≡ true → client_registered c' ≡ true

process_idle-Closer :
    (e : Calls) (c : Client)
    → state_transition_forced c ≡ true
    → c.session.internal_state ≡ idle
    → Closer c (process_idle e c).client
unfolding process_idle try_send_deregister begin_exchange get_new_state_for_new_exchange
    register_deregister state_transition_forced
process_idle-Closer e c f s =
    let c1 = record c { register_ctx = (register_deregister c.register_ctx).0 } in
    let kept = run_callbacks-Kept e e.callbacks c1 in
    record {
      forced = ground (arith, run_callbacks-forced e e.callbacks c1);
      closer = ground (arith, kept.session_kept);
      restarting = λ h. ground (arith, run_callbacks-restart e e.callbacks c1);
      staying = λ h. ground (arith, kept.status_kept);
    }

process_queue-Closer :
    (e : Calls) (c : Client)
    → state_transition_forced c ≡ true
    → c.session.internal_state ≡ queue
    → Closer c (send_requests e c).client
unfolding send_requests state_transition_forced
process_queue-Closer e c f s = record {
  forced = ground arith;
  closer = ground arith;
  restarting = λ h. ground arith;
  staying = λ h. ground arith;
}

process_exiting-Closer :
    (c : Client)
    → state_transition_forced c ≡ true
    → c.session.internal_state ≡ exiting_queue
    → Closer c (process_exiting c).client
unfolding process_exiting state_transition_forced
process_exiting-Closer c f s = record {
  forced = ground arith;
  closer = ground arith;
  restarting = λ h. ground arith;
  staying = λ h. ground arith;
}

process_entering-Closer :
    (e : Calls) (c : Client)
    → answered e ≡ true
    → state_transition_forced c ≡ true
    → c.session.internal_state ≡ entering_queue
    → Closer c (process_entering e c).client
unfolding process_entering state_transition_forced
process_entering-Closer e c a f s = record {
  forced = ground arith;
  closer = ground arith;
  restarting = λ h. ground arith;
  staying = λ h. ground arith;
}

process_exchange-Closer :
    (e : Calls) (c : Client)
    → answered e ≡ true
    → state_transition_forced c ≡ true
    → c.session.internal_state ≡ exchange
    → Closer c (process_exchange e c).client
unfolding process_exchange refresh_queue_mode_timeout state_transition_forced
process_exchange-Closer e c a f s =
    let kept = run_callbacks-Kept e e.callbacks c in
    record {
      forced = ground (arith, run_callbacks-forced e e.callbacks c);
      closer = ground (arith, kept.session_kept);
      restarting = λ h. ground (arith, run_callbacks-restart e e.callbacks c);
      staying = λ h. ground (arith, kept.status_kept);
    }

-- The last round: the status is no longer that of a registered client, and `initial` after a restart.
process_disconnect-leaves :
    (e : Calls) (c : Client)
    → answered e ≡ true
    → state_transition_forced c ≡ true
    → client_registered (process_disconnect e c).client ≡ false
unfolding process_disconnect state_transition_forced
process_disconnect-leaves e c a f = ground (arith, run_callbacks-forced e e.callbacks c)

process_disconnect-restart :
    (e : Calls) (c : Client)
    → answered e ≡ true
    → c.server_state.restart_triggered ≡ true
    → (process_disconnect e c).client.server_state.conn_status ≡ initial
unfolding process_disconnect state_transition_forced
process_disconnect-restart e c a f = ground (arith, run_callbacks-restart e e.callbacks c)

abbrev pub is_initial : ConnStatus → Bool
is_initial initial = true
is_initial _ = false

-- The client left the registered statuses, and starts afresh where it had to restart.
abbrev pub left : (restart_triggered : Bool) → Client → Bool
left true c = is_initial c.server_state.conn_status
left false c = not (client_registered c)

Closer-subst : (c : Client) (r s : Step) → r ≡ s → Closer c s.client → Closer c r.client
Closer-subst c r s e p = record {
  forced = cc (e, p.forced);
  closer = ground (arith, e, p.closer);
  restarting = λ h. cc (e, p.restarting h);
  staying = λ h. cc (e, p.staying h);
}

process_registered-Closer :
    (e : Calls) (c : Client)
    → answered e ≡ true
    → state_transition_forced c ≡ true
    → (s : SessionState) → c.session.internal_state ≡ s
    → (s ≡ disconnect) ⊎ Closer c (process_registered e c).client
unfolding process_registered
process_registered-Closer e c a f idle h = inr (
    Closer-subst c (process_registered e c) (process_idle e c) (cc h) (process_idle-Closer e c f h))
process_registered-Closer e c a f queue h = inr (
    Closer-subst c (process_registered e c) (send_requests e c) (cc h)
      (process_queue-Closer e c f h))
process_registered-Closer e c a f exchange h = inr (
    Closer-subst c (process_registered e c) (process_exchange e c) (cc h)
      (process_exchange-Closer e c a f h))
process_registered-Closer e c a f disconnect h = inl refl
process_registered-Closer e c a f entering_queue h = inr (
    Closer-subst c (process_registered e c) (process_entering e c) (cc h)
      (process_entering-Closer e c a f h))
process_registered-Closer e c a f exiting_queue h = inr (
    Closer-subst c (process_registered e c) (process_exiting c) (cc h)
      (process_exiting-Closer c f h))

session_rounds_left :
    (es : List Calls) (c : Client) → client_registered c ≡ false → session_rounds es c ≡ c
unfolding session_rounds
session_rounds_left [] c h = refl
session_rounds_left (e ∷ es) c h = ground arith

session_rounds-last :
    (e : Calls) (es : List Calls) (c : Client) (restart_triggered : Bool)
    → answered e ≡ true
    → c.session.internal_state ≡ disconnect
    → state_transition_forced c ≡ true
    → (restart_triggered ≡ true → c.server_state.restart_triggered ≡ true)
    → client_registered c ≡ true
    → left restart_triggered (session_rounds (e ∷ es) c) ≡ true
unfolding session_rounds process_registered
session_rounds-last e es c false a d f r k = ground (
  arith,
  session_rounds_left es (process_disconnect e c).client,
  process_disconnect-leaves e c a f,
)
session_rounds-last e es c true a d f r k = ground (
  arith,
  session_rounds_left es (process_disconnect e c).client,
  process_disconnect-leaves e c a f,
  process_disconnect-restart e c a (r refl),
)

session_rounds-rank :
    (es : List Calls) (c : Client) (restart_triggered : Bool)
    → all_answered es ≡ true
    → client_rank c ≤ length es
    → state_transition_forced c ≡ true
    → (restart_triggered ≡ true → c.server_state.restart_triggered ≡ true)
    → client_registered c ≡ true
    → left restart_triggered (session_rounds es c) ≡ true
unfolding session_rounds
session_rounds-rank [] c b a n f r k = ground arith
session_rounds-rank (e ∷ es) c b a n f r k =
    let next = (process_registered e c).client in
    elim (process_registered-Closer e c (ground arith) f c.session.internal_state refl) [
      | inl d ↦ session_rounds-last e es c b (ground arith) d f r k
      | inr p ↦ ground (
        arith,
        session_rounds-rank es next b (ground arith) (ground (arith, p.closer)) p.forced
            (λ h. p.restarting (r h)) (p.staying k),
      )
    ]

-- With a forced transition and a network that answers, a registered client leaves the registered
-- statuses within six rounds, whatever state it is in and whatever else the server and the user do
-- meanwhile; where a restart is triggered, it leaves to the initial status.
pub session_rounds-leaves :
    (es : List Calls) (c : Client)
    → all_answered es ≡ true
    → 6 ≤ length es
    → state_transition_forced c ≡ true
    → client_registered c ≡ true
    → left c.server_state.restart_triggered (session_rounds es c) ≡ true
session_rounds-leaves es c a n f k =
    session_rounds-rank es c c.server_state.restart_triggered a (ground arith) f (λ h. h) k
