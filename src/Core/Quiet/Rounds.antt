-- ===== src/Core/Quiet/Rounds.antt =====
-- src/anj/core/core.c: one step of a client whose network has nothing new.
use anjay_lite.Base.{arith, ◌≡◌, refl, ◌<◌, true, false, not, ◌&&◌, ◌⊎◌, inl, inr, Bool-cases}
use anjay_lite.Core.{
  Client, ConnStatus, initial, invalid_status, failure, bootstrapping, bootstrapped, registering,
  suspended, status_registered, SessionState, idle, queue, exchange, disconnect, entering_queue,
  exiting_queue, state_transition_forced, leave,
}
use anjay_lite.Core.Bootstrapping.{process_bootstrap_operation, bootstrap_is_needed}
use anjay_lite.Core.Calls.{Calls, Step}
use anjay_lite.Core.Registering.{process_register_operation}
use anjay_lite.Core.RegSession.{set_forced, handle_send, handle_observe}
use anjay_lite.Core.RegSession.Frame.{handle_registration_update-Same, try_send_deregister-Same}
use anjay_lite.Core.RegSession.Moves.{process_idle_moves, send_requests_moves}
use anjay_lite.Core.RegSession.Process.{
  process_registered, process_idle, send_requests, process_exchange, process_entering,
  process_exiting, process_disconnect, process_suspended, begin_exchange, or_else, check_queue_mode,
  get_new_state_for_new_exchange,
}
use anjay_lite.Core.Run.{choose_step, force_transition, core_step_internal, process_initial}
use anjay_lite.Core.Quiet.{
  quiet, session_rank, rank, next_rank, Ends, registering-Ends, bootstrapping-Ends,
}

-- A registered client stays so, or enters the queue mode.
requests_end :
    (e : Calls) (c : Client)
    → quiet e ≡ true
    → (c.session.internal_state ≡ idle) ⊎ (c.session.internal_state ≡ queue)
    → ((send_requests e c).action ≡ leave)
      ⊎ (session_rank (send_requests e c).client.session.internal_state
          < session_rank c.session.internal_state)
unfolding send_requests or_else begin_exchange check_queue_mode handle_send handle_observe
    get_new_state_for_new_exchange
requests_end e c q s = ground (arith, (handle_registration_update-Same e c).internal_same)

session_ends :
    (e : Calls) (c : Client) (s : SessionState)
    → quiet e ≡ true
    → c.session.internal_state ≡ s
    → ((process_registered e c).action ≡ leave)
      ⊎ (session_rank (process_registered e c).client.session.internal_state
          < session_rank c.session.internal_state)
unfolding process_registered process_idle process_exchange process_entering process_exiting
    process_disconnect begin_exchange get_new_state_for_new_exchange state_transition_forced
session_ends e c idle q h = ground (
  arith,
  h,
  requests_end e (set_forced false c) q (inl h),
  (try_send_deregister-Same e c).internal_same,
)
session_ends e c queue q h = ground (arith, h, requests_end e c q (inr h))
session_ends e c exchange q h = inl (ground (arith, h))
session_ends e c disconnect q h = inl (ground (arith, h))
session_ends e c entering_queue q h = inl (ground (arith, h))
session_ends e c exiting_queue q h = inr (ground (arith, h))

session_stays :
    (e : Calls) (c : Client) (s : SessionState)
    → quiet e ≡ true
    → c.session.internal_state ≡ s
    → status_registered c.server_state.conn_status ≡ true
    → ((process_registered e c).action ≡ leave)
      ⊎ (status_registered (process_registered e c).client.server_state.conn_status ≡ true)
unfolding process_registered process_exchange process_entering process_exiting process_disconnect
session_stays e c idle q h k = inr (ground (arith, h, k, process_idle_moves e c h))
session_stays e c queue q h k =
    inr (ground (arith, h, k, send_requests_moves e c (ground (arith, h))))
session_stays e c exchange q h k = inl (ground (arith, h))
session_stays e c disconnect q h k = inl (ground (arith, h))
session_stays e c entering_queue q h k = inl (ground (arith, h))
session_stays e c exiting_queue q h k = inr (ground (arith, h))

registered_rank :
    (c : Client)
    → status_registered c.server_state.conn_status ≡ true
    → rank c ≡ session_rank c.session.internal_state
registered_rank c h = ground arith

registered_next :
    (last : ConnStatus) (c : Client)
    → status_registered last ≡ true
    → status_registered c.server_state.conn_status ≡ true
    → next_rank last c ≡ session_rank c.session.internal_state
registered_next last c h k = ground arith

registered-Ends :
    (e : Calls) (c : Client)
    → quiet e ≡ true
    → status_registered c.server_state.conn_status ≡ true
    → Ends c (process_registered e c)
registered-Ends e c q k =
    let c' = (process_registered e c).client in
    let s = c.session.internal_state in
    elim (session_stays e c s q refl k) [
      | inl h ↦ inl h
      | inr u ↦ elim (session_ends e c s q refl) [
        | inl h ↦ inl h
        | inr m ↦
            inr (rw (registered_next c.server_state.conn_status c' k u, registered_rank c k) m)
      ]
    ]

Ends-of : (c : Client) (s t : Step) → s ≡ t → Ends c t → Ends c s
Ends-of c s t p h = rw (p) h

core_step_internal-Ends :
    (e : Calls) (c : Client) (s : ConnStatus)
    → quiet e ≡ true
    → c.server_state.conn_status ≡ s
    → Ends c (core_step_internal e c)
unfolding core_step_internal process_initial bootstrap_is_needed process_suspended
core_step_internal-Ends e c initial q h = ground (arith, h)
core_step_internal-Ends e c invalid_status q h = inl (ground (arith, h))
core_step_internal-Ends e c failure q h = inl (ground (arith, h))
core_step_internal-Ends e c bootstrapping q h =
    Ends-of c (core_step_internal e c) (process_bootstrap_operation e c) (cc h)
      (bootstrapping-Ends e c c.bootstrap.bootstrap_state q refl h)
core_step_internal-Ends e c bootstrapped q h = inr (ground (arith, h))
core_step_internal-Ends e c registering q h =
    Ends-of c (core_step_internal e c) (process_register_operation e c) (cc h)
      (registering-Ends e c c.registration.registration_state q refl h)
core_step_internal-Ends e c suspended q h = ground (arith, h)
core_step_internal-Ends e c s q h =
    Ends-of c (core_step_internal e c) (process_registered e c) (ground (arith, h))
      (registered-Ends e c q (ground (arith, h)))

pub choose_step-Ends : (e : Calls) (c : Client) → quiet e ≡ true → Ends c (choose_step e c)
unfolding choose_step force_transition
choose_step-Ends e c q =
    elim (Bool-cases
      (not (status_registered c.server_state.conn_status) && state_transition_forced c)) [
        | inl h ↦ inl (ground (arith, h))
        | inr h ↦
            Ends-of c (choose_step e c) (core_step_internal e c) (cc h)
              (core_step_internal-Ends e c c.server_state.conn_status q refl)
      ]
