-- ===== src/Core/Quiet.antt =====
-- src/anj/core/core.c: a client whose network has nothing new. This file counts the rounds that its
-- step may take, and follows registering and bootstrapping.
pub mod Rounds
pub mod Loop
use anjay_lite.Base.{
  ℕ, arith, ◌≡◌, refl, ap, ◌∙◌, Option, ◌<◌, ◌≤◌, Bool, true, false, not, ◌&&◌, ◌||◌, ◌⊎◌, ◌==◌,
  ◌≢◌, if◌then◌else◌, inl, inr, some, none, List, [], ◌∷◌, length, Option-cases, Bool-cases,
}
use anjay_lite.Core.{
  Client, ConnStatus, initial, invalid_status, failure, bootstrapping, bootstrapped, registering,
  registered, suspended, entering_queue_mode, queue_mode, status_registered, SessionState, idle,
  queue, exchange, disconnect, entering_queue, exiting_queue, state_transition_forced,
  RegistrationState, connection, register_in_progress, error_handling, disconnecting, cleanup,
  cleanup_with_failure, restart, registration_failure, BootstrapState, boot_connection,
  boot_in_progress, boot_finished, finish_disconnect_and_retry, disconnect_and_retry, retry,
  waiting, boot_error, NextAction, continue, leave,
}
use anjay_lite.Core.Bootstrapping.{
  process_bootstrap_operation, start_bootstrap_operation, bootstrap_op_read_data_model,
  bootstrap_is_needed, connect_bootstrap, continue_bootstrap, disconnect_bootstrap, retry_bootstrap,
  calculate_retry_timeout, finish_bootstrap,
}
use anjay_lite.Core.Callbacks.{run_callbacks-Kept}
use anjay_lite.Core.Calls.{Calls, Step, is_in_progress, is_pending, run_callbacks}
use anjay_lite.Core.Registering.{
  process_register_operation, register_op_read_data_model, start_register_operation,
  process_connection, process_register, process_closing, calculate_communication_retry_timeout,
  retry_later, end_sequence, begin_sequence,
}
use anjay_lite.Core.RegSession.{
  set_forced, Handled, new_exchange, handle_registration_update, handle_send, handle_observe,
  try_send_deregister,
}
use anjay_lite.Core.RegSession.Frame.{handle_registration_update-Same, try_send_deregister-Same}
use anjay_lite.Core.RegSession.Moves.{process_idle_moves, send_requests_moves}
use anjay_lite.Core.RegSession.Process.{
  process_registered, process_idle, send_requests, process_exchange, process_entering,
  process_exiting, process_disconnect, process_suspended, begin_exchange, or_else, check_queue_mode,
  get_new_state_for_new_exchange,
}
use anjay_lite.Core.Run.{
  core_round, choose_step, force_transition, core_step_internal, process_initial, core_step,
  init_new_conn_status, status_code,
}

-- Every call of the network is pending, and there is nothing to send.
abbrev pub quiet : Calls → Bool
quiet e =
    is_in_progress e.connect_result
    && is_in_progress e.close_result
    && is_in_progress e.rx_off_result
    && is_pending e.receive_result
    && is_pending e.handle_result
    && not e.send_ready
    && not e.notification_ready

abbrev pub all_quiet : List Calls → Bool
all_quiet [] = true
all_quiet (e ∷ es) = quiet e && all_quiet es

abbrev pub registration_rank : RegistrationState → ℕ
registration_rank error_handling = 2
registration_rank restart = 2
registration_rank registration_failure = 3
registration_rank _ = 1

abbrev pub bootstrap_rank : BootstrapState → ℕ
bootstrap_rank retry = 2
bootstrap_rank waiting = 2
bootstrap_rank _ = 1

abbrev pub session_rank : SessionState → ℕ
session_rank idle = 2
session_rank exiting_queue = 3
session_rank queue = 4
session_rank _ = 1

-- The rounds that a quiet client takes at most
abbrev pub status_rank : ConnStatus → SessionState → RegistrationState → BootstrapState → ℕ
status_rank initial s r b = 3
status_rank bootstrapping s r b = bootstrap_rank b
status_rank bootstrapped s r b = 2
status_rank registering s r b = registration_rank r
status_rank registered s r b = session_rank s
status_rank entering_queue_mode s r b = session_rank s
status_rank queue_mode s r b = session_rank s
status_rank suspended s r b = 4
status_rank _ s r b = 1

abbrev pub rank : Client → ℕ
rank c =
    status_rank c.server_state.conn_status c.session.internal_state
      c.registration.registration_state c.bootstrap.bootstrap_state

-- A step that ends the loop, or stays in a status with a lower rank, or goes to a status whose session
-- starts with a lower rank.
abbrev pub start_rank : (last : ConnStatus) → Client → ℕ
start_rank last c = elim c.server_state.conn_status [
  | bootstrapping ↦ 2
  | registering ↦ 1
  | registered ↦ elim last [ registering ↦ 5 | _ ↦ rank c ]
  | _ ↦ rank c
]

abbrev pub next_rank : (last : ConnStatus) → Client → ℕ
next_rank last c =
    if status_code c.server_state.conn_status == status_code last then rank c else start_rank last c

abbrev pub Ends : Client → Step → Type 0
Ends c s = (s.action ≡ leave) ⊎ (next_rank c.server_state.conn_status s.client < rank c)

pub registering-Ends :
    (e : Calls) (c : Client) (s : RegistrationState)
    → quiet e ≡ true
    → c.registration.registration_state ≡ s
    → c.server_state.conn_status ≡ registering
    → Ends c (process_register_operation e c)
unfolding process_register_operation process_connection process_register process_closing
    calculate_communication_retry_timeout retry_later end_sequence begin_sequence
    register_op_read_data_model
registering-Ends e c connection q h k = inl (ground (arith, h))
registering-Ends e c register_in_progress q h k = inl (ground (arith, h))
registering-Ends e c error_handling q h k = inr (ground (arith, h, k))
registering-Ends e c disconnecting q h k = inl (ground (arith, h))
registering-Ends e c cleanup q h k = inl (ground (arith, h))
registering-Ends e c cleanup_with_failure q h k = inl (ground (arith, h))
registering-Ends e c restart q h k = ground (arith, h, k)
registering-Ends e c registration_failure q h k = inr (ground (arith, h, k))

disconnect_leaves :
    (e : Calls) (c : Client) → quiet e ≡ true → (disconnect_bootstrap e c).action ≡ leave
unfolding disconnect_bootstrap
disconnect_leaves e c q = ground arith

pub bootstrapping-Ends :
    (e : Calls) (c : Client) (s : BootstrapState)
    → quiet e ≡ true
    → c.bootstrap.bootstrap_state ≡ s
    → c.server_state.conn_status ≡ bootstrapping
    → Ends c (process_bootstrap_operation e c)
unfolding process_bootstrap_operation connect_bootstrap continue_bootstrap retry_bootstrap
    calculate_retry_timeout
bootstrapping-Ends e c boot_connection q h k = inl (ground (arith, h))
bootstrapping-Ends e c boot_in_progress q h k = inl (ground (arith, h))
bootstrapping-Ends e c boot_finished q h k = inl (ground (arith, h))
bootstrapping-Ends e c finish_disconnect_and_retry q h k =
    inl (ground (arith, h, disconnect_leaves e (finish_bootstrap e c) q))
bootstrapping-Ends e c disconnect_and_retry q h k = inl (ground (arith, h, disconnect_leaves e c q))
bootstrapping-Ends e c retry q h k = ground (arith, h, k)
bootstrapping-Ends e c waiting q h k = ground (arith, h, k)
bootstrapping-Ends e c boot_error q h k = inl (ground (arith, h))
