-- ===== src/Core/RegSession/Process.antt =====
-- src/anj/core/reg_session.c: the steps of the state machine of a registered client.
use anjay_lite.Base.{Bool, true, false, not, ◌&&◌, ◌||◌, none, if◌then◌else◌}
use anjay_lite.Core.{
  Client, ConnStatus, initial, bootstrapping, registering, registered, suspended,
  entering_queue_mode, queue_mode, continue, leave, SessionState, idle, queue, exchange, disconnect,
  entering_queue, exiting_queue, state_transition_forced, state_transition_clear, set_status,
}
use anjay_lite.Core.Calls.{Calls, is_ok, is_again, is_in_progress, is_pending, run_callbacks, Step}
use anjay_lite.Core.Register.{OperationStatus, operation_finished, register_operation_status}
use anjay_lite.Time.{Monotonic, duration_gt, duration_leq, time_zero}
use anjay_lite.Core.RegSession.{
  Attempt, nothing, new_exchange, attempt_failed, Handled, refresh_queue_mode_timeout, set_internal,
  set_forced, handle_incoming_message, handle_registration_update, handle_send, handle_observe,
  try_send_deregister,
}

-- A result of 0 is not an argument in the source.
unfoldable pub get_new_state_for_new_exchange : SessionState → Attempt → SessionState
get_new_state_for_new_exchange idle new_exchange = exchange
get_new_state_for_new_exchange queue new_exchange = exiting_queue
get_new_state_for_new_exchange _ _ = disconnect

abbrev pub go_on : Client → Step
go_on c = record { client = c; action = continue; request = none }

abbrev pub stop : Client → Step
stop c = record { client = c; action = leave; request = none }

-- "if (res) { internal_state = get_new_state_for_new_exchange(internal_state, res); ... }"
unfoldable pub begin_exchange : Handled → Step
unfolding get_new_state_for_new_exchange
begin_exchange h = record {
  client =
      set_internal (get_new_state_for_new_exchange h.client.session.internal_state h.attempt)
        h.client;
  action = continue;
  request = h.request;
}

-- The handler's result, or the rest of the step where it is 0.
unfoldable pub or_else : Handled → (Client → Step) → Step
unfolding begin_exchange
or_else h rest = elim h.attempt [
  | nothing ↦ rest h.client
  | new_exchange ↦ begin_exchange h
  | attempt_failed ↦ begin_exchange h
]

abbrev pub is_queue : SessionState → Bool
is_queue queue = true
is_queue _ = false

-- "check if we should enter queue mode, if we are not already in it"
unfoldable pub check_queue_mode : Calls → Client → Step
check_queue_mode e c =
    if c.queue_mode_enabled
      && not (is_queue c.session.internal_state)
      && duration_gt e.now c.session.queue_start_time
    then go_on (set_status entering_queue_mode (set_internal entering_queue c))
    else stop c

-- `case _ANJ_SRV_MAN_STATE_QUEUE_MODE_IN_PROGRESS`, which the idle state falls through to
unfoldable pub send_requests : Calls → Client → Step
unfolding handle_registration_update handle_send handle_observe or_else check_queue_mode
    state_transition_forced
send_requests e c =
    if state_transition_forced c && is_queue c.session.internal_state
    then go_on (set_internal exiting_queue c)
    else or_else (handle_registration_update e c) (λ c1.
      or_else (handle_send e c1)
        (λ c2. or_else (handle_observe e c2) (λ c3. check_queue_mode e c3)))

-- `case _ANJ_SRV_MAN_STATE_IDLE_IN_PROGRESS`
unfoldable pub process_idle : Calls → Client → Step
unfolding try_send_deregister begin_exchange handle_incoming_message or_else send_requests
    state_transition_forced
process_idle e c =
    if state_transition_forced c
    then (let h = try_send_deregister e c in
        begin_exchange (record h { client = set_forced true h.client }))
    else (let c' = set_forced false c in
        if is_in_progress e.receive_result
        then stop c'
        else if is_ok e.receive_result
        then or_else (handle_incoming_message e c') (λ c1. send_requests e c1)
        else if is_again e.receive_result
        then send_requests e c'
        else go_on (set_internal disconnect c'))

abbrev pub is_finished : OperationStatus → Bool
is_finished operation_finished = true
is_finished _ = false

-- `case _ANJ_SRV_MAN_STATE_EXCHANGE_IN_PROGRESS`
unfoldable pub process_exchange : Calls → Client → Step
unfolding run_callbacks refresh_queue_mode_timeout
process_exchange e c =
    let c' = run_callbacks e e.callbacks c in
    if is_pending e.handle_result
    then stop c'
    else if not (is_ok e.handle_result)
        || not (is_finished (register_operation_status c'.register_ctx))
        || c'.session.transition_forced
    then go_on (set_internal disconnect c')
    else go_on (refresh_queue_mode_timeout e (set_internal idle c'))

-- `case _ANJ_SRV_MAN_STATE_EXITING_QUEUE_MODE_IN_PROGRESS`
unfoldable pub process_exiting : Client → Step
unfolding state_transition_forced
process_exiting c =
    let next = if state_transition_forced c then idle else exchange in
    go_on (set_status registered (set_internal next c))

-- `case _ANJ_SRV_MAN_STATE_ENTERING_QUEUE_MODE_IN_PROGRESS`
unfoldable pub process_entering : Calls → Client → Step
process_entering e c =
    if is_in_progress e.rx_off_result
    then stop c
    else if is_ok e.rx_off_result
    then go_on (set_status queue_mode (set_internal queue c))
    else go_on (set_internal disconnect c)

-- "priority of the state transition is: 1. restart 2. bootstrap 3. disable"
abbrev pub forced_status : Client → ConnStatus
forced_status c =
    if c.server_state.restart_triggered
    then initial
    else if c.server_state.bootstrap_request_triggered
    then bootstrapping
    else if c.server_state.disable_triggered
    then suspended
    else c.server_state.conn_status

-- "bool with_cleanup = ..."
abbrev pub with_cleanup : Client → Bool
with_cleanup c = c.server_state.bootstrap_request_triggered || c.server_state.restart_triggered

-- `case _ANJ_SRV_MAN_STATE_DISCONNECT_IN_PROGRESS`
unfoldable pub process_disconnect : Calls → Client → Step
unfolding run_callbacks state_transition_forced
process_disconnect e c =
    let c' = run_callbacks e e.callbacks c in
    if is_in_progress e.close_result
    then stop c'
    else if state_transition_forced c'
    then go_on (state_transition_clear (set_status (forced_status c') c'))
    else go_on (set_status registering c')

-- `_anj_reg_session_process_registered`
unfoldable pub process_registered : Calls → Client → Step
unfolding process_idle send_requests process_exchange process_exiting process_entering
    process_disconnect
process_registered e c = elim c.session.internal_state [
  | idle ↦ process_idle e c
  | queue ↦ send_requests e c
  | exiting_queue ↦ process_exiting c
  | exchange ↦ process_exchange e c
  | entering_queue ↦ process_entering e c
  | disconnect ↦ process_disconnect e c
]

abbrev pub later : Monotonic → Monotonic → Monotonic
later a b = if duration_gt a b then a else b

-- `_anj_reg_session_process_suspended`
unfoldable pub process_suspended : Calls → Client → Step
process_suspended e c =
    if duration_leq (later c.server_state.enable_time_user_triggered c.server_state.enable_time)
      e.now
    then go_on (
        set_status initial (record c {
          server_state = record c.server_state {
            enable_time = time_zero;
            enable_time_user_triggered = time_zero;
          };
        }))
    else stop c
