-- ===== src/Core/Run.antt =====
-- src/anj/core/core.c: the step of the client, which runs the session that its connection status
-- names, starts the next session, and carries out forced transitions.
use anjay_lite.Base.{
  ℕ, ◌==◌, Bool, true, false, not, ◌&&◌, List, [], ◌∷◌, Option, none, some, if◌then◌else◌,
}
use anjay_lite.Core.{
  Client, ConnStatus, initial, invalid_status, failure, bootstrapping, bootstrapped, registering,
  registered, suspended, entering_queue_mode, queue_mode, continue, leave, state_transition_forced,
  state_transition_clear, client_registered, set_status, is_suspended,
}
use anjay_lite.Core.Bootstrapping.{
  bootstrap_is_needed, start_bootstrap_operation, process_bootstrap_operation,
}
use anjay_lite.Core.Calls.{Calls, is_in_progress, Step}
use anjay_lite.Core.Registering.{start_register_operation, process_register_operation}
use anjay_lite.Core.RegSession.{reg_session_init}
use anjay_lite.Core.RegSession.Process.{
  go_on, stop, forced_status, process_registered, process_suspended, later,
}
use anjay_lite.Time.{Duration, duration_gt, duration_lt, duration_sub, duration_is_valid, time_zero}

-- `case ANJ_CONN_STATUS_INITIAL`
unfoldable pub process_initial : Calls → Client → Step
unfolding bootstrap_is_needed
process_initial e c =
    let r = bootstrap_is_needed e c in
    elim r.1 [
      | none ↦ stop (set_status invalid_status r.0)
      | some needed ↦ go_on (set_status (if needed then bootstrapping else registering) r.0)
    ]

-- `anj_core_step_internal`
unfoldable pub core_step_internal : Calls → Client → Step
unfolding process_initial process_bootstrap_operation process_register_operation process_registered
    process_suspended
core_step_internal e c = elim c.server_state.conn_status [
  | initial ↦ process_initial e c
  | bootstrapping ↦ process_bootstrap_operation e c
  | bootstrapped ↦ go_on (set_status registering c)
  | registering ↦ process_register_operation e c
  | registered ↦ process_registered e c
  | entering_queue_mode ↦ process_registered e c
  | queue_mode ↦ process_registered e c
  | invalid_status ↦ stop (set_status failure c)
  | failure ↦ stop c
  | suspended ↦ process_suspended e c
]

-- The client, or the client with a configuration that is not valid
abbrev pub or_invalid : Client × Bool → Client
or_invalid r = if r.1 then r.0 else set_status invalid_status r.0

abbrev pub is_registering : ConnStatus → Bool
is_registering registering = true
is_registering _ = false

unfoldable pub init_new_conn_status : Calls → (last_conn_status : ConnStatus) → Client → Client
unfolding start_bootstrap_operation start_register_operation reg_session_init
init_new_conn_status e last c = elim c.server_state.conn_status [
  | bootstrapping ↦ or_invalid (start_bootstrap_operation e c)
  | registering ↦ or_invalid (start_register_operation e c)
  | registered ↦ if is_registering last then reg_session_init e c else c
  | _ ↦ c
]

-- The value of an enumerator of `anj_conn_status_t`, to compare two of them
abbrev pub status_code : ConnStatus → ℕ
status_code initial = 0
status_code invalid_status = 1
status_code failure = 2
status_code bootstrapping = 3
status_code bootstrapped = 4
status_code registering = 5
status_code registered = 6
status_code suspended = 7
status_code entering_queue_mode = 8
status_code queue_mode = 9

-- A forced transition of a client that is not registered. Where closing is in progress, the step
-- returns at once.
unfoldable pub force_transition : Calls → Client → Step
force_transition e c =
    if is_in_progress e.close_result
    then stop c
    else go_on (state_transition_clear (set_status (forced_status c) c))

-- "Handle all state transitions explicitly triggered by the user, but only if the client is not
-- currently Registered."
unfoldable pub choose_step : Calls → Client → Step
unfolding force_transition core_step_internal state_transition_forced
choose_step e c =
    if not (client_registered c) && state_transition_forced c
    then force_transition e c
    else core_step_internal e c

-- One round of the loop of `anj_core_step`, less the status callback of the user
unfoldable pub core_round : Calls → Client → Step
unfolding choose_step init_new_conn_status
core_round e c =
    let s = choose_step e c in
    if status_code s.client.server_state.conn_status == status_code c.server_state.conn_status
    then s
    else record s { client = init_new_conn_status e c.server_state.conn_status s.client }

-- `anj_core_step`: rounds until one returns `_ANJ_CORE_NEXT_ACTION_LEAVE`. The rounds see what the list
-- holds; `none` is a list that ends before the loop does.
unfoldable pub core_step : List Calls → Client → Option Client
unfolding core_round
core_step [] c = none
core_step (e ∷ es) c =
    let s = core_round e c in
    let rest = core_step es s.client in elim s.action [ leave ↦ some s.client | continue ↦ rest ]

abbrev pub is_queue_mode : ConnStatus → Bool
is_queue_mode queue_mode = true
is_queue_mode _ = false

-- The time to the next notification: `none` where `anj_observe_time_to_next_notification` fails
abbrev pub sooner : Duration → Option Duration → Duration
sooner to_update none = to_update
sooner to_update (some to_notification) =
    if duration_is_valid to_notification
    then (if duration_lt to_update to_notification then to_update else to_notification)
    else to_update

-- `anj_core_next_step_time`; `none` is the failed assertion that the next update has a time.
unfoldable pub core_next_step_time :
    Calls → (to_notification : Option Duration) → Client → Option Duration
unfolding duration_sub
core_next_step_time e to_notification c =
    let enable_time = later c.server_state.enable_time_user_triggered c.server_state.enable_time in
    let next_update_time = c.session.next_update_time in
    if is_suspended c.server_state.conn_status
    then some (if duration_gt enable_time e.now then duration_sub enable_time e.now else time_zero)
    else if is_queue_mode c.server_state.conn_status
    then if duration_is_valid next_update_time
      then some (
          sooner
            (if duration_lt next_update_time e.now
              then time_zero
              else duration_sub next_update_time e.now)
            to_notification)
      else none
    else some time_zero
