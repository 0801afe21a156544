-- ===== src/Core/RegSession.antt =====
-- src/anj/core/reg_session.c: a registered client. It answers the server, sends Updates, Sends and
-- notifications, enters and leaves the queue mode, and de-registers before a forced transition.
pub mod Process
pub mod Leaving
pub mod Frame
pub mod Updates
pub mod Agreement
pub mod Moves
use anjay_lite.Base.{
  ℕ, ◌-◌, ◌^◌, Bool, true, false, not, ◌&&◌, ◌||◌, Option, none, some, if◌then◌else◌,
}
use anjay_lite.Base.Int.{ℤ, pos, ltb_ℤ}
use anjay_lite.Coap.{
  Msg, Op, op_code, dm_read, dm_read_comp, dm_discover, dm_write_replace, dm_write_partial_update,
  dm_write_attr, dm_write_comp, dm_execute, dm_create, dm_delete, inf_observe, inf_observe_comp,
  inf_cancel_observe, inf_cancel_observe_comp, coap_reset, coap_ping_udp,
}
use anjay_lite.Core.{
  Client, ConnStatus, initial, bootstrapping, registering, registered, suspended,
  entering_queue_mode, queue_mode, NextAction, continue, leave, SessionState, idle, queue, exchange,
  disconnect, entering_queue, exiting_queue, state_transition_forced, state_transition_clear,
  set_status,
}
use anjay_lite.Core.Calls.{
  Calls, if_prepared, is_ok, is_again, is_in_progress, is_pending, run_callbacks, Step,
}
use anjay_lite.Core.Register.{
  Request, send_request, notify_request, server_response, register_update, register_deregister,
  OperationStatus, operation_finished, register_operation_status,
}
use anjay_lite.ExchangeCache.{CheckResult, hit_recent, hit_non_recent, miss, cache_check}
use anjay_lite.Time.{
  Duration, Monotonic, second, invalid, duration_new, duration_add, duration_sub, duration_div,
  duration_eq, duration_gt, duration_leq, time_zero,
}

-- What a handler of this file returns: 0, `_ANJ_REG_SESSION_NEW_EXCHANGE` or -1, with the client and
-- the request that it prepared.
pub data Attempt : Type 0 where
  nothing new_exchange attempt_failed : Attempt

pub record Handled : Type 0 where
  pub client : Client
  pub attempt : Attempt
  pub request : Option Request

unfoldable pub calculate_next_update :
    Monotonic → (max_transmit_wait : Duration) → Duration → Monotonic
unfolding duration_sub duration_div duration_add
calculate_next_update now max_transmit_wait lifetime =
    if duration_eq lifetime time_zero
    then invalid
    else (let lifetime_transmit_wait = duration_sub lifetime max_transmit_wait in
        let half_lifetime = duration_div lifetime 2 in
        let timeout =
          if duration_gt lifetime_transmit_wait half_lifetime
          then lifetime_transmit_wait
          else half_lifetime in
        duration_add now timeout)

unfoldable pub refresh_queue_mode_timeout : Calls → Client → Client
unfolding duration_add
refresh_queue_mode_timeout e c = record c {
  session = record c.session {
    queue_start_time =
        if c.queue_mode_enabled then duration_add e.now c.queue_mode_timeout else invalid;
  };
}

-- "res_val.int_value < 0 || res_val.int_value > UINT32_MAX"
abbrev pub is_uint32 : ℤ → Bool
is_uint32 v = not (ltb_ℤ v (pos 0)) && not (ltb_ℤ (pos (2 ^ 32 - 1)) v)

unfoldable pub get_lifetime : Calls → Client → Client
get_lifetime e c = elim e.server_object.lifetime [
  | none ↦ c
  | some v ↦
      if is_uint32 v
      then record c {
        server_instance = record c.server_instance { lifetime = duration_new v second };
      }
      else c
]

unfoldable pub get_mute_send : Calls → Client → Client
get_mute_send e c = record c {
  server_instance = record c.server_instance {
    mute_send = elim e.server_object.mute_send [ none ↦ true | some v ↦ v ];
  };
}

-- `_anj_reg_session_refresh_registration_related_resources`, less the parameters of observations
unfoldable pub refresh_registration_related_resources : Calls → Client → Client
unfolding get_lifetime get_mute_send
refresh_registration_related_resources e c = get_mute_send e (get_lifetime e c)

abbrev pub refresh_next_update : Calls → Client → Client
refresh_next_update e c = record c {
  session = record c.session {
    next_update_time = calculate_next_update e.now e.max_transmit_wait c.server_instance.lifetime;
  };
}

abbrev pub set_internal : SessionState → Client → Client
set_internal s c = record c { session = record c.session { internal_state = s } }

abbrev pub set_forced : Bool → Client → Client
set_forced b c = record c { session = record c.session { transition_forced = b } }

-- The fields that `_anj_reg_session_init` sets before it reads the clock
abbrev pub session_start : Client → Client
session_start c = record c {
  session = record c.session {
    internal_state = idle;
    update_with_lifetime = false;
    update_with_payload = false;
  };
  server_state = record c.server_state {
    registration_update_triggered = false;
    bootstrap_request_triggered = false;
    restart_triggered = false;
    disable_triggered = false;
    enable_time = time_zero;
    enable_time_user_triggered = time_zero;
  };
}

-- `_anj_reg_session_init`
unfoldable pub reg_session_init : Calls → Client → Client
unfolding calculate_next_update refresh_queue_mode_timeout refresh_registration_related_resources
reg_session_init e c =
    refresh_queue_mode_timeout e
      (refresh_next_update e (refresh_registration_related_resources e (session_start c)))

-- `_anj_srv_conn_prepare_client_request`, with the handlers that it calls
abbrev pub prepare_client_request : Calls → Client → Request → Handled
prepare_client_request e c request = record {
  client = run_callbacks e e.callbacks c;
  attempt = if e.request_prepared then new_exchange else attempt_failed;
  request = if_prepared e.request_prepared request;
}

abbrev pub no_exchange : Client → Handled
no_exchange c = record { client = c; attempt = nothing; request = none }

-- The module that handles an operation of the server
pub data Recipient : Type 0 where
  to_data_model to_observe to_cancel_by_mid to_exchange to_nobody : Recipient

abbrev pub recipient : Op → Recipient
recipient dm_read = to_data_model
recipient dm_discover = to_data_model
recipient dm_write_replace = to_data_model
recipient dm_write_partial_update = to_data_model
recipient dm_execute = to_data_model
recipient dm_create = to_data_model
recipient dm_delete = to_data_model
recipient dm_read_comp = to_data_model
recipient dm_write_comp = to_data_model
recipient dm_write_attr = to_observe
recipient inf_observe = to_observe
recipient inf_observe_comp = to_observe
recipient inf_cancel_observe = to_observe
recipient inf_cancel_observe_comp = to_observe
recipient coap_reset = to_cancel_by_mid
recipient coap_ping_udp = to_exchange
recipient _ = to_nobody

-- `_anj_srv_conn_prepare_server_request`, after the module's handler
unfoldable pub prepare_server_request : Calls → Client → Msg → (response_code : ℕ) → Handled
unfolding run_callbacks op_code
prepare_server_request e c msg response_code = record {
  client = run_callbacks e e.incoming_callbacks c;
  attempt = if e.response_prepared then new_exchange else attempt_failed;
  request = if_prepared e.response_prepared (server_response (op_code msg.operation) response_code);
}

unfoldable pub dispatch_message : Calls → Client → Msg → Handled
unfolding prepare_server_request
dispatch_message e c msg = elim (recipient msg.operation) [
  | to_data_model ↦ prepare_server_request e c msg e.response_code
  | to_observe ↦ prepare_server_request e c msg e.response_code
  | to_exchange ↦ prepare_server_request e c msg 0
  | to_cancel_by_mid ↦ no_exchange c
  | to_nobody ↦ no_exchange c
]

-- By the result of `_anj_exchange_cache_check`: the response is sent again, or nothing, or a module
-- handles the message.
unfoldable pub after_cache_check : Calls → Client → Msg → CheckResult → Handled
unfolding dispatch_message
after_cache_check e c msg hit_recent = record { client = c; attempt = new_exchange; request = none }
after_cache_check e c msg hit_non_recent = no_exchange c
after_cache_check e c msg miss = dispatch_message e c msg

unfoldable pub handle_incoming_message : Calls → Client → Handled
unfolding cache_check after_cache_check
handle_incoming_message e c = elim e.message [
  | none ↦ no_exchange c
  | some msg ↦
      (let checked = cache_check c.exchange_cache e.now msg.message_id in
        after_cache_check e (record c { exchange_cache = checked.0 }) msg checked.1)
]

unfoldable pub update_needed : Calls → Client → Bool
update_needed e c =
    duration_gt e.now c.session.next_update_time
    || c.session.update_with_lifetime
    || c.session.update_with_payload
    || c.server_state.registration_update_triggered

-- The client after an Update is prepared, and the request
unfoldable pub prepare_update : Calls → Client → Client × Request
unfolding refresh_registration_related_resources calculate_next_update register_update
prepare_update e c =
    let c' = refresh_next_update e (refresh_registration_related_resources e c) in
    let lifetime =
      if c.session.update_with_lifetime then some c'.server_instance.lifetime else none in
    let r = register_update c'.register_ctx lifetime c.session.update_with_payload in
    (
      record c' {
        register_ctx = r.0;
        server_state = record c'.server_state { registration_update_triggered = false };
        session = record c'.session { update_with_lifetime = false; update_with_payload = false };
      },
      r.1,
    )

unfoldable pub handle_registration_update : Calls → Client → Handled
unfolding update_needed prepare_update run_callbacks
handle_registration_update e c =
    if update_needed e c
    then (let u = prepare_update e c in prepare_client_request e u.0 u.1)
    else no_exchange c

unfoldable pub handle_send : Calls → Client → Handled
unfolding run_callbacks
handle_send e c = if e.send_ready then prepare_client_request e c send_request else no_exchange c

unfoldable pub handle_observe : Calls → Client → Handled
unfolding run_callbacks
handle_observe e c =
    if e.notification_ready then prepare_client_request e c notify_request else no_exchange c

unfoldable pub try_send_deregister : Calls → Client → Handled
unfolding register_deregister run_callbacks
try_send_deregister e c =
    let r = register_deregister c.register_ctx in
    prepare_client_request e (record c { register_ctx = r.0 }) r.1
