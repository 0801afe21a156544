-- ===== src/Core/Bootstrapping.antt =====
-- src/anj/core/server_bootstrap.c: the connection with the Bootstrap Server, with retries.
use anjay_lite.Base.{
  ℕ, ◌+◌, ◌%◌, ◌^◌, Bool, true, false, not, ◌&&◌, ◌==◌, leb, Option, none, some, if◌then◌else◌,
}
use anjay_lite.Coap.{
  Msg, Op, op_code, dm_read, dm_discover, dm_write_replace, dm_delete, bootstrap_finish,
  coap_ping_udp, code_bad_request, code_proxying_not_supported,
}
use anjay_lite.Core.{
  Client, bootstrapped, failure, BootstrapState, boot_connection, boot_in_progress, boot_finished,
  finish_disconnect_and_retry, disconnect_and_retry, retry, waiting, boot_error, set_status,
  continue, BootstrapCode, in_progress_code, new_request_to_send, bootstrap_finished,
}
use anjay_lite.Core.BootstrapRun.{
  bootstrap_process, bootstrap_finish_request, bootstrap_connection_lost, bootstrap_timeout_reset,
  bootstrap_reset,
}
use anjay_lite.Core.Calls.{
  Calls, delay_before, if_prepared, is_ok, is_again, is_in_progress, is_pending, run_callbacks,
  Step,
}
use anjay_lite.Core.Register.{Request, bootstrap_request, server_response}
use anjay_lite.Core.Registering.{id_invalid, read_uint32}
use anjay_lite.Core.RegSession.Process.{go_on, stop}
use anjay_lite.ExchangeCache.{CheckResult, hit_recent, hit_non_recent, miss, cache_check}
use anjay_lite.Time.{
  second, duration_new, duration_add, duration_shift, duration_gt, duration_leq, time_zero,
}

-- `_anj_server_bootstrap_is_needed`: `none` is a failure
unfoldable pub bootstrap_is_needed : Calls → Client → Client × Option Bool
bootstrap_is_needed e c = elim e.server_instance_data [
  | none ↦ (c, none)
  | some (ssid, iid) ↦ (
    record c { server_instance = record c.server_instance { ssid = ssid; iid = iid } },
    some (ssid == id_invalid && iid == id_invalid),
  )
]

-- `bootstrap_op_read_data_model`
unfoldable pub bootstrap_op_read_data_model : Calls → Client → Client × Bool
bootstrap_op_read_data_model e c =
    if not e.security_instance_found
    then (c, false)
    else elim (read_uint32 e.client_hold_off_time) [
      | none ↦ (c, false)
      | some v ↦ (record c { client_hold_off_time = duration_new v second }, e.server_uri_resolved)
    ]

abbrev pub set_bootstrap : BootstrapState → Client → Client
set_bootstrap s c = record c { bootstrap = record c.bootstrap { bootstrap_state = s } }

-- `_anj_server_bootstrap_start_bootstrap_operation`; `false` is a failure
unfoldable pub start_bootstrap_operation : Calls → Client → Client × Bool
unfolding bootstrap_op_read_data_model duration_add
start_bootstrap_operation e c =
    let r = bootstrap_op_read_data_model e c in
    if not r.1
    then (r.0, false)
    else (let c1 = record r.0 { bootstrap_ctx = bootstrap_reset r.0.bootstrap_ctx } in
        if duration_gt c1.client_hold_off_time time_zero
        then (
          record c1 {
            bootstrap = record c1.bootstrap {
              bootstrap_timeout = duration_add e.now c1.client_hold_off_time;
              bootstrap_state = waiting;
            };
          },
          true,
        )
        else (
          record c1 {
            bootstrap = record c1.bootstrap {
              bootstrap_retry_attempt = 0;
              bootstrap_state = boot_connection;
            };
          },
          true,
        ))

-- `calculate_communication_retry_timeout`: "1 << (attempt - 1)" times the retry timeout
unfoldable pub calculate_retry_timeout : Calls → Client → Client
unfolding duration_shift duration_add
calculate_retry_timeout e c =
    let n = (c.bootstrap.bootstrap_retry_attempt + 1) % 2 ^ 16 in
    record c {
      bootstrap = record c.bootstrap {
        bootstrap_retry_attempt = n;
        bootstrap_timeout = duration_add e.now (delay_before e c.bootstrap_retry_timeout n);
      };
    }

-- `_ANJ_COAP_CODE_IS_ERROR`
abbrev pub code_is_error : ℕ → Bool
code_is_error code = leb code_bad_request code && leb code code_proxying_not_supported

-- What the module's handler leaves: the client and the response code; `none` drops the message.
unfoldable pub dispatch_bootstrap : Calls → Client → Op → Option (Client × ℕ)
unfolding bootstrap_timeout_reset bootstrap_finish_request
dispatch_bootstrap e c op =
    let accepted = some (
      if code_is_error e.response_code
          then c
          else record c { bootstrap_ctx = bootstrap_timeout_reset e.now c.bootstrap_ctx },
      e.response_code,
    ) in
    elim op [
      | dm_read ↦ accepted
      | dm_discover ↦ accepted
      | dm_write_replace ↦ accepted
      | dm_delete ↦ accepted
      | bootstrap_finish ↦
          (let r = bootstrap_finish_request e.bootstrap_validation_ok c.bootstrap_ctx in
            some (record c { bootstrap_ctx = r.0 }, r.1))
      | coap_ping_udp ↦ some (c, 0)
      | _ ↦ none
    ]

-- What `handle_incoming_message` does to the client, whether it fails, and the response
abbrev pub Incoming : Type 0
Incoming = Client × (Bool × Option Request)

unfoldable pub answer_bootstrap : Calls → Client → Msg → Incoming
unfolding dispatch_bootstrap run_callbacks op_code
answer_bootstrap e c msg = elim (dispatch_bootstrap e c msg.operation) [
  | none ↦ (c, (false, none))
  | some (c1, code) ↦ (
    run_callbacks e e.incoming_callbacks c1,
    (not e.response_prepared, some (server_response (op_code msg.operation) code)),
  )
]

-- A repeated message is dropped, whichever response the cache has.
unfoldable pub after_bootstrap_check : Calls → Client → Msg → CheckResult → Incoming
unfolding answer_bootstrap
after_bootstrap_check e c msg hit_recent = (c, (false, none))
after_bootstrap_check e c msg hit_non_recent = (c, (false, none))
after_bootstrap_check e c msg miss = answer_bootstrap e c msg

-- `handle_incoming_message`
unfoldable pub handle_bootstrap_message : Calls → Client → Incoming
unfolding cache_check after_bootstrap_check
handle_bootstrap_message e c = elim e.message [
  | none ↦ (c, (false, none))
  | some msg ↦
      (let checked = cache_check c.exchange_cache e.now msg.message_id in
        after_bootstrap_check e (record c { exchange_cache = checked.0 }) msg checked.1)
]

-- `_anj_bootstrap_process` on the client
unfoldable pub run_bootstrap : Calls → Client → Client × BootstrapCode
unfolding bootstrap_process
run_bootstrap e c =
    let r = bootstrap_process e.now c.bootstrap_ctx in (record c { bootstrap_ctx = r.0 }, r.1)

-- `_anj_srv_conn_prepare_client_request` of the Bootstrap-Request
unfoldable pub send_bootstrap_request : Calls → Client → Step
unfolding run_callbacks
send_bootstrap_request e c =
    let c' = run_callbacks e e.callbacks c in
    record {
      client = if e.request_prepared then c' else set_bootstrap finish_disconnect_and_retry c';
      action = continue;
      request = if_prepared e.request_prepared bootstrap_request;
    }

-- `case _ANJ_BOOTSTRAP_IN_PROGRESS` of `handle_bootstrap_process`
unfoldable pub receive_bootstrap : Calls → Client → Step
unfolding handle_bootstrap_message
receive_bootstrap e c =
    if is_in_progress e.receive_result
    then stop c
    else if is_ok e.receive_result
    then (let h = handle_bootstrap_message e c in
        record {
          client = if h.1.0 then set_bootstrap finish_disconnect_and_retry h.0 else h.0;
          action = continue;
          request = h.1.1;
        })
    else if is_again e.receive_result
    then stop c
    else go_on (set_bootstrap finish_disconnect_and_retry c)

unfoldable pub handle_bootstrap_process : Calls → Client → Step
unfolding run_bootstrap send_bootstrap_request receive_bootstrap
handle_bootstrap_process e c =
    let r = run_bootstrap e c in
    elim r.1 [
      | in_progress_code ↦ receive_bootstrap e r.0
      | new_request_to_send ↦ send_bootstrap_request e r.0
      | bootstrap_finished ↦ go_on (set_bootstrap boot_finished r.0)
      | _ ↦ go_on (set_bootstrap disconnect_and_retry r.0)
    ]

abbrev pub is_new_request : BootstrapCode → Bool
is_new_request new_request_to_send = true
is_new_request _ = false

-- `case _ANJ_SRV_BOOTSTRAP_STATE_CONNECTION_IN_PROGRESS`
unfoldable pub connect_bootstrap : Calls → Client → Step
unfolding run_bootstrap send_bootstrap_request
connect_bootstrap e c =
    if is_in_progress e.connect_result
    then stop c
    else if not (is_ok e.connect_result)
    then go_on (set_bootstrap retry c)
    else (let r = run_bootstrap e (set_bootstrap boot_in_progress c) in
        if is_new_request r.1
        then send_bootstrap_request e r.0
        else go_on (set_bootstrap finish_disconnect_and_retry r.0))

-- `case _ANJ_SRV_BOOTSTRAP_STATE_BOOTSTRAP_IN_PROGRESS`
unfoldable pub continue_bootstrap : Calls → Client → Step
unfolding run_callbacks handle_bootstrap_process
continue_bootstrap e c =
    let c' = run_callbacks e e.callbacks c in
    if is_pending e.handle_result
    then stop c'
    else if is_ok e.handle_result
    then handle_bootstrap_process e c'
    else go_on (set_bootstrap finish_disconnect_and_retry c')

-- `case _ANJ_SRV_BOOTSTRAP_STATE_RETRY`
unfoldable pub retry_bootstrap : Calls → Client → Step
unfolding calculate_retry_timeout
retry_bootstrap e c =
    if leb c.bootstrap_retry_count c.bootstrap.bootstrap_retry_attempt
    then go_on (set_bootstrap boot_error c)
    else stop (set_bootstrap waiting (calculate_retry_timeout e c))

-- `case _ANJ_SRV_BOOTSTRAP_STATE_DISCONNECT_AND_RETRY`, which falls through to the retry
unfoldable pub disconnect_bootstrap : Calls → Client → Step
unfolding run_callbacks retry_bootstrap
disconnect_bootstrap e c =
    if is_in_progress e.close_result
    then stop c
    else retry_bootstrap e (run_callbacks e e.callbacks (set_bootstrap retry c))

-- `case _ANJ_SRV_BOOTSTRAP_STATE_FINISH_DISCONNECT_AND_RETRY`, up to its fall through
unfoldable pub finish_bootstrap : Calls → Client → Client
unfolding run_bootstrap
finish_bootstrap e c =
    let lost = record c { bootstrap_ctx = bootstrap_connection_lost c.bootstrap_ctx } in
    set_bootstrap disconnect_and_retry (run_bootstrap e lost).0

-- `_anj_server_bootstrap_process_bootstrap_operation`
unfoldable pub process_bootstrap_operation : Calls → Client → Step
unfolding connect_bootstrap continue_bootstrap finish_bootstrap disconnect_bootstrap retry_bootstrap
process_bootstrap_operation e c = elim c.bootstrap.bootstrap_state [
  | boot_connection ↦ connect_bootstrap e c
  | boot_in_progress ↦ continue_bootstrap e c
  | boot_finished ↦
      if is_in_progress e.close_result
      then stop c
      else if is_ok e.close_result
      then go_on (set_status bootstrapped c)
      else go_on c
  | finish_disconnect_and_retry ↦ disconnect_bootstrap e (finish_bootstrap e c)
  | disconnect_and_retry ↦ disconnect_bootstrap e c
  | retry ↦ retry_bootstrap e c
  | waiting ↦
      if duration_leq c.bootstrap.bootstrap_timeout e.now
      then go_on (set_bootstrap boot_connection c)
      else stop c
  | boot_error ↦ stop (set_status failure c)
]
