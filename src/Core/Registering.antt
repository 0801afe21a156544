-- ===== src/Core/Registering.antt =====
-- src/anj/core/server_register.c: connecting and registering, with retries after a delay that
-- doubles, sequences of retries, and the fall back to a bootstrap.
pub mod Attempts
use anjay_lite.Base.{
  ℕ, ◌+◌, ◌-◌, ◌*◌, ◌%◌, ◌^◌, Bool, true, false, not, ◌&&◌, ◌||◌, ◌==◌, ltb, leb, Option, none,
  some, if◌then◌else◌,
}
use anjay_lite.Base.Int.{ℤ, pos}
use anjay_lite.Core.{
  Client, ConnStatus, bootstrapping, failure, registered, RetryRes, RegistrationState, connection,
  register_in_progress, error_handling, disconnecting, cleanup, cleanup_with_failure, restart,
  registration_failure, set_status, continue,
}
use anjay_lite.Core.Calls.{
  Calls, delay_before, if_prepared, is_ok, is_in_progress, is_pending, run_callbacks, Step,
}
use anjay_lite.Core.Register.{Request, register_register, register_operation_status}
use anjay_lite.Core.RegSession.{is_uint32}
use anjay_lite.Core.RegSession.Process.{go_on, stop, is_finished}
use anjay_lite.Time.{second, duration_new, duration_add, duration_shift, duration_lt, time_zero}

-- `ANJ_ID_INVALID`
abbrev pub id_invalid : ℕ
id_invalid = 2 ^ 16 - 1

-- `ANJ_COMMUNICATION_RETRY_RES_DEFAULT`
abbrev pub retry_res_default : RetryRes
retry_res_default = record {
  retry_count = 5;
  retry_timer = 60;
  seq_delay_timer = 24 * 60 * 60;
  seq_retry_count = 1;
}

-- A resource that is read and fits in so many bits, or the default value
abbrev pub read_or : (bits : ℕ) → Option ℕ → (default : ℕ) → ℕ
read_or bits none default = default
read_or bits (some v) default = if leb v (2 ^ bits - 1) then v else default

unfoldable pub read_retry_res : Calls → RetryRes
read_retry_res e = record {
  retry_count = read_or 16 e.server_object.retry_count retry_res_default.retry_count;
  retry_timer = read_or 32 e.server_object.retry_timer retry_res_default.retry_timer;
  seq_delay_timer = read_or 32 e.server_object.seq_delay_timer retry_res_default.seq_delay_timer;
  seq_retry_count = read_or 16 e.server_object.seq_retry_count retry_res_default.seq_retry_count;
}

-- "res_val.int_value < 0 || res_val.int_value > UINT32_MAX" leaves nothing.
abbrev pub read_uint32 : Option ℤ → Option ℤ
read_uint32 none = none
read_uint32 (some v) = if is_uint32 v then some v else none

-- `register_op_read_data_model`: what it has written to the client, and whether it succeeds.
unfoldable pub register_op_read_data_model : Calls → Client → Client × Bool
unfolding read_retry_res
register_op_read_data_model e c = elim e.server_instance_data [
  | none ↦ (c, false)
  | some (ssid, iid) ↦
      (let c1 = record c {
        server_instance = record c.server_instance { ssid = ssid; iid = iid };
      } in
        if ssid == id_invalid || iid == id_invalid || not e.security_instance_found
        then (c1, false)
        else elim (read_uint32 e.server_object.lifetime) [
          | none ↦ (c1, false)
          | some v ↦ (
            record c1 {
              server_instance = record c1.server_instance {
                lifetime = duration_new v second;
                retry_res = read_retry_res e;
                bootstrap_on_registration_failure =
                    elim e.server_object.bootstrap_on_registration_failure [
                      | none ↦ true
                      | some b ↦ b
                    ];
              };
            },
            e.server_uri_resolved,
          )
        ])
]

abbrev pub set_registration : RegistrationState → Client → Client
set_registration s c = record c { registration = record c.registration { registration_state = s } }

-- `_anj_server_register_start_register_operation`; `false` is a failure
unfoldable pub start_register_operation : Calls → Client → Client × Bool
unfolding register_op_read_data_model
start_register_operation e c =
    let r = register_op_read_data_model e c in
    if r.1
    then (
      record r.0 {
        registration = record {
          retry_count = 0;
          retry_seq_count = 0;
          retry_timeout = time_zero;
          registration_state = connection;
        };
      },
      true,
    )
    else (r.0, false)

-- "1 << (retry_count - 1)" seconds times the Communication Retry Timer
unfoldable pub retry_later : Calls → (retry_count : ℕ) → Client → Client
unfolding duration_shift duration_add
retry_later e retry_count c = record c {
  registration = record c.registration {
    retry_count = retry_count;
    retry_timeout = duration_add e.now (
        delay_before e (duration_new (pos c.server_instance.retry_res.retry_timer) second)
          retry_count);
    registration_state = disconnecting;
  };
}

-- The next sequence of retries, after the Communication Sequence Delay Timer
unfoldable pub begin_sequence : Calls → (retry_seq_count : ℕ) → Client → Client
unfolding duration_add
begin_sequence e seq c = record c {
  registration = record {
    retry_count = 0;
    retry_seq_count = seq;
    retry_timeout =
        duration_add e.now (duration_new (pos c.server_instance.retry_res.seq_delay_timer) second);
    registration_state = cleanup;
  };
}

-- The end of a sequence of retries
unfoldable pub end_sequence : Calls → (retry_count : ℕ) → Client → Client
unfolding begin_sequence register_op_read_data_model
end_sequence e retry_count c =
    let seq = (c.registration.retry_seq_count + 1) % 2 ^ 16 in
    if leb c.server_instance.retry_res.seq_retry_count seq
    then record c {
      registration = record c.registration {
        retry_count = retry_count;
        retry_seq_count = seq;
        registration_state = cleanup_with_failure;
      };
    }
    else (register_op_read_data_model e (begin_sequence e seq c)).0

-- `calculate_communication_retry_timeout`
unfoldable pub calculate_communication_retry_timeout : Calls → Client → Client
unfolding retry_later end_sequence
calculate_communication_retry_timeout e c =
    let n = (c.registration.retry_count + 1) % 2 ^ 16 in
    if ltb n c.server_instance.retry_res.retry_count then retry_later e n c else end_sequence e n c

-- `register_op_post_connect_operations`: the client, the request, and whether it is prepared
unfoldable pub register_op_post_connect_operations : Calls → Client → Client × Request
unfolding run_callbacks
register_op_post_connect_operations e c =
    let r = register_register c.register_ctx c.server_instance.lifetime c.queue_mode_enabled in
    (run_callbacks e e.callbacks (record c { register_ctx = r.0 }), r.1)

-- `case _ANJ_SRV_REG_STATE_CONNECTION_IN_PROGRESS`
unfoldable pub process_connection : Calls → Client → Step
unfolding register_op_post_connect_operations
process_connection e c =
    if is_in_progress e.connect_result
    then stop c
    else if is_ok e.connect_result
    then (let r = register_op_post_connect_operations e (set_registration register_in_progress c) in
        record {
          client = if e.request_prepared then r.0 else set_registration error_handling r.0;
          action = continue;
          request = if_prepared e.request_prepared r.1;
        })
    else go_on (set_registration error_handling c)

-- `case _ANJ_SRV_REG_STATE_REGISTER_IN_PROGRESS`
unfoldable pub process_register : Calls → Client → Step
unfolding run_callbacks
process_register e c =
    let c' = run_callbacks e e.callbacks c in
    if is_pending e.handle_result
    then stop c'
    else if is_ok e.handle_result && is_finished (register_operation_status c'.register_ctx)
    then go_on (set_status registered c')
    else go_on (set_registration error_handling c')

-- The states that close the connection
unfoldable pub process_closing : Calls → (next : RegistrationState) → Client → Step
process_closing e next c =
    if is_in_progress e.close_result then stop c else go_on (set_registration next c)

-- `_anj_server_register_process_register_operation`
unfoldable pub process_register_operation : Calls → Client → Step
unfolding process_connection process_register calculate_communication_retry_timeout process_closing
process_register_operation e c = elim c.registration.registration_state [
  | connection ↦ process_connection e c
  | register_in_progress ↦ process_register e c
  | error_handling ↦ go_on (calculate_communication_retry_timeout e c)
  | disconnecting ↦ process_closing e restart c
  | cleanup ↦ process_closing e restart c
  | cleanup_with_failure ↦ process_closing e registration_failure c
  | restart ↦
      if duration_lt c.registration.retry_timeout e.now
      then go_on (set_registration connection c)
      else stop c
  | registration_failure ↦
      if c.server_instance.bootstrap_on_registration_failure
      then go_on (set_status bootstrapping c)
      else go_on (set_status failure c)
]
