-- ===== src/Core/Status.antt =====
-- src/anj/core/core.c: the moves of the connection status, and those of registering and bootstrapping.
use anjay_lite.Base.{ℕ, arith, ◌≡◌, refl, true, inl, inr, some, Option-cases}
use anjay_lite.ExchangeCache.{CheckResult, hit_recent, hit_non_recent, miss, cache_check}
use anjay_lite.Coap.{Msg, Op}
use anjay_lite.Core.{
  Client, ConnStatus, initial, invalid_status, failure, bootstrapping, bootstrapped, registering,
  registered, suspended, entering_queue_mode, queue_mode, status_registered, RegistrationState,
  connection, register_in_progress, error_handling, disconnecting, cleanup, cleanup_with_failure,
  restart, registration_failure, BootstrapState, boot_connection, boot_in_progress, boot_finished,
  finish_disconnect_and_retry, disconnect_and_retry, retry, waiting, boot_error,
}
use anjay_lite.Core.Bootstrapping.{
  process_bootstrap_operation, connect_bootstrap, continue_bootstrap, finish_bootstrap,
  disconnect_bootstrap, retry_bootstrap, run_bootstrap, send_bootstrap_request,
  handle_bootstrap_process, receive_bootstrap, handle_bootstrap_message, answer_bootstrap,
  dispatch_bootstrap, after_bootstrap_check, calculate_retry_timeout, set_bootstrap,
}
use anjay_lite.Core.Callbacks.{run_callbacks-Kept}
use anjay_lite.Core.Calls.{Calls, run_callbacks}
use anjay_lite.Core.Registering.{
  process_register_operation, process_connection, process_register, process_closing,
  calculate_communication_retry_timeout, retry_later, end_sequence, register_op_read_data_model,
  register_op_post_connect_operations, set_registration,
}
use anjay_lite.Core.Register.{register_register}

-- The moves of `anj_core_step_internal`
infix 40 ◌⟶◌
pub data ◌⟶◌ : ConnStatus → ConnStatus → Type 0 where
  stay : {s : ConnStatus} → s ⟶ s
  misconfigured : initial ⟶ invalid_status
  need_bootstrap : initial ⟶ bootstrapping
  need_registration : initial ⟶ registering
  boot : bootstrapping ⟶ bootstrapped
  boot_fails : bootstrapping ⟶ failure
  booted : bootstrapped ⟶ registering
  register : registering ⟶ registered
  boot_again : registering ⟶ bootstrapping
  register_fails : registering ⟶ failure
  enter_queue : registered ⟶ entering_queue_mode
  start_queue : entering_queue_mode ⟶ queue_mode
  exit_queue : queue_mode ⟶ registered
  -- a session that ends: after an error the client registers again, and a forced transition follows
  -- its trigger
  leave_restart : {s : ConnStatus} → status_registered s ≡ true → s ⟶ initial
  leave_bootstrap : {s : ConnStatus} → status_registered s ≡ true → s ⟶ bootstrapping
  leave_disable : {s : ConnStatus} → status_registered s ≡ true → s ⟶ suspended
  leave_error : {s : ConnStatus} → status_registered s ≡ true → s ⟶ registering
  give_up : invalid_status ⟶ failure
  resume : suspended ⟶ initial

pub ruleset edges = (
  stay, misconfigured, need_bootstrap, need_registration, boot, boot_fails, booted, register,
  boot_again, register_fails, enter_queue, start_queue, exit_queue, give_up, resume,
)

pub stay_of : {s t : ConnStatus} → t ≡ s → s ⟶ t
stay_of h = rw (h) stay

pub retry_status :
    (e : Calls) (c : Client)
    → (calculate_communication_retry_timeout e c).server_state.conn_status
      ≡ c.server_state.conn_status
unfolding calculate_communication_retry_timeout retry_later end_sequence register_op_read_data_model
retry_status e c = ground arith

pub process_register_operation-⟶ :
    (e : Calls) (c : Client) (s : RegistrationState)
    → c.registration.registration_state ≡ s
    → c.server_state.conn_status ≡ registering
    → registering ⟶ (process_register_operation e c).client.server_state.conn_status
unfolding process_register_operation process_connection process_register process_closing
    calculate_communication_retry_timeout retry_later end_sequence register_op_read_data_model
    register_op_post_connect_operations
process_register_operation-⟶ e c connection h r =
    let c1 = set_registration register_in_progress c in
    let r1 = record c1 {
      register_ctx =
          (register_register c1.register_ctx c1.server_instance.lifetime c1.queue_mode_enabled).0;
    } in
    stay_of (ground (arith, h, r, (run_callbacks-Kept e e.callbacks r1).status_kept))
process_register_operation-⟶ e c register_in_progress h r =
    grind (arith, stay, register, (run_callbacks-Kept e e.callbacks c).status_kept)
process_register_operation-⟶ e c error_handling h r =
    stay_of (ground (arith, retry_status e c, h, r))
process_register_operation-⟶ e c disconnecting h r = grind (arith, stay)
process_register_operation-⟶ e c cleanup h r = grind (arith, stay)
process_register_operation-⟶ e c cleanup_with_failure h r = grind (arith, stay)
process_register_operation-⟶ e c restart h r = grind (arith, stay)
process_register_operation-⟶ e c registration_failure h r =
    grind (arith, boot_again, register_fails)

retry_bootstrap_status :
    (e : Calls) (c : Client)
    → (retry_bootstrap e c).client.server_state.conn_status ≡ c.server_state.conn_status
unfolding retry_bootstrap calculate_retry_timeout
retry_bootstrap_status e c = ground arith

disconnect_bootstrap_status :
    (e : Calls) (c : Client)
    → (disconnect_bootstrap e c).client.server_state.conn_status ≡ c.server_state.conn_status
unfolding disconnect_bootstrap
disconnect_bootstrap_status e c =
    let c' = set_bootstrap retry c in
    ground (
      arith,
      (run_callbacks-Kept e e.callbacks c').status_kept,
      retry_bootstrap_status e (run_callbacks e e.callbacks c'),
    )

send_bootstrap_request_status :
    (e : Calls) (c : Client)
    → (send_bootstrap_request e c).client.server_state.conn_status ≡ c.server_state.conn_status
unfolding send_bootstrap_request
send_bootstrap_request_status e c = ground (arith, (run_callbacks-Kept e e.callbacks c).status_kept)

dispatch_bootstrap_status :
    (e : Calls) (c : Client) (op : Op) (r : Client × ℕ)
    → dispatch_bootstrap e c op ≡ some r
    → r.0.server_state.conn_status ≡ c.server_state.conn_status
unfolding dispatch_bootstrap
dispatch_bootstrap_status e c op r h = ground arith

answer_bootstrap_status :
    (e : Calls) (c : Client) (msg : Msg)
    → (answer_bootstrap e c msg).0.server_state.conn_status ≡ c.server_state.conn_status
unfolding answer_bootstrap
answer_bootstrap_status e c msg = elim (Option-cases (dispatch_bootstrap e c msg.operation)) [
  | inl h ↦ ground (arith, h)
  | inr (r, h) ↦ ground (
    arith,
    h,
    dispatch_bootstrap_status e c msg.operation r h,
    (run_callbacks-Kept e e.incoming_callbacks r.0).status_kept,
  )
]

after_check_status :
    (e : Calls) (c : Client) (msg : Msg) (r : CheckResult)
    → (after_bootstrap_check e c msg r).0.server_state.conn_status ≡ c.server_state.conn_status
unfolding after_bootstrap_check
after_check_status e c msg hit_recent = refl
after_check_status e c msg hit_non_recent = refl
after_check_status e c msg miss = answer_bootstrap_status e c msg

handle_bootstrap_message_status :
    (e : Calls) (c : Client)
    → (handle_bootstrap_message e c).0.server_state.conn_status ≡ c.server_state.conn_status
unfolding handle_bootstrap_message
handle_bootstrap_message_status e c = elim (Option-cases e.message) [
  | inl h ↦ ground (arith, h)
  | inr (msg, h) ↦
      (let checked = cache_check c.exchange_cache e.now msg.message_id in
        ground
          (arith, h, after_check_status e (record c { exchange_cache = checked.0 }) msg checked.1))
]

receive_bootstrap_status :
    (e : Calls) (c : Client)
    → (receive_bootstrap e c).client.server_state.conn_status ≡ c.server_state.conn_status
unfolding receive_bootstrap
receive_bootstrap_status e c = ground (arith, handle_bootstrap_message_status e c)

run_bootstrap_status :
    (e : Calls) (c : Client)
    → (run_bootstrap e c).0.server_state.conn_status ≡ c.server_state.conn_status
unfolding run_bootstrap
run_bootstrap_status e c = refl

handle_bootstrap_process_status :
    (e : Calls) (c : Client)
    → (handle_bootstrap_process e c).client.server_state.conn_status ≡ c.server_state.conn_status
unfolding handle_bootstrap_process
handle_bootstrap_process_status e c =
    let c' = (run_bootstrap e c).0 in
    ground (
      arith,
      run_bootstrap_status e c,
      send_bootstrap_request_status e c',
      receive_bootstrap_status e c',
    )

pub process_bootstrap_operation-⟶ :
    (e : Calls) (c : Client) (s : BootstrapState)
    → c.bootstrap.bootstrap_state ≡ s
    → c.server_state.conn_status ≡ bootstrapping
    → bootstrapping ⟶ (process_bootstrap_operation e c).client.server_state.conn_status
unfolding process_bootstrap_operation connect_bootstrap continue_bootstrap finish_bootstrap
    run_bootstrap
process_bootstrap_operation-⟶ e c boot_connection h r = stay_of (
    ground (
      arith,
      h,
      r,
      send_bootstrap_request_status e (run_bootstrap e (set_bootstrap boot_in_progress c)).0,
    ))
process_bootstrap_operation-⟶ e c boot_in_progress h r =
    let c' = run_callbacks e e.callbacks c in
    stay_of (
      ground (
        arith,
        h,
        r,
        (run_callbacks-Kept e e.callbacks c).status_kept,
        handle_bootstrap_process_status e c',
      ))
process_bootstrap_operation-⟶ e c boot_finished h r = grind (arith, stay, boot)
process_bootstrap_operation-⟶ e c finish_disconnect_and_retry h r =
    stay_of (ground (arith, h, r, disconnect_bootstrap_status e (finish_bootstrap e c)))
process_bootstrap_operation-⟶ e c disconnect_and_retry h r =
    stay_of (ground (arith, h, r, disconnect_bootstrap_status e c))
process_bootstrap_operation-⟶ e c retry h r =
    stay_of (ground (arith, h, r, retry_bootstrap_status e c))
process_bootstrap_operation-⟶ e c waiting h r = grind (arith, stay)
process_bootstrap_operation-⟶ e c boot_error h r = grind (arith, boot_fails)
