-- ===== src/Core/Calls.antt =====
-- src/anj/core: what one call of a session sees of the modules below it (the network, the exchange,
-- the data model and the clock), and what their handlers do to the client.
use anjay_lite.Base.{
  ℕ, ◌-◌, Bool, true, false, none, some, ◌||◌, ◌==◌, if◌then◌else◌, List, [], ◌∷◌, Option,
}
use anjay_lite.Base.Int.{ℤ}
use anjay_lite.Coap.{Msg}
use anjay_lite.Core.{
  Client, NextAction, NetResult, net_ok, net_again, net_in_progress, Trigger, run_trigger,
}
use anjay_lite.Core.BootstrapRun.{
  bootstrap_finish_completion_callback, bootstrap_request_completion_callback,
}
use anjay_lite.Core.Register.{Limits, Request, request_completion_callback}
use anjay_lite.Exchange.{Result}
use anjay_lite.Time.{Duration, Monotonic, duration_shift}

-- A handler that the exchange or the data model runs during a call.
pub data Callback : Type 0 where
  register_completion : (location_path : List (List ℕ)) → Result → Callback
  bootstrap_request_completion bootstrap_finish_completion : Result → Callback
  trigger : Trigger → Callback

-- The resources of the Server object that the sessions read with `anj_dm_res_read`; `none` is a read
-- that fails.
pub record ServerObject : Type 0 where
  pub lifetime : Option ℤ
  pub retry_count : Option ℕ
  pub retry_timer : Option ℕ
  pub seq_delay_timer : Option ℕ
  pub seq_retry_count : Option ℕ
  pub bootstrap_on_registration_failure : Option Bool
  pub mute_send : Option Bool

-- What one call sees. The clock is read once. A call makes at most one request of the exchange beyond
-- the response to an incoming message, so one field stands for its handlers and one for those of the
-- response.
pub record Calls : Type 0 where
  pub now : Monotonic
  -- What a delay becomes where the shift that doubles it is undefined
  pub undefined_delay : Duration
  -- `_anj_srv_conn_connect`, `_close`, `_receive`, `_handle_request` and `_queue_mode_rx_off`
  pub connect_result : NetResult
  pub close_result : NetResult
  pub receive_result : NetResult
  pub handle_result : NetResult
  pub rx_off_result : NetResult
  -- What `_anj_coap_decode_udp` makes of the datagram; `none` is an error.
  pub message : Option Msg
  -- The response code that the data model or the observe module gives to it.
  pub response_code : ℕ
  -- `_anj_srv_conn_prepare_server_request` and `_prepare_client_request` return 0.
  pub response_prepared : Bool
  pub request_prepared : Bool
  pub incoming_callbacks : List Callback
  pub callbacks : List Callback
  -- `_anj_lwm2m_send_process` and `_anj_observe_process` leave a message to send.
  pub send_ready : Bool
  pub notification_ready : Bool
  pub max_transmit_wait : Duration
  pub limits : Limits
  pub server_object : ServerObject
  -- `_anj_dm_get_server_obj_instance_data`, with ANJ_ID_INVALID where there is no instance
  pub server_instance_data : Option (ℕ × ℕ)
  -- `_anj_dm_get_security_obj_instance_iid`, and the reading of the URI and the keys, succeed.
  pub security_instance_found : Bool
  pub server_uri_resolved : Bool
  pub client_hold_off_time : Option ℤ
  pub bootstrap_validation_ok : Bool

-- A request that `_anj_srv_conn_prepare_client_request` or `_prepare_server_request` has taken on: where
-- it fails, nothing goes out.
abbrev pub if_prepared : Bool → Request → Option Request
if_prepared prepared r = if prepared then some r else none

-- The delay before an attempt: "1 << (attempt - 1)" times `d`, where attempt 0 shifts by -1
abbrev pub delay_before : Calls → Duration → (attempt : ℕ) → Duration
delay_before e d attempt =
    if attempt == 0 then e.undefined_delay else duration_shift e.undefined_delay d (attempt - 1)

abbrev pub is_ok : NetResult → Bool
is_ok net_ok = true
is_ok _ = false

abbrev pub is_again : NetResult → Bool
is_again net_again = true
is_again _ = false

abbrev pub is_in_progress : NetResult → Bool
is_in_progress net_in_progress = true
is_in_progress _ = false

-- "anj_net_is_again(res) || anj_net_is_inprogress(res)"
abbrev pub is_pending : NetResult → Bool
is_pending r = is_again r || is_in_progress r

unfoldable pub run_callback : Calls → Callback → Client → Client
unfolding run_trigger request_completion_callback bootstrap_request_completion_callback
    bootstrap_finish_completion_callback
run_callback e (register_completion locations result) c = record c {
  register_ctx = request_completion_callback e.limits c.register_ctx locations result;
}
run_callback e (bootstrap_request_completion result) c = record c {
  bootstrap_ctx = bootstrap_request_completion_callback c.bootstrap_ctx result;
}
run_callback e (bootstrap_finish_completion result) c = record c {
  bootstrap_ctx = bootstrap_finish_completion_callback c.bootstrap_ctx result;
}
run_callback e (trigger t) c = run_trigger e.now t c

unfoldable pub run_callbacks : Calls → List Callback → Client → Client
unfolding run_callback
run_callbacks e [] c = c
run_callbacks e (cb ∷ cbs) c = run_callbacks e cbs (run_callback e cb c)

-- What a session's step returns: the client, the next action, and the request with which it began an
-- exchange, through `_anj_srv_conn_prepare_client_request` or `_anj_srv_conn_prepare_server_request`.
pub record Step : Type 0 where
  pub client : Client
  pub action : NextAction
  pub request : Option Request
