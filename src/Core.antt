-- ===== src/Core.antt =====
-- include_public/anj/core.h, include_public/anj_internal/core.h and src/anj/core/core.c: the client's
-- connection with its server. This file has the state that the sessions share, what one call sees of
-- the modules below it, and the operations with which a user or the server forces a transition.
pub mod Register
pub mod BootstrapRun
pub mod Calls
pub mod RegSession
pub mod Registering
pub mod Bootstrapping
pub mod Run
pub mod Callbacks
pub mod Status
pub mod Rounds
pub mod Suspension
pub mod Quiet
mod Examples
mod Tests
use anjay_lite.Base.{ℕ, Bool, true, false, ◌||◌, List, [], ◌∷◌, Option, none, some, if◌then◌else◌}
use anjay_lite.Base.Int.{ℤ, pos}
use anjay_lite.Coap.{Msg}
use anjay_lite.Exchange.{Result}
use anjay_lite.ExchangeCache.{Cache}
use anjay_lite.Time.{
  Duration, Monotonic, second, invalid, duration_is_valid, duration_new, duration_add,
}

-- `anj_conn_status_t`
pub data ConnStatus : Type 0 where
  initial invalid_status failure bootstrapping bootstrapped registering : ConnStatus
  registered suspended entering_queue_mode queue_mode : ConnStatus

-- `_anj_core_next_action_t`
pub data NextAction : Type 0 where
  continue leave : NextAction

-- The results of the network: `ANJ_NET_OK`, `ANJ_NET_EAGAIN`, `ANJ_NET_EINPROGRESS`, any other.
pub data NetResult : Type 0 where
  net_ok net_again net_in_progress net_failed : NetResult

-- The `_ANJ_SRV_MAN_STATE_..._IN_PROGRESS` states of a registered client
pub data SessionState : Type 0 where
  idle queue exchange disconnect entering_queue exiting_queue : SessionState

-- The `_ANJ_SRV_REG_STATE_...` states of a registration
pub data RegistrationState : Type 0 where
  connection register_in_progress error_handling disconnecting cleanup : RegistrationState
  cleanup_with_failure restart registration_failure : RegistrationState

-- The `_ANJ_SRV_BOOTSTRAP_STATE_...` states of a bootstrap
pub data BootstrapState : Type 0 where
  boot_connection boot_in_progress boot_finished finish_disconnect_and_retry : BootstrapState
  disconnect_and_retry retry waiting boot_error : BootstrapState

-- `server_state`, less the union `details`
pub record ServerState : Type 0 where
  pub disable_triggered : Bool
  pub enable_time : Monotonic
  pub enable_time_user_triggered : Monotonic
  pub registration_update_triggered : Bool
  pub bootstrap_request_triggered : Bool
  pub restart_triggered : Bool
  pub conn_status : ConnStatus

-- `details.registered`
pub record Session : Type 0 where
  pub next_update_time : Monotonic
  pub queue_start_time : Monotonic
  pub update_with_lifetime : Bool
  pub update_with_payload : Bool
  pub internal_state : SessionState
  pub transition_forced : Bool

-- `details.registration`
pub record Registration : Type 0 where
  pub retry_count : ℕ
  pub retry_seq_count : ℕ
  pub retry_timeout : Monotonic
  pub registration_state : RegistrationState

-- `details.bootstrap`
pub record Bootstrap : Type 0 where
  pub bootstrap_state : BootstrapState
  pub bootstrap_retry_attempt : ℕ
  pub bootstrap_timeout : Monotonic

-- `anj_communication_retry_res_t`
pub record RetryRes : Type 0 where
  pub retry_count : ℕ
  pub retry_timer : ℕ
  pub seq_delay_timer : ℕ
  pub seq_retry_count : ℕ

-- `server_instance`, less `observe_state`
pub record ServerInstance : Type 0 where
  pub ssid : ℕ
  pub iid : ℕ
  pub lifetime : Duration
  pub retry_res : RetryRes
  pub bootstrap_on_registration_failure : Bool
  pub mute_send : Bool

-- The `REGISTER_INTERNAL_STATE_...` states
pub data RegisterState : Type 0 where
  init registering_op deregistering updating finished_op error_op : RegisterState

-- `_anj_register_ctx_t`: the locations are the bytes of `location_path` up to `location_path_len`,
-- as many as ANJ_COAP_MAX_LOCATION_PATHS_NUMBER.
pub record RegisterCtx : Type 0 where
  pub internal_state : RegisterState
  pub location_path : List (List ℕ)
  pub with_payload : Bool

-- The error codes of `_anj_bootstrap_ctx_t`
pub data BootstrapCode : Type 0 where
  in_progress_code new_request_to_send bootstrap_finished err_exchange err_network : BootstrapCode
  err_validation err_timeout : BootstrapCode

-- `_anj_bootstrap_ctx_t`
pub record BootstrapCtx : Type 0 where
  pub in_progress : Bool
  pub bootstrap_finish_handled : Bool
  pub error_code : BootstrapCode
  pub bootstrap_finish_timeout : Monotonic
  pub bootstrap_lifetime : Duration

-- The part of `anj_t` that the sessions work on. The three members of the union `details` stand side
-- by side: a session reads its own member only, which its start operation sets.
pub record Client : Type 0 where
  pub server_state : ServerState
  pub session : Session
  pub registration : Registration
  pub bootstrap : Bootstrap
  pub server_instance : ServerInstance
  pub client_hold_off_time : Duration
  pub register_ctx : RegisterCtx
  pub bootstrap_ctx : BootstrapCtx
  pub queue_mode_enabled : Bool
  pub queue_mode_timeout : Duration
  pub bootstrap_retry_count : ℕ
  pub bootstrap_retry_timeout : Duration
  pub exchange_cache : Cache

-- What the handlers do to the client while an exchange is carried out: the server executes a
-- resource, or the user calls a function of the interface.
pub data Trigger : Type 0 where
  disable_executed : (timeout : ℕ) → Trigger
  update_executed bootstrap_executed : Trigger
  disable_server : (timeout : Duration) → Trigger
  request_update request_bootstrap restart_client : Trigger

-- `_anj_core_state_transition_forced`
unfoldable pub state_transition_forced : Client → Bool
state_transition_forced c =
    c.server_state.bootstrap_request_triggered || c.server_state.restart_triggered
    || c.server_state.disable_triggered

-- `_anj_core_state_transition_clear`
abbrev pub state_transition_clear : Client → Client
state_transition_clear c = record c {
  server_state = record c.server_state {
    bootstrap_request_triggered = false;
    restart_triggered = false;
    disable_triggered = false;
  };
}

abbrev pub set_status : ConnStatus → Client → Client
set_status s c = record c { server_state = record c.server_state { conn_status = s } }

abbrev pub is_registered : ConnStatus → Bool
is_registered registered = true
is_registered _ = false

abbrev pub is_suspended : ConnStatus → Bool
is_suspended suspended = true
is_suspended _ = false

abbrev pub is_bootstrap : ConnStatus → Bool
is_bootstrap bootstrapping = true
is_bootstrap bootstrapped = true
is_bootstrap _ = false

abbrev pub status_registered : ConnStatus → Bool
status_registered registered = true
status_registered entering_queue_mode = true
status_registered queue_mode = true
status_registered _ = false

-- `_anj_core_client_registered`
abbrev pub client_registered : Client → Bool
client_registered c = status_registered c.server_state.conn_status

-- The timeout of the Disable resource is in seconds.
unfoldable pub server_obj_disable_executed : Monotonic → ℕ → Client → Client
unfolding duration_add
server_obj_disable_executed now timeout c =
    if is_registered c.server_state.conn_status
    then record c {
      server_state = record c.server_state {
        disable_triggered = true;
        enable_time = duration_add now (duration_new (pos timeout) second);
      };
    }
    else c

unfoldable pub server_obj_registration_update_trigger_executed : Client → Client
server_obj_registration_update_trigger_executed c =
    if is_registered c.server_state.conn_status
    then record c { server_state = record c.server_state { registration_update_triggered = true } }
    else c

unfoldable pub server_obj_bootstrap_request_trigger_executed : Client → Client
server_obj_bootstrap_request_trigger_executed c =
    if is_registered c.server_state.conn_status
    then record c { server_state = record c.server_state { bootstrap_request_triggered = true } }
    else c

unfoldable pub core_request_update : Client → Client
core_request_update c =
    if client_registered c
    then record c { server_state = record c.server_state { registration_update_triggered = true } }
    else c

-- `anj_core_disable_server`; the exchange that it terminates calls its completion handler.
unfoldable pub core_disable_server : Monotonic → Duration → Client → Client
unfolding duration_add
core_disable_server now timeout c =
    let enable = if duration_is_valid timeout then duration_add now timeout else invalid in
    let c' = record c {
      server_state = record c.server_state { enable_time_user_triggered = enable };
    } in
    if is_suspended c.server_state.conn_status || c.server_state.disable_triggered
    then c'
    else record c' { server_state = record c'.server_state { disable_triggered = true } }

unfoldable pub core_request_bootstrap : Client → Client
core_request_bootstrap c =
    if is_bootstrap c.server_state.conn_status || c.server_state.bootstrap_request_triggered
    then c
    else record c { server_state = record c.server_state { bootstrap_request_triggered = true } }

unfoldable pub core_restart : Client → Client
core_restart c =
    if c.server_state.restart_triggered
    then c
    else record c { server_state = record c.server_state { restart_triggered = true } }

unfoldable pub run_trigger : Monotonic → Trigger → Client → Client
unfolding server_obj_disable_executed server_obj_registration_update_trigger_executed
    server_obj_bootstrap_request_trigger_executed core_request_update core_disable_server
    core_request_bootstrap core_restart
run_trigger now (disable_executed timeout) c = server_obj_disable_executed now timeout c
run_trigger now update_executed c = server_obj_registration_update_trigger_executed c
run_trigger now bootstrap_executed c = server_obj_bootstrap_request_trigger_executed c
run_trigger now (disable_server timeout) c = core_disable_server now timeout c
run_trigger now request_update c = core_request_update c
run_trigger now request_bootstrap c = core_request_bootstrap c
run_trigger now restart_client c = core_restart c
