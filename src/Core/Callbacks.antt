-- ===== src/Core/Callbacks.antt =====
-- src/anj/core: what the handlers of an exchange leave as it is. They set triggers and the results of
-- requests, and touch neither the status nor the state of a session.
use anjay_lite.Base.{arith, ◌≡◌, refl, ◌∙◌, true, List, [], ◌∷◌}
use anjay_lite.Core.{
  Client, run_trigger, server_obj_disable_executed, server_obj_registration_update_trigger_executed,
  server_obj_bootstrap_request_trigger_executed, core_request_update, core_disable_server,
  core_request_bootstrap, core_restart, state_transition_forced,
}
use anjay_lite.Core.Calls.{Calls, Callback, run_callback, run_callbacks}

-- The parts of the client that no handler changes
pub record Kept (c c' : Client) : Type 0 where
  pub status_kept : c'.server_state.conn_status ≡ c.server_state.conn_status
  pub session_kept : c'.session ≡ c.session
  pub registration_kept : c'.registration ≡ c.registration
  pub bootstrap_kept : c'.bootstrap ≡ c.bootstrap
  pub enabled_kept : c'.queue_mode_enabled ≡ c.queue_mode_enabled
  pub instance_kept : c'.server_instance ≡ c.server_instance

pub Kept-refl : (c : Client) → Kept c c
Kept-refl c = record {
  status_kept = refl;
  session_kept = refl;
  registration_kept = refl;
  bootstrap_kept = refl;
  enabled_kept = refl;
  instance_kept = refl;
}

pub Kept-trans : (a b c : Client) → Kept a b → Kept b c → Kept a c
Kept-trans a b c p q = record {
  status_kept = q.status_kept ∙ p.status_kept;
  session_kept = q.session_kept ∙ p.session_kept;
  registration_kept = q.registration_kept ∙ p.registration_kept;
  bootstrap_kept = q.bootstrap_kept ∙ p.bootstrap_kept;
  enabled_kept = q.enabled_kept ∙ p.enabled_kept;
  instance_kept = q.instance_kept ∙ p.instance_kept;
}

run_callback-Kept : (e : Calls) (cb : Callback) (c : Client) → Kept c (run_callback e cb c)
unfolding run_callback run_trigger server_obj_disable_executed
    server_obj_registration_update_trigger_executed server_obj_bootstrap_request_trigger_executed
    core_request_update core_disable_server core_request_bootstrap core_restart
run_callback-Kept e cb c = record {
  status_kept = ground arith;
  session_kept = ground arith;
  registration_kept = ground arith;
  bootstrap_kept = ground arith;
  enabled_kept = ground arith;
  instance_kept = ground arith;
}

pub run_callbacks-Kept :
    (e : Calls) (cbs : List Callback) (c : Client) → Kept c (run_callbacks e cbs c)
unfolding run_callbacks
run_callbacks-Kept e [] c = Kept-refl c
run_callbacks-Kept e (cb ∷ cbs) c =
    Kept-trans c (run_callback e cb c) (run_callbacks e cbs (run_callback e cb c))
      (run_callback-Kept e cb c) (run_callbacks-Kept e cbs (run_callback e cb c))

run_callback-forced :
    (e : Calls) (cb : Callback) (c : Client)
    → state_transition_forced c ≡ true
    → state_transition_forced (run_callback e cb c) ≡ true
unfolding run_callback run_trigger server_obj_disable_executed
    server_obj_registration_update_trigger_executed server_obj_bootstrap_request_trigger_executed
    core_request_update core_disable_server core_request_bootstrap core_restart
    state_transition_forced
run_callback-forced e cb c h = ground arith

-- A forced transition stays forced,
pub run_callbacks-forced :
    (e : Calls) (cbs : List Callback) (c : Client)
    → state_transition_forced c ≡ true
    → state_transition_forced (run_callbacks e cbs c) ≡ true
unfolding run_callbacks
run_callbacks-forced e [] c h = h
run_callbacks-forced e (cb ∷ cbs) c h =
    run_callbacks-forced e cbs (run_callback e cb c) (run_callback-forced e cb c h)

run_callback-restart :
    (e : Calls) (cb : Callback) (c : Client)
    → c.server_state.restart_triggered ≡ true
    → (run_callback e cb c).server_state.restart_triggered ≡ true
unfolding run_callback run_trigger server_obj_disable_executed
    server_obj_registration_update_trigger_executed server_obj_bootstrap_request_trigger_executed
    core_request_update core_disable_server core_request_bootstrap core_restart
run_callback-restart e cb c h = ground arith

-- and a restart stays triggered.
pub run_callbacks-restart :
    (e : Calls) (cbs : List Callback) (c : Client)
    → c.server_state.restart_triggered ≡ true
    → (run_callbacks e cbs c).server_state.restart_triggered ≡ true
unfolding run_callbacks
run_callbacks-restart e [] c h = h
run_callbacks-restart e (cb ∷ cbs) c h =
    run_callbacks-restart e cbs (run_callback e cb c) (run_callback-restart e cb c h)
