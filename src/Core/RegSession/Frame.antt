-- ===== src/Core/RegSession/Frame.antt =====
-- src/anj/core/reg_session.c: the handlers of the session leave its status and state as they are.
use anjay_lite.Base.{arith, ◌≡◌, refl, ◌∙◌, inl, inr, Option-cases}
use anjay_lite.Core.{Client}
use anjay_lite.Core.Callbacks.{run_callbacks-Kept}
use anjay_lite.Core.Calls.{Calls}
use anjay_lite.Coap.{Msg}
use anjay_lite.ExchangeCache.{CheckResult, hit_recent, hit_non_recent, miss, cache_check}
use anjay_lite.Core.Register.{register_deregister}
use anjay_lite.Core.RegSession.{
  after_cache_check, try_send_deregister, handle_incoming_message, handle_registration_update,
  handle_send, handle_observe, dispatch_message, prepare_server_request, prepare_update,
  refresh_registration_related_resources, get_lifetime, get_mute_send,
}

-- What a handler of the session leaves: only the fields that no state depends on may change.
pub record Same (c c' : Client) : Type 0 where
  pub status_same : c'.server_state.conn_status ≡ c.server_state.conn_status
  pub internal_same : c'.session.internal_state ≡ c.session.internal_state
  pub enabled_same : c'.queue_mode_enabled ≡ c.queue_mode_enabled

pub Same-refl : {c : Client} → Same c c
Same-refl = record { status_same = refl; internal_same = refl; enabled_same = refl }

pub Same-trans : {a b c : Client} → Same a b → Same b c → Same a c
Same-trans p q = record {
  status_same = q.status_same ∙ p.status_same;
  internal_same = q.internal_same ∙ p.internal_same;
  enabled_same = q.enabled_same ∙ p.enabled_same;
}

pub dispatch_message-Same :
    (e : Calls) (c : Client) (msg : Msg) → Same c (dispatch_message e c msg).client
unfolding dispatch_message prepare_server_request
dispatch_message-Same e c msg =
    let kept = run_callbacks-Kept e e.incoming_callbacks c in
    record {
      status_same = ground (arith, kept.status_kept);
      internal_same = ground (arith, kept.session_kept);
      enabled_same = ground (arith, kept.enabled_kept);
    }

pub after_cache_check-Same :
    (e : Calls) (c : Client) (msg : Msg) (r : CheckResult)
    → Same c (after_cache_check e c msg r).client
unfolding after_cache_check
after_cache_check-Same e c msg hit_recent = Same-refl
after_cache_check-Same e c msg hit_non_recent = Same-refl
after_cache_check-Same e c msg miss = dispatch_message-Same e c msg

pub handle_incoming_message-Same :
    (e : Calls) (c : Client) → Same c (handle_incoming_message e c).client
unfolding handle_incoming_message
handle_incoming_message-Same e c = elim (Option-cases e.message) [
  | inl h ↦ record {
    status_same = ground (arith, h);
    internal_same = ground (arith, h);
    enabled_same = ground (arith, h);
  }
  | inr (msg, h) ↦
      (let checked = cache_check c.exchange_cache e.now msg.message_id in
        let p = after_cache_check-Same e (record c { exchange_cache = checked.0 }) msg checked.1 in
        record {
          status_same = ground (arith, h, p.status_same);
          internal_same = ground (arith, h, p.internal_same);
          enabled_same = ground (arith, h, p.enabled_same);
        })
]

pub prepare_update-Same : (e : Calls) (c : Client) → Same c (prepare_update e c).0
unfolding prepare_update refresh_registration_related_resources get_lifetime get_mute_send
prepare_update-Same e c = record {
  status_same = ground arith;
  internal_same = ground arith;
  enabled_same = ground arith;
}

pub handle_registration_update-Same :
    (e : Calls) (c : Client) → Same c (handle_registration_update e c).client
unfolding handle_registration_update
handle_registration_update-Same e c =
    let p = prepare_update-Same e c in
    let kept = run_callbacks-Kept e e.callbacks (prepare_update e c).0 in
    record {
      status_same = ground (arith, p.status_same, kept.status_kept);
      internal_same = ground (arith, p.internal_same, kept.session_kept);
      enabled_same = ground (arith, p.enabled_same, kept.enabled_kept);
    }

pub handle_send-Same : (e : Calls) (c : Client) → Same c (handle_send e c).client
unfolding handle_send
handle_send-Same e c =
    let kept = run_callbacks-Kept e e.callbacks c in
    record {
      status_same = ground (arith, kept.status_kept);
      internal_same = ground (arith, kept.session_kept);
      enabled_same = ground (arith, kept.enabled_kept);
    }

pub handle_observe-Same : (e : Calls) (c : Client) → Same c (handle_observe e c).client
unfolding handle_observe
handle_observe-Same e c =
    let kept = run_callbacks-Kept e e.callbacks c in
    record {
      status_same = ground (arith, kept.status_kept);
      internal_same = ground (arith, kept.session_kept);
      enabled_same = ground (arith, kept.enabled_kept);
    }

pub try_send_deregister-Same : (e : Calls) (c : Client) → Same c (try_send_deregister e c).client
unfolding try_send_deregister register_deregister
try_send_deregister-Same e c =
    let kept =
      run_callbacks-Kept e e.callbacks
        (record c { register_ctx = (register_deregister c.register_ctx).0 }) in
    record {
      status_same = ground (arith, kept.status_kept);
      internal_same = ground (arith, kept.session_kept);
      enabled_same = ground (arith, kept.enabled_kept);
    }
