-- ===== src/Core/RegSession/Agreement.antt =====
-- src/anj/core/reg_session.c: how the connection status of a registered client agrees with the state
-- of its session.
use anjay_lite.Base.{arith, ◌≡◌, refl, Bool, true, false, ◌||◌}
use anjay_lite.Core.{
  Client, ConnStatus, registered, entering_queue_mode, queue_mode, SessionState, idle, queue,
  exchange, disconnect, entering_queue, exiting_queue, state_transition_forced, status_registered,
}
use anjay_lite.Core.Callbacks.{run_callbacks-Kept}
use anjay_lite.Core.Calls.{Calls}
use anjay_lite.Core.RegSession.{
  set_forced, try_send_deregister, refresh_queue_mode_timeout, Handled, handle_incoming_message,
  handle_registration_update, handle_send, handle_observe,
}
use anjay_lite.Core.RegSession.Process.{
  process_registered, process_idle, send_requests, process_exchange, process_exiting,
  process_entering, process_disconnect, begin_exchange, get_new_state_for_new_exchange, or_else,
  check_queue_mode, is_queue,
}
use anjay_lite.Core.RegSession.Frame.{
  handle_incoming_message-Same, handle_registration_update-Same, handle_send-Same,
  handle_observe-Same, try_send_deregister-Same,
}

-- The session state of a client that has a registered status; the queue mode only where enabled.
abbrev pub agrees : ConnStatus → SessionState → (enabled : Bool) → Bool
agrees registered idle q = true
agrees registered exchange q = true
agrees registered disconnect q = true
agrees registered _ q = false
agrees entering_queue_mode entering_queue q = q
agrees entering_queue_mode disconnect q = q
agrees entering_queue_mode _ q = false
agrees queue_mode queue q = q
agrees queue_mode exiting_queue q = q
agrees queue_mode disconnect q = q
agrees queue_mode _ q = false
agrees _ _ q = true

abbrev pub consistent : Client → Bool
consistent c = agrees c.server_state.conn_status c.session.internal_state c.queue_mode_enabled

abbrev pub is_idle : SessionState → Bool
is_idle idle = true
is_idle _ = false

send_requests-agrees :
    (e : Calls) (c : Client)
    → (is_queue c.session.internal_state || is_idle c.session.internal_state) ≡ true
    → consistent c ≡ true
    → consistent (send_requests e c).client ≡ true
unfolding send_requests or_else begin_exchange get_new_state_for_new_exchange check_queue_mode
send_requests-agrees e c s k =
    let u = handle_registration_update e c in
    let h2 = handle_send e u.client in
    let h3 = handle_observe e h2.client in
    let p1 = handle_registration_update-Same e c in
    let p2 = handle_send-Same e u.client in
    let p3 = handle_observe-Same e h2.client in
    ground (
      arith, p1.status_same, p1.internal_same, p1.enabled_same, p2.status_same, p2.internal_same,
      p2.enabled_same, p3.status_same, p3.internal_same, p3.enabled_same,
    )

begin_exchange-agrees :
    (h : Handled)
    → (is_queue h.client.session.internal_state || is_idle h.client.session.internal_state) ≡ true
    → consistent h.client ≡ true
    → consistent (begin_exchange h).client ≡ true
unfolding begin_exchange get_new_state_for_new_exchange
begin_exchange-agrees h s k = ground arith

incoming-agrees :
    (e : Calls) (h : Handled)
    → h.client.session.internal_state ≡ idle
    → consistent h.client ≡ true
    → consistent (or_else h (λ c1. send_requests e c1)).client ≡ true
unfolding or_else
incoming-agrees e h s k = ground (
  arith,
  begin_exchange-agrees h (ground arith) k,
  send_requests-agrees e h.client (ground arith) k,
)

process_idle-agrees :
    (e : Calls) (c : Client)
    → c.session.internal_state ≡ idle
    → consistent c ≡ true
    → consistent (process_idle e c).client ≡ true
unfolding process_idle
process_idle-agrees e c s k =
    let d = try_send_deregister e c in
    let p = try_send_deregister-Same e c in
    let f = record d { client = set_forced true d.client } in
    let c' = set_forced false c in
    let h = handle_incoming_message e c' in
    let q = handle_incoming_message-Same e c' in
    ground (
      arith,
      begin_exchange-agrees f (ground (arith, p.internal_same))
          (ground (arith, p.status_same, p.internal_same, p.enabled_same)),
      incoming-agrees e h (ground (arith, q.internal_same))
          (ground (arith, q.status_same, q.internal_same, q.enabled_same)),
      send_requests-agrees e c' (ground arith) (ground arith),
    )

process_exchange-agrees :
    (e : Calls) (c : Client)
    → c.session.internal_state ≡ exchange
    → consistent c ≡ true
    → consistent (process_exchange e c).client ≡ true
unfolding process_exchange refresh_queue_mode_timeout
process_exchange-agrees e c s k =
    let kept = run_callbacks-Kept e e.callbacks c in
    ground (arith, kept.status_kept, kept.session_kept, kept.enabled_kept)

process_disconnect-agrees :
    (e : Calls) (c : Client)
    → c.session.internal_state ≡ disconnect
    → consistent c ≡ true
    → consistent (process_disconnect e c).client ≡ true
unfolding process_disconnect state_transition_forced
process_disconnect-agrees e c s k =
    let kept = run_callbacks-Kept e e.callbacks c in
    ground (arith, kept.status_kept, kept.session_kept, kept.enabled_kept)

process_exiting-agrees :
    (c : Client) → consistent c ≡ true → consistent (process_exiting c).client ≡ true
unfolding process_exiting
process_exiting-agrees c k = ground arith

process_entering-agrees :
    (e : Calls) (c : Client)
    → c.session.internal_state ≡ entering_queue
    → status_registered c.server_state.conn_status ≡ true
    → consistent c ≡ true
    → consistent (process_entering e c).client ≡ true
unfolding process_entering
process_entering-agrees e c s r k = ground arith

consistent-process_registered :
    (e : Calls) (c : Client) (s : SessionState)
    → c.session.internal_state ≡ s
    → status_registered c.server_state.conn_status ≡ true
    → consistent c ≡ true
    → consistent (process_registered e c).client ≡ true
unfolding process_registered
consistent-process_registered e c idle h r k = ground (arith, process_idle-agrees e c h k)
consistent-process_registered e c queue h r k =
    ground (arith, send_requests-agrees e c (ground arith) k)
consistent-process_registered e c exchange h r k = ground (arith, process_exchange-agrees e c h k)
consistent-process_registered e c disconnect h r k =
    ground (arith, process_disconnect-agrees e c h k)
consistent-process_registered e c entering_queue h r k =
    ground (arith, process_entering-agrees e c h r k)
consistent-process_registered e c exiting_queue h r k = ground (arith, process_exiting-agrees c k)

pub process_registered-agrees :
    (e : Calls) (c : Client)
    → status_registered c.server_state.conn_status ≡ true
    → consistent c ≡ true
    → consistent (process_registered e c).client ≡ true
process_registered-agrees e c r k =
    consistent-process_registered e c c.session.internal_state refl r k
