-- ===== src/Core/RegSession/Moves.antt =====
-- src/anj/core/reg_session.c: the connection status that a step of the session leaves.
use anjay_lite.Base.{arith, ◌≡◌, true, false, ◌||◌, ◌⊎◌}
use anjay_lite.Core.{Client, ConnStatus, entering_queue_mode, SessionState, idle}
use anjay_lite.Core.Calls.{Calls}
use anjay_lite.Core.RegSession.{
  set_forced, handle_incoming_message, handle_registration_update, handle_send, handle_observe,
}
use anjay_lite.Core.RegSession.Agreement.{is_idle}
use anjay_lite.Core.RegSession.Frame.{
  handle_incoming_message-Same, handle_registration_update-Same, handle_send-Same,
  handle_observe-Same, try_send_deregister-Same,
}
use anjay_lite.Core.RegSession.Process.{
  is_queue, process_idle, send_requests, begin_exchange, or_else, check_queue_mode,
}

-- The status is kept, or the queue mode is entered.
abbrev pub KeptOrQueued : (before after : ConnStatus) → (state : SessionState) → Type 0
KeptOrQueued before after state =
    (after ≡ before) ⊎ ((after ≡ entering_queue_mode) × (state ≡ idle))

check_queue_mode_moves :
    (e : Calls) (c : Client)
    → (is_queue c.session.internal_state || is_idle c.session.internal_state) ≡ true
    → KeptOrQueued c.server_state.conn_status
        (check_queue_mode e c).client.server_state.conn_status
        c.session.internal_state
unfolding check_queue_mode
check_queue_mode_moves e c s = ground arith

pub send_requests_moves :
    (e : Calls) (c : Client)
    → (is_queue c.session.internal_state || is_idle c.session.internal_state) ≡ true
    → KeptOrQueued c.server_state.conn_status
        (send_requests e c).client.server_state.conn_status
        c.session.internal_state
unfolding send_requests or_else begin_exchange
send_requests_moves e c s =
    let h1 = handle_registration_update e c in
    let h2 = handle_send e h1.client in
    let h3 = handle_observe e h2.client in
    let p1 = handle_registration_update-Same e c in
    let p2 = handle_send-Same e h1.client in
    let p3 = handle_observe-Same e h2.client in
    let last =
      check_queue_mode_moves e h3.client
        (cc (p1.internal_same, p2.internal_same, p3.internal_same, s)) in
    ground (
      arith, p1.status_same, p1.internal_same, p2.status_same, p2.internal_same, p3.status_same,
      p3.internal_same, last,
    )

pub process_idle_moves :
    (e : Calls) (c : Client)
    → c.session.internal_state ≡ idle
    → KeptOrQueued c.server_state.conn_status
        (process_idle e c).client.server_state.conn_status
        idle
unfolding process_idle or_else begin_exchange
process_idle_moves e c s =
    let c' = set_forced false c in
    let h = handle_incoming_message e c' in
    let q = handle_incoming_message-Same e c' in
    ground (
      arith,
      (try_send_deregister-Same e c).status_same,
      q.status_same,
      q.internal_same,
      send_requests_moves e h.client (ground (arith, q.internal_same)),
      send_requests_moves e c' (ground arith),
    )
