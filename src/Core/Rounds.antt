-- ===== src/Core/Rounds.antt =====
-- src/anj/core/core.c: how the connection status moves in a round of the client's step, and that it
-- agrees with the state of the session.
use anjay_lite.Base.{
  arith, ◌≡◌, refl, Bool, true, false, ◌⊎◌, ◌==◌, if◌then◌else◌, inl, inr, Bool-cases,
}
use anjay_lite.Core.{
  Client, ConnStatus, initial, invalid_status, failure, bootstrapping, bootstrapped, registering,
  registered, suspended, status_registered, SessionState, idle, queue, exchange, disconnect,
  entering_queue, exiting_queue, state_transition_forced,
}
use anjay_lite.Core.Bootstrapping.{
  process_bootstrap_operation, start_bootstrap_operation, bootstrap_op_read_data_model,
  bootstrap_is_needed,
}
use anjay_lite.Core.Callbacks.{run_callbacks-Kept}
use anjay_lite.Core.Calls.{Calls}
use anjay_lite.Core.Registering.{
  process_register_operation, register_op_read_data_model, start_register_operation,
}
use anjay_lite.Core.RegSession.{
  reg_session_init, refresh_queue_mode_timeout, refresh_registration_related_resources,
  get_lifetime, get_mute_send,
}
use anjay_lite.Core.RegSession.Agreement.{consistent, process_registered-agrees}
use anjay_lite.Core.RegSession.Moves.{process_idle_moves, send_requests_moves}
use anjay_lite.Core.RegSession.Process.{
  process_registered, process_exchange, process_entering, process_exiting, process_disconnect,
  process_suspended,
}
use anjay_lite.Core.Run.{
  core_round, choose_step, force_transition, core_step_internal, process_initial,
  init_new_conn_status, status_code,
}
use anjay_lite.Core.Status.{
  ◌⟶◌, stay, misconfigured, need_bootstrap, need_registration, booted, enter_queue, start_queue,
  exit_queue, boot, boot_fails, register, boot_again, register_fails, leave_restart,
  leave_bootstrap, leave_disable, leave_error, give_up, resume, stay_of,
  process_register_operation-⟶, process_bootstrap_operation-⟶,
}

-- Of a registered client, by the state of its session
registered_moves :
    (e : Calls) (c : Client) (s : SessionState)
    → c.session.internal_state ≡ s
    → status_registered c.server_state.conn_status ≡ true
    → consistent c ≡ true
    → c.server_state.conn_status ⟶ (process_registered e c).client.server_state.conn_status
unfolding process_registered process_exchange process_entering process_exiting process_disconnect
    refresh_queue_mode_timeout state_transition_forced
registered_moves e c idle h r k =
    grind (arith, stay, enter_queue, process_idle_moves e c h, h, r, k)
registered_moves e c queue h r k =
    grind (arith, stay, enter_queue, send_requests_moves e c (ground arith), h, r, k)
registered_moves e c exchange h r k =
    stay_of (ground (arith, h, (run_callbacks-Kept e e.callbacks c).status_kept))
registered_moves e c entering_queue h r k = grind (arith, stay, start_queue, h, r, k)
registered_moves e c exiting_queue h r k = grind (arith, stay, exit_queue, h, r, k)
registered_moves e c disconnect h r k = grind (
  arith,
  stay,
  h,
  leave_restart r,
  leave_bootstrap r,
  leave_disable r,
  leave_error r,
  (run_callbacks-Kept e e.callbacks c).status_kept,
)

move_of : {a s : ConnStatus} (b t : ConnStatus) → a ≡ s → b ≡ t → s ⟶ t → a ⟶ b
move_of b t p q m = rw (p, q) m

step_moves :
    (e : Calls) (c : Client) (s : ConnStatus)
    → c.server_state.conn_status ≡ s
    → consistent c ≡ true
    → c.server_state.conn_status ⟶ (core_step_internal e c).client.server_state.conn_status
unfolding core_step_internal process_initial bootstrap_is_needed process_suspended
step_moves e c initial h k = grind (arith, misconfigured, need_bootstrap, need_registration)
step_moves e c invalid_status h k = grind (arith, give_up)
step_moves e c failure h k = grind (arith, stay)
step_moves e c bootstrapping h k =
    move_of (core_step_internal e c).client.server_state.conn_status
      (process_bootstrap_operation e c).client.server_state.conn_status h (cc h)
      (process_bootstrap_operation-⟶ e c c.bootstrap.bootstrap_state refl h)
step_moves e c bootstrapped h k = grind (arith, booted)
step_moves e c registering h k =
    move_of (core_step_internal e c).client.server_state.conn_status
      (process_register_operation e c).client.server_state.conn_status h (cc h)
      (process_register_operation-⟶ e c c.registration.registration_state refl h)
step_moves e c suspended h k = grind (arith, resume, stay)
step_moves e c s h k =
    move_of (core_step_internal e c).client.server_state.conn_status
      (process_registered e c).client.server_state.conn_status refl (ground (arith, h))
      (registered_moves e c c.session.internal_state refl (ground (arith, h)) k)

-- A step of the client moves its connection status along the diagram, where the status of a registered
-- client agrees with the state of its session.
pub core_step_internal-⟶ :
    (e : Calls) (c : Client)
    → consistent c ≡ true
    → c.server_state.conn_status ⟶ (core_step_internal e c).client.server_state.conn_status
core_step_internal-⟶ e c k = step_moves e c c.server_state.conn_status refl k

-- Starting a session keeps a status that is not registered, or makes it invalid.
init_unregistered :
    (e : Calls) (last : ConnStatus) (c : Client)
    → status_registered c.server_state.conn_status ≡ false
    → consistent (init_new_conn_status e last c) ≡ true
unfolding init_new_conn_status start_bootstrap_operation bootstrap_op_read_data_model
    start_register_operation register_op_read_data_model
init_unregistered e last c h = ground arith

init_registered :
    (e : Calls) (last : ConnStatus) (c : Client)
    → last ≡ registering
    → c.server_state.conn_status ≡ registered
    → consistent (init_new_conn_status e last c) ≡ true
unfolding init_new_conn_status reg_session_init refresh_queue_mode_timeout
    refresh_registration_related_resources get_lifetime get_mute_send
init_registered e last c r h = ground arith

init_other :
    (e : Calls) (last : ConnStatus) (c : Client)
    → status_registered last ≡ true
    → consistent c ≡ true
    → consistent (init_new_conn_status e last c) ≡ true
unfolding init_new_conn_status
init_other e last c r k = elim (Bool-cases (status_registered c.server_state.conn_status)) [
  | inl h ↦ ground (arith, h)
  | inr h ↦ init_unregistered e last c h
]

-- Only a client that was registering becomes registered.
becomes_registered :
    {s t : ConnStatus}
    → s ⟶ t
    → status_registered s ≡ false
    → (status_registered t ≡ false) ⊎ ((s ≡ registering) × (t ≡ registered))
becomes_registered stay h = inl h
becomes_registered misconfigured h = inl refl
becomes_registered need_bootstrap h = inl refl
becomes_registered need_registration h = inl refl
becomes_registered boot h = inl refl
becomes_registered boot_fails h = inl refl
becomes_registered booted h = inl refl
becomes_registered register h = inr (refl, refl)
becomes_registered boot_again h = inl refl
becomes_registered register_fails h = inl refl
becomes_registered enter_queue h = ground arith
becomes_registered start_queue h = ground arith
becomes_registered exit_queue h = ground arith
becomes_registered (leave_restart r) h = inl refl
becomes_registered (leave_bootstrap r) h = inl refl
becomes_registered (leave_disable r) h = inl refl
becomes_registered (leave_error r) h = inl refl
becomes_registered give_up h = inl refl
becomes_registered resume h = inl refl

forced_unregistered :
    (e : Calls) (c : Client)
    → status_registered c.server_state.conn_status ≡ false
    → status_registered (force_transition e c).client.server_state.conn_status ≡ false
unfolding force_transition
forced_unregistered e c h = ground arith

choose_unregistered :
    (e : Calls) (c : Client)
    → status_registered c.server_state.conn_status ≡ false
    → (status_registered (choose_step e c).client.server_state.conn_status ≡ false)
      ⊎ ((c.server_state.conn_status ≡ registering)
          × ((choose_step e c).client.server_state.conn_status ≡ registered))
unfolding choose_step
choose_unregistered e c h = elim (Bool-cases (state_transition_forced c)) [
  | inl f ↦ ground (arith, forced_unregistered e c h, f)
  | inr f ↦
      ground (arith, f, h, becomes_registered (core_step_internal-⟶ e c (ground (arith, h))) h)
]

choose_registered :
    (e : Calls) (c : Client)
    → status_registered c.server_state.conn_status ≡ true
    → consistent c ≡ true
    → consistent (choose_step e c).client ≡ true
unfolding choose_step core_step_internal
choose_registered e c h k = ground (arith, h, process_registered-agrees e c h k)

if_either {ℓ} :
    {A : Type ℓ} (b : Bool) (x y : A)
    → ((b ≡ true) × ((if b then x else y) ≡ x)) ⊎ ((if b then x else y) ≡ y)
if_either true x y = inl (refl, refl)
if_either false x y = inr refl

-- A round leaves what the step leaves, where the status is the same, and starts a session otherwise.
round_either :
    (e : Calls) (c : Client)
    → ((status_code (choose_step e c).client.server_state.conn_status
          ≡ status_code c.server_state.conn_status)
        × ((core_round e c).client ≡ (choose_step e c).client))
      ⊎ ((core_round e c).client
          ≡ init_new_conn_status e c.server_state.conn_status (choose_step e c).client)
unfolding core_round
round_either e c =
    let s = choose_step e c in
    let same =
      status_code s.client.server_state.conn_status == status_code c.server_state.conn_status in
    elim (Bool-cases same) [
      | inl h ↦ inl (ground (arith, h), rw (h) refl)
      | inr h ↦ inr (rw (h) refl)
    ]

registered_differs :
    {s t : ConnStatus} → s ≡ registered → t ≡ registering → status_code s ≡ status_code t → ⊥
registered_differs p q n = ground arith

unregistered_consistent :
    (c : Client) → status_registered c.server_state.conn_status ≡ false → consistent c ≡ true
unregistered_consistent c h = ground arith

-- In every round the status of a registered client agrees with the state of its session, and the
-- client is in the queue mode only where that is enabled.
pub consistent-core_round :
    (e : Calls) (c : Client) → consistent c ≡ true → consistent (core_round e c).client ≡ true
unfolding core_round
consistent-core_round e c k =
    let c' = (choose_step e c).client in
    let last = c.server_state.conn_status in
    elim (Bool-cases (status_registered last)) [
      | inl h ↦
          (let d = choose_registered e c h k in
            elim (round_either e c) [
              | inl (_, q) ↦ rw (q) d
              | inr q ↦ rw (q) (init_other e last c' h d)
            ])
      | inr h ↦ elim (choose_unregistered e c h) [
        | inl u ↦ elim (round_either e c) [
          | inl (_, q) ↦ rw (q) (unregistered_consistent c' u)
          | inr q ↦ rw (q) (init_unregistered e last c' u)
        ]
        | inr (r, u) ↦ elim (round_either e c) [
          | inl (n, _) ↦ absurd (registered_differs u r n)
          | inr q ↦ rw (q) (init_registered e last c' r u)
        ]
      ]
    ]
