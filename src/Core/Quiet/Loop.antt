-- ===== src/Core/Quiet/Loop.antt =====
-- src/anj/core/core.c: the loop of `anj_core_step` ends while the network has nothing new.
use anjay_lite.Base.{
  ℕ, arith, ◌≡◌, refl, ◌∙◌, Option, ◌<◌, ◌≤◌, Bool, true, false, ◌⊎◌, ◌==◌, ◌≢◌, if◌then◌else◌, inl,
  inr, some, none, List, [], ◌∷◌, length,
}
use anjay_lite.Core.{Client, ConnStatus, bootstrapping, registering, registered, continue, leave}
use anjay_lite.Core.Bootstrapping.{start_bootstrap_operation, bootstrap_op_read_data_model}
use anjay_lite.Core.Calls.{Calls, Step}
use anjay_lite.Core.Registering.{register_op_read_data_model, start_register_operation}
use anjay_lite.Core.Run.{core_round, choose_step, core_step, init_new_conn_status, status_code}
use anjay_lite.Core.Quiet.Rounds.{choose_step-Ends}
use anjay_lite.Core.Quiet.{quiet, all_quiet, rank, start_rank}

rank_bound : (c : Client) → rank c ≤ 4
rank_bound c = ground arith

init_bootstrapping :
    (e : Calls) (last : ConnStatus) (c : Client)
    → c.server_state.conn_status ≡ bootstrapping
    → rank (init_new_conn_status e last c) ≤ 2
unfolding init_new_conn_status start_bootstrap_operation bootstrap_op_read_data_model
init_bootstrapping e last c h = ground (arith, h)

init_registering :
    (e : Calls) (last : ConnStatus) (c : Client)
    → c.server_state.conn_status ≡ registering
    → rank (init_new_conn_status e last c) ≤ 1
unfolding init_new_conn_status start_register_operation register_op_read_data_model
init_registering e last c h = ground (arith, h)

init_registered :
    (e : Calls) (last : ConnStatus) (c : Client)
    → c.server_state.conn_status ≡ registered
    → rank (init_new_conn_status e last c) ≤ start_rank last c
unfolding init_new_conn_status
init_registered e registering c h =
    ground (arith, h, rank_bound (init_new_conn_status e registering c))
init_registered e last c h = ground (arith, h)

init_rank :
    (e : Calls) (last : ConnStatus) (c : Client) (s : ConnStatus)
    → c.server_state.conn_status ≡ s
    → rank (init_new_conn_status e last c) ≤ start_rank last c
unfolding init_new_conn_status
init_rank e last c bootstrapping h = ground (arith, h, init_bootstrapping e last c h)
init_rank e last c registering h = ground (arith, h, init_registering e last c h)
init_rank e last c registered h = init_registered e last c h
init_rank e last c s h = ground (arith, h)

picked_action :
    (b : Bool) (s : Step) (x : Client)
    → (if b then s else record s { client = x }).action ≡ s.action
picked_action true s x = refl
picked_action false s x = refl

picked_rank :
    (b : Bool) (s : Step) (x : Client) (m n : ℕ)
    → (if b then rank s.client else m) < n
    → rank x ≤ m
    → rank (if b then s else record s { client = x }).client < n
picked_rank true s x m n h k = h
picked_rank false s x m n h k = omega (arith, h, k)

step_leaves :
    (s : Step) (rest : Option Client)
    → s.action ≡ leave
    → (elim s.action as (λ _. Option Client) [ leave ↦ some s.client | continue ↦ rest ]) ≢ none
step_leaves s rest h = ground arith

step_continues :
    (s : Step) (rest : Option Client)
    → (elim s.action as (λ _. Option Client) [ leave ↦ some s.client | continue ↦ rest ]) ≡ none
    → rest ≡ none
step_continues s rest h = ground arith

round_ends :
    (e : Calls) (c : Client)
    → quiet e ≡ true
    → ((core_round e c).action ≡ leave) ⊎ (rank (core_round e c).client < rank c)
unfolding core_round
round_ends e c q =
    let last = c.server_state.conn_status in
    let s = choose_step e c in
    let same = status_code s.client.server_state.conn_status == status_code last in
    let next = init_new_conn_status e last s.client in
    elim (choose_step-Ends e c q) [
      | inl h ↦ inl (picked_action same s next ∙ h)
      | inr m ↦ inr (
          picked_rank same s next (start_rank last s.client) (rank c) m
            (init_rank e last s.client s.client.server_state.conn_status refl))
    ]

core_step-rank :
    (es : List Calls) (c : Client)
    → all_quiet es ≡ true
    → rank c ≤ length es
    → core_step es c ≢ none
unfolding core_step
core_step-rank [] c q h = ground arith
core_step-rank (e ∷ es) c q h = elim (round_ends e c (ground arith)) [
  | inl l ↦ step_leaves (core_round e c) (core_step es (core_round e c).client) l
  | inr m ↦ λ p.
      core_step-rank es (core_round e c).client (ground arith) (omega (arith, m, h))
        (step_continues (core_round e c) (core_step es (core_round e c).client) p)
]

-- While the network is quiet, the loop of the client's step ends within four rounds, whatever state
-- the client is in.
pub core_step_ends :
    (es : List Calls) (c : Client) → all_quiet es ≡ true → 4 ≤ length es → core_step es c ≢ none
core_step_ends es c q h = core_step-rank es c q (omega (arith, rank_bound c))
