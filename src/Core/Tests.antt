-- ===== src/Core/Tests.antt =====
-- Tests of the client core, and the properties at concrete clients.
use anjay_lite.Base.{arith, ◌≡◌, refl, ◌≢◌, ◌↔◌, ◌+◌, ◌/◌, true, false, List, [], ◌∷◌, none}
use anjay_lite.Base.Int.{pos, ◌≤ℤ◌}
use anjay_lite.Core.{
  state_transition_forced, registered, registering, suspended, core_disable_server, Client,
  net_again,
}
use anjay_lite.Core.Calls.{Calls}
use anjay_lite.Core.Examples.{seconds, client, restarting_client, with_status, working, pending}
use anjay_lite.Core.Quiet.Loop.{core_step_ends}
use anjay_lite.Core.Register.{
  update_request, deregister_request, register_register, request_completion_callback,
  register_update, register_deregister,
}
use anjay_lite.Core.Register.Locations.{register_update-register_register}
use anjay_lite.Core.Registering.{start_register_operation, read_retry_res}
use anjay_lite.Core.Registering.Attempts.{
  gave_up, after_errors, after_errors-start_register_operation,
}
use anjay_lite.Core.RegSession.{calculate_next_update, update_needed, handle_registration_update}
use anjay_lite.Core.RegSession.Agreement.{consistent}
use anjay_lite.Core.RegSession.Leaving.{left, session_rounds, session_rounds-leaves}
use anjay_lite.Core.RegSession.Process.{process_suspended, process_registered}
use anjay_lite.Core.RegSession.Updates.{
  calculate_next_update_bounds, update_needed-handle_registration_update, is_update, Due,
  objects_changed, process_registered-Due,
}
use anjay_lite.Core.Rounds.{core_step_internal-⟶, consistent-core_round}
use anjay_lite.Core.Run.{core_step_internal, core_round, core_step}
use anjay_lite.Core.Status.{◌⟶◌}
use anjay_lite.Core.Suspension.{process_suspended-core_disable_server}
use anjay_lite.Exchange.{success}
use anjay_lite.Time.{duration_add}

abbrev six : List Calls
six = working ∷ working ∷ working ∷ working ∷ working ∷ working ∷ []

session_rounds-leaves_example : left true (session_rounds six restarting_client) ≡ true
unfolding state_transition_forced
session_rounds-leaves_example =
    session_rounds-leaves six restarting_client refl (omega arith) refl refl

core_step_internal-⟶_example :
    registered ⟶ (core_step_internal working restarting_client).client.server_state.conn_status
core_step_internal-⟶_example = core_step_internal-⟶ working restarting_client refl

consistent-core_round_example : consistent (core_round working restarting_client).client ≡ true
consistent-core_round_example = consistent-core_round working restarting_client refl

calculate_next_update_bounds_example :
    (pos (100000000 + 60000000 / 2)
      ≤ℤ calculate_next_update (pos 100000000) (pos 93000000) (pos 60000000))
    × (calculate_next_update (pos 100000000) (pos 93000000) (pos 60000000)
        ≤ℤ pos (100000000 + 60000000))
calculate_next_update_bounds_example =
    calculate_next_update_bounds 100000000 93000000 60000000 (omega arith) (omega arith)
      (omega arith)

update_needed-handle_registration_update_example :
    update_needed working (handle_registration_update working client).client ≡ false
update_needed-handle_registration_update_example =
    update_needed-handle_registration_update working client refl refl

-- An idle client whose objects have changed, and no message at the socket
abbrev changed_client : Client
changed_client = record client { session = record client.session { update_with_payload = true } }

abbrev no_message : Calls
no_message = record working { receive_result = net_again }

process_registered-Due_example :
    (is_update (process_registered no_message changed_client).request ≡ true)
    ↔ (Due no_message changed_client × (no_message.request_prepared ≡ true))
unfolding state_transition_forced
process_registered-Due_example = process_registered-Due no_message changed_client refl refl

-- The Update goes out.
update_sent : is_update (process_registered no_message changed_client).request ≡ true
unfolding state_transition_forced
update_sent = process_registered-Due_example.1 (objects_changed refl, refl)

process_suspended-core_disable_server_example :
    (process_suspended working (
      core_disable_server
        (seconds 50)
        (seconds 60)
        (with_status suspended))).client.server_state.conn_status
    ≡ suspended
unfolding duration_add
process_suspended-core_disable_server_example =
    process_suspended-core_disable_server working (seconds 50) (seconds 60) (with_status suspended)
      refl refl refl refl refl

after_errors-start_register_operation_example :
    gave_up
      (after_errors (λ n. working) 4 (start_register_operation working (with_status registering)).0)
    ≡ true
unfolding start_register_operation read_retry_res
after_errors-start_register_operation_example =
    after_errors-start_register_operation working (λ n. working) 4 (with_status registering) refl
      (omega arith) (omega arith) (λ i. refl) (omega arith)

register_update-register_register_example :
    ((register_update
        (request_completion_callback working.limits
          (register_register client.register_ctx (seconds 60) false).0
          ((53 ∷ []) ∷ [])
          success)
        none
        true).1
      ≡ update_request none true ((53 ∷ []) ∷ []))
    × ((register_deregister (
          request_completion_callback working.limits
            (register_register client.register_ctx (seconds 60) false).0
            ((53 ∷ []) ∷ [])
            success)).1
        ≡ deregister_request ((53 ∷ []) ∷ []))
register_update-register_register_example =
    register_update-register_register working.limits client.register_ctx ((53 ∷ []) ∷ [])
      (seconds 60) false none true refl

core_step_ends_example : core_step (pending ∷ pending ∷ pending ∷ pending ∷ []) client ≢ none
core_step_ends_example =
    core_step_ends (pending ∷ pending ∷ pending ∷ pending ∷ []) client refl (omega arith)
