-- ===== src/Core/Register.antt =====
-- src/anj/core/register.c: the Register, Update and De-register requests, and what the client keeps
-- of the responses.
pub mod Locations
use anjay_lite.Base.{ℕ, Bool, true, false, List, [], ◌∷◌, Option, if◌then◌else◌, ltb, length}
use anjay_lite.Exchange.{Result, success}
use anjay_lite.Time.{Duration}
use anjay_lite.Core.{
  RegisterCtx, RegisterState, init, registering_op, deregistering, updating, finished_op, error_op,
}

-- ANJ_COAP_MAX_LOCATION_PATHS_NUMBER and ANJ_COAP_MAX_LOCATION_PATH_SIZE
pub record Limits : Type 0 where
  pub paths_number : ℕ
  pub path_size : ℕ

-- The requests that the sessions hand to the exchange, with the fields that they set.
pub data Request : Type 0 where
  register_request : (lifetime : Duration) → (has_q : Bool) → Request
  update_request :
      (lifetime : Option Duration)
      → (with_payload : Bool) → (location_path : List (List ℕ)) → Request
  deregister_request : (location_path : List (List ℕ)) → Request
  send_request notify_request bootstrap_request : Request
  -- the response to a request of the server, with its code
  server_response : (operation : ℕ) → (response_code : ℕ) → Request

-- The loop over the locations of the response: what is kept before one that is too long, and whether
-- all of them fit.
unfoldable pub copy_locations : (path_size : ℕ) → List (List ℕ) → List (List ℕ) × Bool
copy_locations path_size [] = ([], true)
copy_locations path_size (l ∷ ls) =
    let rest = copy_locations path_size ls in
    if ltb path_size (length l) then ([], false) else (l ∷ rest.0, rest.1)

-- The locations beyond those copied keep what they held.
unfoldable pub overwrite : List (List ℕ) → List (List ℕ) → List (List ℕ)
overwrite [] old = old
overwrite (l ∷ ls) [] = l ∷ ls
overwrite (l ∷ ls) (o ∷ os) = l ∷ overwrite ls os

abbrev pub is_registering : RegisterState → Bool
is_registering registering_op = true
is_registering _ = false

abbrev pub is_success : Result → Bool
is_success success = true
is_success _ = false

unfoldable pub store_locations : List (List ℕ) × Bool → RegisterCtx → RegisterCtx
unfolding overwrite
store_locations copied ctx = record ctx {
  location_path = overwrite copied.0 ctx.location_path;
  internal_state = if copied.1 then finished_op else error_op;
}

-- `request_completion_callback`, less the completion handler of the payload
unfoldable pub request_completion_callback :
    Limits → RegisterCtx → (location_path : List (List ℕ)) → Result → RegisterCtx
unfolding copy_locations store_locations
request_completion_callback limits ctx locations result =
    if is_success result
    then if is_registering ctx.internal_state
      then store_locations (copy_locations limits.path_size locations) ctx
      else record ctx { internal_state = finished_op }
    else record ctx { internal_state = error_op }

-- `write_location_paths`: the locations up to an empty one, or to the end of the array.
unfoldable pub write_location_paths : List (List ℕ) → List (List ℕ)
write_location_paths [] = []
write_location_paths ([] ∷ ls) = []
write_location_paths ((b ∷ bs) ∷ ls) = (b ∷ bs) ∷ write_location_paths ls

-- `_anj_register_ctx_init`
abbrev pub register_ctx_init : RegisterCtx
register_ctx_init = record { internal_state = init; location_path = []; with_payload = false }

-- `_anj_register_register` clears the lengths of the locations.
abbrev pub register_register :
    RegisterCtx → (lifetime : Duration) → (has_q : Bool) → RegisterCtx × Request
register_register ctx lifetime has_q = (
  record { internal_state = registering_op; location_path = []; with_payload = true },
  register_request lifetime has_q,
)

-- `_anj_register_update`; no lifetime is the null pointer.
unfoldable pub register_update :
    RegisterCtx → Option Duration → (with_payload : Bool) → RegisterCtx × Request
unfolding write_location_paths
register_update ctx lifetime with_payload = (
  record ctx { with_payload = with_payload; internal_state = updating },
  update_request lifetime with_payload (write_location_paths ctx.location_path),
)

-- `_anj_register_deregister`
unfoldable pub register_deregister : RegisterCtx → RegisterCtx × Request
unfolding write_location_paths
register_deregister ctx = (
  record ctx { with_payload = false; internal_state = deregistering },
  deregister_request (write_location_paths ctx.location_path),
)

-- The values of `_ANJ_REGISTER_OPERATION_...`
pub data OperationStatus : Type 0 where
  operation_in_progress operation_finished operation_error : OperationStatus

-- `_anj_register_operation_status`
abbrev pub register_operation_status : RegisterCtx → OperationStatus
register_operation_status ctx = elim ctx.internal_state [
  | init ↦ operation_error
  | error_op ↦ operation_error
  | registering_op ↦ operation_in_progress
  | deregistering ↦ operation_in_progress
  | updating ↦ operation_in_progress
  | finished_op ↦ operation_finished
]
