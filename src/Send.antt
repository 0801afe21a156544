-- ===== src/Send.antt =====
-- src/anj/core/lwm2m_send.c: the queue of LwM2M Send requests. A finished handler is the value of
-- type `Finished` that says how it is called; handlers that call functions of the queue are not modelled.
pub mod Queue
pub mod Abort
mod Tests
use anjay_lite.Base.{
  ℕ, suc, ◌+◌, ◌%◌, ◌^◌, ◌-◌, Bool, true, false, not, ◌&&◌, ◌||◌, ◌==◌, List, [], ◌∷◌, ◌++◌, Option,
  none, some, if◌then◌else◌, length,
}
use anjay_lite.Exchange.{
  Result, success, error_timeout, error_server_response, error_request, error_network,
  error_protocol, error_terminated,
}
use anjay_lite.Utils.UriPath.{UriPath, uri_path_has, uri_path_equal}

-- `anj_send_request_t`; of a record, only its path matters here.
pub record SendRequest : Type 0 where
  pub records : List UriPath
  pub has_handler : Bool
  pub user_data : ℕ
  pub lwm2m_cbor : Bool

-- An element of `ids` with that of `requests_queue`; a free slot has the number 0.
pub record Slot : Type 0 where
  pub id : ℕ
  pub request : SendRequest

-- `_anj_send_ctx_t`
pub record SendCtx : Type 0 where
  pub slots : List Slot
  pub active_exchange : Bool
  pub abort_in_progress : Bool
  pub send_id_counter : ℕ
  pub data_to_copy : Bool
  pub op_count : ℕ

-- `anj_send_errors`
pub data SendResult : Type 0 where
  send_success err_timeout err_abort err_rejected err_network err_internal : SendResult
  err_no_request_found err_no_space err_not_allowed err_data_not_valid : SendResult

-- A call of a finished handler
pub record Finished : Type 0 where
  pub finished_slot : Slot
  pub result : SendResult

abbrev pub send_id_all : ℕ
send_id_all = 2 ^ 16 - 1

-- The loop that looks for the same path behind a record
unfoldable pub has_duplicate : UriPath → List UriPath → Bool
unfolding uri_path_equal
has_duplicate path [] = false
has_duplicate path (p ∷ ps) = uri_path_equal path p || has_duplicate path ps

-- The loop over the records
unfoldable pub records_valid : (lwm2m_cbor : Bool) → List UriPath → Bool
unfolding has_duplicate
records_valid cbor [] = true
records_valid cbor (p ∷ ps) =
    uri_path_has p 2 && not (cbor && has_duplicate p ps) && records_valid cbor ps

unfoldable pub request_valid : SendRequest → Bool
unfolding records_valid
request_valid r =
    r.has_handler && not (length r.records == 0) && records_valid r.lwm2m_cbor r.records

-- The first free slot is taken; `none` where there is no free one.
unfoldable pub put_slot : List Slot → Slot → Option (List Slot)
put_slot [] s = none
put_slot (t ∷ ts) s =
    let rest = put_slot ts s in
    if t.id == 0 then some (s ∷ ts) else elim rest [ none ↦ none | some us ↦ some (t ∷ us) ]

abbrev pub next_send_id : ℕ → ℕ
next_send_id counter =
    let next = (counter + 1) % 2 ^ 16 in if next == 0 || next == send_id_all then 1 else next

-- `anj_send_new_request`: the error, or the number of the request
unfoldable pub send_new_request :
    (is_registered mute_send : Bool) → SendCtx → SendRequest → SendCtx × (SendResult × Option ℕ)
unfolding request_valid put_slot
send_new_request is_registered mute_send ctx r =
    let id = next_send_id ctx.send_id_counter in
    if not (request_valid r)
    then (ctx, (err_data_not_valid, none))
    else if not is_registered || mute_send
    then (ctx, (err_not_allowed, none))
    else elim (put_slot ctx.slots (record { id = id; request = r })) [
      | none ↦ (ctx, (err_no_space, none))
      | some slots ↦ (record ctx { slots = slots; send_id_counter = id }, (send_success, some id))
    ]

abbrev pub free : Slot → Slot
free s = record s { id = 0 }

-- What stands behind a slot is moved by one, over it; the last slot is freed.
unfoldable pub move_up : Slot → List Slot → List Slot
move_up s [] = free s ∷ []
move_up s (t ∷ ts) = t ∷ move_up t ts

abbrev pub send_result : Result → SendResult
send_result success = send_success
send_result error_terminated = err_abort
send_result error_timeout = err_timeout
send_result error_network = err_network
send_result error_request = err_internal
send_result error_protocol = err_internal
send_result error_server_response = err_rejected

-- `send_completion_callback`, without external data
unfoldable pub send_completion : SendCtx → Result → SendCtx × List Finished
unfolding move_up
send_completion ctx result = elim ctx.slots [
  | [] ↦ (ctx, [])
  | s ∷ ss ↦ (
    record ctx {
      slots = move_up s ss;
      active_exchange = false;
      data_to_copy = false;
      op_count = 0;
    },
    record { finished_slot = s; result = send_result result } ∷ [],
  )
]

-- The loop over all slots in `anj_send_abort`
unfoldable pub abort_all : List Slot → List Slot × List Finished
abort_all [] = ([], [])
abort_all (s ∷ ss) =
    let rest = abort_all ss in
    (
      free s ∷ rest.0,
      if s.id == 0 then rest.1 else record { finished_slot = s; result = err_abort } ∷ rest.1,
    )

-- The loop that looks for a request, behind one that is found: `found` is the last one found, and
-- `before` stands in the slot before.
unfoldable pub abort_behind : (send_id : ℕ) → (found before : Slot) → List Slot → Slot × List Slot
abort_behind send_id found before [] = (found, free before ∷ [])
abort_behind send_id found before (s ∷ ss) =
    let again = abort_behind send_id s (free s) ss in
    let moved = abort_behind send_id found s ss in
    if s.id == send_id then (again.0, before ∷ again.1) else (moved.0, s ∷ moved.1)

unfoldable pub abort_one : (send_id : ℕ) → List Slot → Option (Slot × List Slot)
unfolding abort_behind
abort_one send_id [] = none
abort_one send_id (s ∷ ss) =
    let rest = abort_one send_id ss in
    if s.id == send_id
    then some (abort_behind send_id s (free s) ss)
    else elim rest [ none ↦ none | some (found, slots) ↦ some (found, s ∷ slots) ]

abbrev pub first_id : List Slot → ℕ
first_id [] = 0
first_id (s ∷ ss) = s.id

-- The end of `anj_send_abort`, behind the active exchange
unfoldable pub abort_queued : SendCtx → (send_id : ℕ) → SendCtx × (SendResult × List Finished)
unfolding abort_all abort_one
abort_queued ctx send_id =
    if send_id == send_id_all
    then (
      record ctx { slots = (abort_all ctx.slots).0; abort_in_progress = false },
      (send_success, (abort_all ctx.slots).1),
    )
    else elim (abort_one send_id ctx.slots) [
      | none ↦ (ctx, (err_no_request_found, []))
      | some (found, slots) ↦ (
        record ctx { slots = slots },
        (send_success, record { finished_slot = found; result = err_abort } ∷ []),
      )
    ]

-- `anj_send_abort`; the exchange that it terminates calls the completion callback.
unfoldable pub send_abort : SendCtx → (send_id : ℕ) → SendCtx × (SendResult × List Finished)
unfolding abort_queued send_completion
send_abort ctx send_id =
    let ended = send_completion ctx error_terminated in
    let others = abort_queued ended.0 send_id in
    if ctx.abort_in_progress
    then (ctx, (err_abort, []))
    else if first_id ctx.slots == 0
    then (ctx, (send_success, []))
    else if ctx.active_exchange && (send_id == send_id_all || send_id == first_id ctx.slots)
    then if not (send_id == send_id_all)
      then (ended.0, (send_success, ended.1))
      else (others.0, (others.1.0, ended.1 ++ others.1.1))
    else abort_queued ctx send_id

-- The prefix that two paths share, the loop of `find_common_path` over the identifiers
unfoldable pub shared_prefix : UriPath → UriPath → UriPath
shared_prefix (x ∷ xs) (y ∷ ys) =
    let rest = shared_prefix xs ys in if not (x == y) then [] else x ∷ rest
shared_prefix _ _ = []

-- `find_common_path`, of the first path and the others
unfoldable pub find_common_path : UriPath → List UriPath → UriPath
unfolding shared_prefix
find_common_path base [] = base
find_common_path base (p ∷ ps) = find_common_path (shared_prefix base p) ps

abbrev pub first_records : List Slot → List UriPath
first_records [] = []
first_records (s ∷ ss) = s.request.records

abbrev pub common_path : List UriPath → UriPath
common_path [] = []
common_path (p ∷ ps) = find_common_path p ps

-- `_anj_lwm2m_send_process`: whether a Send is to go out, and the handlers called; `out_ctx_init` is the
-- result of `_anj_io_out_ctx_init` for the base path.
unfoldable pub send_process :
    (mute_send : Bool)
    → (out_ctx_init : UriPath → Bool) → SendCtx
    → SendCtx × (Bool × List Finished)
unfolding send_abort find_common_path
send_process mute_send out_ctx_init ctx =
    let all = send_abort ctx send_id_all in
    let first = send_abort ctx (first_id ctx.slots) in
    if first_id ctx.slots == 0
    then (ctx, (false, []))
    else if mute_send
    then (all.0, (false, all.1.1))
    else if not (out_ctx_init (common_path (first_records ctx.slots)))
    then (first.0, (false, first.1.1))
    else (record ctx { active_exchange = true; data_to_copy = false; op_count = 0 }, (true, []))
