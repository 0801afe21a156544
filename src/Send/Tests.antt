-- ===== src/Send/Tests.antt =====
-- Runs of the queue of LwM2M Send requests, and its theorems at concrete requests.
use anjay_lite.Base.{ℕ, ◌≡◌, refl, arith, true, false, [], ◌∷◌}
use anjay_lite.Exchange.{success, error_timeout}
use anjay_lite.Send.{
  SendRequest, Slot, SendCtx, request_valid, records_valid, has_duplicate, send_new_request,
  send_abort, find_common_path, shared_prefix,
}
use anjay_lite.Send.Queue.{
  queued, Enqueued, send_new_request-Enqueued, completions, finished_slots, completions-queued,
}
use anjay_lite.Send.Abort.{Aborted, send_abort-Aborted}
use anjay_lite.Utils.UriPath.{uri_path_equal}

abbrev a_request : SendRequest
a_request = record {
  records = (3 ∷ 0 ∷ 9 ∷ []) ∷ (3 ∷ 0 ∷ 13 ∷ []) ∷ [];
  has_handler = true;
  user_data = 0;
  lwm2m_cbor = true;
}

abbrev slot : (id : ℕ) → Slot
slot id = record { id = id; request = a_request }

-- Two requests in a queue of three, the first one active
abbrev two_queued : SendCtx
two_queued = record {
  slots = slot 4 ∷ slot 5 ∷ slot 0 ∷ [];
  active_exchange = true;
  abort_in_progress = false;
  send_id_counter = 5;
  data_to_copy = false;
  op_count = 0;
}

a_request_valid : request_valid a_request ≡ true
unfolding request_valid records_valid has_duplicate uri_path_equal
a_request_valid = refl

-- The same path twice
duplicate_refused :
    request_valid (record a_request { records = (3 ∷ 0 ∷ 9 ∷ []) ∷ (3 ∷ 0 ∷ 9 ∷ []) ∷ [] }) ≡ false
unfolding request_valid records_valid has_duplicate uri_path_equal
duplicate_refused = refl

instance_is_common : find_common_path (3 ∷ 0 ∷ 9 ∷ []) ((3 ∷ 0 ∷ 13 ∷ []) ∷ []) ≡ 3 ∷ 0 ∷ []
unfolding find_common_path shared_prefix
instance_is_common = refl

send_new_request-Enqueued_example :
    Enqueued a_request two_queued (send_new_request true false two_queued a_request)
send_new_request-Enqueued_example =
    send_new_request-Enqueued two_queued a_request refl a_request_valid (omega arith)

completions-queued_example :
    (finished_slots (completions (error_timeout ∷ success ∷ []) two_queued).1
      ≡ slot 4 ∷ slot 5 ∷ [])
    × (queued (completions (error_timeout ∷ success ∷ []) two_queued).0.slots ≡ [])
completions-queued_example = completions-queued (error_timeout ∷ success ∷ []) two_queued refl refl

send_abort-Aborted_example : (found : Slot) × Aborted 4 two_queued (send_abort two_queued 4) found
send_abort-Aborted_example = send_abort-Aborted 4 two_queued refl refl refl refl refl refl
