-- ===== src/Exchange/Tests.antt =====
-- Runs of the exchange, and its theorems at concrete inputs.
use anjay_lite.Base.{
  ℕ, ◌+◌, ◌*◌, ◌<◌, ◌≡◌, ◌⊎◌, refl, Bool, true, false, [], ◌∷◌, List, some, none, arith,
}
use anjay_lite.Base.Int.{pos, scale}
use anjay_lite.Coap.{Msg, external, block_1, op_code, tokens_equal, coap_code, dm_write_replace}
use anjay_lite.Exchange.Completion.Once.{
  CompletedOnce, client_request_completes_once, server_request_completes_once,
}
use anjay_lite.Exchange.Examples.{
  at_second, complete, handlers, idle, update_msg, changed_msg, read_msg,
}
use anjay_lite.Exchange.Invariant.Always.{
  exchange_init-IsValid, client_request-IsValid, server_request-IsValid,
}
use anjay_lite.Exchange.Invariant.{IsValid}
use anjay_lite.Exchange.Process.{
  process, terminate, check_timeout, retransmit, handle_send_confirmation, message_sent,
  send_prepared, handle_new_msg, message_handled,
}
use anjay_lite.Exchange.Response.{
  handle_server_response, transfer_block, continue_exchange, is_separate_response_mode,
}
use anjay_lite.Exchange.Retransmission.{
  Waiting, Silence, quiet, repeated, expire, SentAgain, GivenUp, Silence-expires,
}
use anjay_lite.Exchange.Start.{
  new_client_request, new_server_request, identify_request, prepare_request, request_ready,
}
use anjay_lite.Exchange.Setup.{exchange_init}
use anjay_lite.Exchange.Trace.{Call, processes, terminates, call, run}
use anjay_lite.Exchange.Upload.{Delivery, InTime, deliver, deliver_all}
use anjay_lite.Exchange.Upload.Whole.{FirstBlock, begun, write_in_blocks}
use anjay_lite.Exchange.Setup.{zero_msg}
use anjay_lite.Exchange.{
  Ctx, error_terminated, Handlers, processing_delay, finished, waiting_msg, new_msg,
  send_confirmation, exchange_param_init, finalize_exchange, timeout_occurred,
}
use anjay_lite.Time.{second, duration_new, duration_add, duration_shift}

abbrev counted : ℕ → ℕ
counted n = n

-- The request is sent, confirmed and answered; then the exchange is terminated, although it is over.
abbrev answered : List Call
answered =
    processes (at_second 1) send_confirmation update_msg
    ∷ processes (at_second 2) new_msg changed_msg
    ∷ terminates error_terminated
    ∷ []

-- The answer to the request is sent and confirmed, and the exchange, which is over, terminated.
abbrev responded : List Call
responded = processes (at_second 1) send_confirmation read_msg ∷ terminates error_terminated ∷ []

client_request_completes_once_example :
    CompletedOnce counted 0
      (run (new_client_request (at_second 0) idle update_msg handlers 0 [] 64).0 answered)
client_request_completes_once_example =
    client_request_completes_once counted (at_second 0) idle update_msg handlers 0 [] 64 complete
      refl (record { completes = λ a m r. refl; writes = tt; reads = λ a b s. refl }) answered

server_request_completes_once_example : CompletedOnce counted 0 (
    run
      (new_server_request (at_second 0) idle (coap_code 2 5) read_msg handlers 0 [] 64).0
      responded)
server_request_completes_once_example =
    server_request_completes_once counted (at_second 0) idle read_msg handlers 0 [] 64 complete refl
      (record { completes = λ a m r. refl; writes = tt; reads = λ a b s. refl }) responded
      (coap_code 2 5)

answered_runs :
    (run (new_client_request (at_second 0) idle update_msg handlers 0 [] 64).0 answered).arg ≡ 1
unfolding idle run call process terminate handle_send_confirmation message_sent send_prepared
    handle_new_msg message_handled handle_server_response transfer_block continue_exchange
    is_separate_response_mode finalize_exchange new_client_request identify_request prepare_request
    request_ready exchange_param_init op_code tokens_equal scale duration_add
answered_runs = refl

-- The request waits for its response, and its timeout is over at second 2.
abbrev waiting : Ctx ℕ
waiting = record idle {
  state = waiting_msg;
  handlers = handlers;
  confirmable = true;
  timeout = duration_new (pos 2) second;
  timeout_timestamp = pos (2 * 1000 * 1000);
  base_msg = update_msg;
}

waiting_is : Waiting waiting
unfolding idle
waiting_is = record {
  state_is = refl;
  by_client = refl;
  needs_response = refl;
  not_prepared = refl;
  limit = omega arith;
}

abbrev waiting_again : Ctx ℕ
waiting_again =
    (process (at_second 4) (expire (at_second 3) update_msg waiting).0 send_confirmation
      update_msg).0

Silence-once : Silence waiting 1 waiting_again
unfolding idle process check_timeout retransmit handle_send_confirmation duration_add duration_shift
Silence-once = repeated quiet (at_second 3) (at_second 4) update_msg update_msg refl refl refl

expires_at_eight : timeout_occurred (at_second 8) waiting_again.timeout_timestamp ≡ true
unfolding idle process check_timeout retransmit handle_send_confirmation message_sent send_prepared
    duration_add duration_shift
expires_at_eight = refl

Silence-expires_example :
    (1 < 4) × SentAgain (at_second 8) waiting 2 (expire (at_second 8) update_msg waiting_again)
    ⊎ (◌≡◌ {A = ℕ} 1 4) × GivenUp waiting (expire (at_second 8) update_msg waiting_again)
unfolding idle
Silence-expires_example =
    Silence-expires waiting_is (omega arith) Silence-once (at_second 8) update_msg expires_at_eight

idle-IsValid : IsValid idle
unfolding idle exchange_init
idle-IsValid = exchange_init-IsValid {A = ℕ} 0 (some 100) 100 refl (omega arith)

client_request-IsValid_example :
    IsValid (run (new_client_request (at_second 0) idle update_msg handlers 0 [] 64).0 answered)
unfolding idle
client_request-IsValid_example =
    client_request-IsValid (at_second 0) idle update_msg handlers 0 [] 64 idle-IsValid refl answered

server_request-IsValid_example : IsValid (
    run
      (new_server_request (at_second 0) idle (coap_code 2 5) read_msg handlers 0 [] 64).0
      (processes (at_second 1) send_confirmation read_msg ∷ []))
unfolding idle
server_request-IsValid_example =
    server_request-IsValid (at_second 0) idle read_msg handlers 0 [] 64 idle-IsValid refl
      (processes (at_second 1) send_confirmation read_msg ∷ []) (coap_code 2 5)

-- A handler that counts the blocks, and the first block of a Write
abbrev count_blocks : ℕ → List ℕ → ℕ → Bool → ℕ × ℕ
count_blocks n bytes size last = (n + 1, 0)

abbrev block_handlers : Handlers ℕ
block_handlers = record {
  write_payload = some count_blocks;
  read_payload = none;
  completion = some complete;
}

abbrev first_block : Msg
first_block = record zero_msg {
  operation = dm_write_replace;
  payload = external (7 ∷ []);
  payload_size = 1;
  block = record { block_type = block_1; more_flag = true; number = 0; size = 16 };
}

first_block_is : FirstBlock count_blocks (coap_code 2 4) first_block block_handlers (7 ∷ [])
unfolding op_code
first_block_is = record {
  not_ping = refl;
  is_block_1 = refl;
  more_follow = refl;
  payload_is = refl;
  size_is = refl;
  not_empty = λ e. cc;
  writes = refl;
  no_reads = refl;
  code_is = omega arith;
  code_is_final = omega arith;
}

abbrev delivery : ℕ → Delivery
delivery s = record { bytes = s ∷ []; arrival = at_second s; confirmation = at_second (s + 1) }

in_time : (InTime (delivery 2)) × (InTime (delivery 4))
unfolding duration_add scale
in_time = (
  record { not_empty = λ e. cc; confirmed = refl },
  record { not_empty = λ e. cc; confirmed = refl },
)

confirmed_in_time :
    timeout_occurred (at_second 1) (duration_add (at_second 0).now processing_delay) ≡ false
unfolding duration_add scale
confirmed_in_time = refl

-- The exchange where the first block has been answered
abbrev upload : Ctx ℕ
upload =
    begun count_blocks (λ a b n l. refl) (at_second 0) (at_second 1) idle (coap_code 2 4)
      first_block block_handlers 0 [] 64

write_in_blocks_example :
    ((deliver count_blocks
        (deliver_all count_blocks upload (delivery 2 ∷ []))
        (delivery 4)
        false).state
      ≡ finished)
    × ((deliver count_blocks
          (deliver_all count_blocks upload (delivery 2 ∷ []))
          (delivery 4)
          false).arg
        ≡ 4)
unfolding idle
write_in_blocks_example =
    write_in_blocks count_blocks (λ a b n l. refl) (at_second 0) (at_second 1) idle (coap_code 2 4)
      first_block block_handlers 0 [] 64 (7 ∷ []) (delivery 2 ∷ []) (delivery 4) first_block_is refl
      confirmed_in_time (in_time.0, tt) in_time.1 (omega arith)
