-- ===== src/Exchange/Completion/Messages.antt =====
-- The handlers of a new message keep the count of completion calls.
use anjay_lite.Base.{ℕ, ◌≡◌, true, false, not, none, some, arith, if◌then◌else◌}
use anjay_lite.Coap.{Msg}
use anjay_lite.Exchange.{
  Ctx, Platform, waiting_msg, success, error_server_response, contents, call_completion,
  reset_exchange_params, store_response,
}
use anjay_lite.Exchange.Request.{
  send_response, read_response, write_request, next_request_block, handle_server_request,
}
use anjay_lite.Exchange.Response.{
  send_empty_ack, send_service_unavailable, send_next_request, continue_exchange,
  take_response_block, send_request_block, transfer_block, handle_server_response,
}
use anjay_lite.Exchange.Completion.{
  Tally, Open, count-completion, count-write, count-read, finalize_exchange-Tally,
}

module _ {A : Type 0} (count : A → ℕ) {n : ℕ} where
  pub send_next_request-Tally :
      (p : Platform) (ctx : Ctx A) → Open count n ctx → Tally count n (send_next_request p ctx).0
  unfolding send_next_request reset_exchange_params
  send_next_request-Tally p ctx o = grind (arith, finalize_exchange-Tally count)

  pub send_response-Tally :
      (p : Platform) (ctx : Ctx A) (msg : Msg) (code size : ℕ)
      → Open count n ctx
      → Tally count n (send_response p ctx msg code size).0
  unfolding send_response reset_exchange_params store_response
  send_response-Tally p ctx msg code size o = ground arith

  pub send_service_unavailable-Tally :
      (p : Platform) (ctx : Ctx A) (msg : Msg)
      → Open count n ctx
      → Tally count n (send_service_unavailable p ctx msg).0
  unfolding send_service_unavailable store_response
  send_service_unavailable-Tally p ctx msg o = ground arith

  pub send_empty_ack-Tally :
      (ctx : Ctx A) (msg : Msg) → Open count n ctx → Tally count n (send_empty_ack ctx msg).0
  unfolding send_empty_ack
  send_empty_ack-Tally ctx msg o = ground arith

  pub continue_exchange-Tally :
      (p : Platform) (ctx : Ctx A) (msg : Msg)
      → Open count n ctx
      → Tally count n (continue_exchange p ctx msg).0
  unfolding continue_exchange
  continue_exchange-Tally p ctx msg o = ground (
    arith,
    send_next_request-Tally p ctx o,
    finalize_exchange-Tally count ctx (some msg) success o,
    count-completion count ctx.handlers.completion ctx.arg (some msg) success o.tracked.completes,
    send_empty_ack-Tally (record ctx { request_prepared = true }) msg,
    send_empty_ack-Tally
        (record ctx {
          arg = call_completion ctx.handlers.completion ctx.arg (some msg) success;
          handlers = record ctx.handlers { completion = none };
          confirmable = false;
        })
        msg,
  )

  pub take_response_block-Tally :
      (p : Platform) (ctx : Ctx A) (msg : Msg)
      → Open count n ctx
      → Tally count n (take_response_block p ctx msg).0
  unfolding take_response_block
  take_response_block-Tally p ctx msg o = grind (
    arith,
    count-write count ctx.handlers.write_payload ctx.arg (contents ctx msg.payload) msg.payload_size
        (not ctx.block_transfer) o.tracked.writes,
    finalize_exchange-Tally count,
    continue_exchange-Tally,
  )

  pub send_request_block-Tally :
      (p : Platform) (ctx : Ctx A) (msg : Msg)
      → Open count n ctx
      → Tally count n (send_request_block p ctx msg).0
  unfolding send_request_block
  send_request_block-Tally p ctx msg o = grind (
    arith,
    count-read count ctx.handlers.read_payload ctx.arg ctx.payload_buff ctx.block_size
        o.tracked.reads,
    finalize_exchange-Tally count,
    continue_exchange-Tally,
  )

  pub transfer_block-Tally :
      (p : Platform) (ctx : Ctx A) (msg : Msg)
      → Open count n ctx
      → Tally count n (transfer_block p ctx msg).0
  unfolding transfer_block
  transfer_block-Tally p ctx msg o =
      grind (arith, take_response_block-Tally, send_request_block-Tally, continue_exchange-Tally)

  pub waiting_msg-Tally :
      {ctx : Ctx A} → Open count n ctx → ctx.state ≡ waiting_msg → Tally count n ctx
  waiting_msg-Tally o e = ground arith

  pub handle_server_response-Tally :
      (p : Platform) (ctx : Ctx A) (msg : Msg)
      → Open count n ctx
      → ctx.state ≡ waiting_msg
      → Tally count n (handle_server_response p ctx msg).0
  unfolding handle_server_response reset_exchange_params
  handle_server_response-Tally p ctx msg o e = ground (
    arith,
    finalize_exchange-Tally count ctx (some msg) success o,
    finalize_exchange-Tally count ctx (some msg) error_server_response o,
    send_service_unavailable-Tally p ctx msg o,
    transfer_block-Tally p ctx msg o,
  )

  pub read_response-Tally :
      (p : Platform) (ctx : Ctx A) (msg : Msg) (code : ℕ)
      → Open count n ctx
      → Tally count n (read_response p ctx msg code).0
  unfolding read_response
  read_response-Tally p ctx msg code o = grind (
    arith,
    count-read count ctx.handlers.read_payload ctx.arg ctx.payload_buff ctx.block_size
        o.tracked.reads,
    send_response-Tally,
  )

  pub write_request-Tally :
      (p : Platform) (ctx : Ctx A) (msg : Msg)
      → Open count n ctx
      → Tally count n (write_request p ctx msg).0
  unfolding write_request
  write_request-Tally p ctx msg o = grind (
    arith,
    count-write count ctx.handlers.write_payload ctx.arg (contents ctx msg.payload) msg.payload_size
        (not (if not msg.block.more_flag then false else ctx.block_transfer)) o.tracked.writes,
    send_response-Tally,
    read_response-Tally,
  )

  pub next_request_block-Tally :
      (p : Platform) (ctx : Ctx A) (msg : Msg)
      → Open count n ctx
      → ctx.state ≡ waiting_msg
      → Tally count n (next_request_block p ctx msg).0
  unfolding next_request_block
  next_request_block-Tally p ctx msg o e = grind (arith, read_response-Tally, write_request-Tally)

  pub handle_server_request-Tally :
      (p : Platform) (ctx : Ctx A) (msg : Msg)
      → Open count n ctx
      → ctx.state ≡ waiting_msg
      → Tally count n (handle_server_request p ctx msg).0
  unfolding handle_server_request
  handle_server_request-Tally p ctx msg o e =
      grind (arith, next_request_block-Tally, send_service_unavailable-Tally)
