-- ===== src/Exchange/Invariant/Messages.antt =====
-- The handlers of a new message keep the of completion calls.
use anjay_lite.Base.{ℕ, ◌≡◌, true, false, none, some, arith}
use anjay_lite.Coap.{Msg}
use anjay_lite.Exchange.{
  Ctx, Platform, waiting_msg, success, error_server_response, call_completion,
  reset_exchange_params, store_response,
}
use anjay_lite.Exchange.Request.{
  send_response, read_response, write_request, next_request_block, handle_server_request,
}
use anjay_lite.Exchange.Response.{
  send_empty_ack, send_service_unavailable, send_next_request, continue_exchange,
  take_response_block, send_request_block, transfer_block, handle_server_response,
}
use anjay_lite.Exchange.Invariant.{IsValid, InRange, finalize_exchange-IsValid}

module _ {A : Type 0} where
  pub send_next_request-IsValid :
      (p : Platform) (ctx : Ctx A) → InRange ctx → IsValid (send_next_request p ctx).0
  unfolding send_next_request reset_exchange_params
  send_next_request-IsValid p ctx o = grind (arith, finalize_exchange-IsValid)

  pub send_response-IsValid :
      (p : Platform) (ctx : Ctx A) (msg : Msg) (code size : ℕ)
      → InRange ctx
      → IsValid (send_response p ctx msg code size).0
  unfolding send_response reset_exchange_params store_response
  send_response-IsValid p ctx msg code size o = ground arith

  pub send_service_unavailable-IsValid :
      (p : Platform) (ctx : Ctx A) (msg : Msg)
      → InRange ctx
      → IsValid (send_service_unavailable p ctx msg).0
  unfolding send_service_unavailable store_response
  send_service_unavailable-IsValid p ctx msg o = ground arith

  pub send_empty_ack-IsValid :
      (ctx : Ctx A) (msg : Msg) → InRange ctx → IsValid (send_empty_ack ctx msg).0
  unfolding send_empty_ack
  send_empty_ack-IsValid ctx msg o = ground arith

  pub continue_exchange-IsValid :
      (p : Platform) (ctx : Ctx A) (msg : Msg)
      → InRange ctx
      → ctx.server_request ≡ false
      → IsValid (continue_exchange p ctx msg).0
  unfolding continue_exchange
  continue_exchange-IsValid p ctx msg o c = ground (
    arith,
    send_next_request-IsValid p ctx o,
    finalize_exchange-IsValid ctx (some msg) success o,
    send_empty_ack-IsValid (record ctx { request_prepared = true }) msg,
    send_empty_ack-IsValid
        (record ctx {
          arg = call_completion ctx.handlers.completion ctx.arg (some msg) success;
          handlers = record ctx.handlers { completion = none };
          confirmable = false;
        })
        msg,
  )

  pub take_response_block-IsValid :
      (p : Platform) (ctx : Ctx A) (msg : Msg)
      → InRange ctx
      → ctx.server_request ≡ false
      → IsValid (take_response_block p ctx msg).0
  unfolding take_response_block
  take_response_block-IsValid p ctx msg o c =
      grind (arith, finalize_exchange-IsValid, continue_exchange-IsValid)

  pub send_request_block-IsValid :
      (p : Platform) (ctx : Ctx A) (msg : Msg)
      → InRange ctx
      → ctx.server_request ≡ false
      → IsValid (send_request_block p ctx msg).0
  unfolding send_request_block
  send_request_block-IsValid p ctx msg o c =
      grind (arith, finalize_exchange-IsValid, continue_exchange-IsValid)

  pub transfer_block-IsValid :
      (p : Platform) (ctx : Ctx A) (msg : Msg)
      → InRange ctx
      → ctx.server_request ≡ false
      → IsValid (transfer_block p ctx msg).0
  unfolding transfer_block
  transfer_block-IsValid p ctx msg o c =
      grind
        (arith, take_response_block-IsValid, send_request_block-IsValid, continue_exchange-IsValid)

  pub handle_server_response-IsValid :
      (p : Platform) (ctx : Ctx A) (msg : Msg)
      → InRange ctx
      → ctx.server_request ≡ false
      → ctx.state ≡ waiting_msg
      → IsValid (handle_server_response p ctx msg).0
  unfolding handle_server_response reset_exchange_params
  handle_server_response-IsValid p ctx msg o c e = ground (
    arith,
    finalize_exchange-IsValid ctx (some msg) success o,
    finalize_exchange-IsValid ctx (some msg) error_server_response o,
    send_service_unavailable-IsValid p ctx msg o,
    transfer_block-IsValid p ctx msg o c,
  )

  pub read_response-IsValid :
      (p : Platform) (ctx : Ctx A) (msg : Msg) (code : ℕ)
      → InRange ctx
      → IsValid (read_response p ctx msg code).0
  unfolding read_response
  read_response-IsValid p ctx msg code o = grind (arith, send_response-IsValid)

  pub write_request-IsValid :
      (p : Platform) (ctx : Ctx A) (msg : Msg) → InRange ctx → IsValid (write_request p ctx msg).0
  unfolding write_request
  write_request-IsValid p ctx msg o = grind (arith, send_response-IsValid, read_response-IsValid)

  pub next_request_block-IsValid :
      (p : Platform) (ctx : Ctx A) (msg : Msg)
      → InRange ctx
      → ctx.state ≡ waiting_msg
      → IsValid (next_request_block p ctx msg).0
  unfolding next_request_block
  next_request_block-IsValid p ctx msg o e =
      grind (arith, read_response-IsValid, write_request-IsValid)

  pub handle_server_request-IsValid :
      (p : Platform) (ctx : Ctx A) (msg : Msg)
      → InRange ctx
      → ctx.state ≡ waiting_msg
      → IsValid (handle_server_request p ctx msg).0
  unfolding handle_server_request
  handle_server_request-IsValid p ctx msg o e =
      grind (arith, next_request_block-IsValid, send_service_unavailable-IsValid)
