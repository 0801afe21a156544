-- ===== src/Exchange/Process.antt =====
-- `_anj_exchange_process` and `_anj_exchange_terminate` (src/anj/exchange.c). `process` is to be
-- called in one of the two waiting states, with no new message while a confirmation is waited for and
-- no confirmation while a message is.
use anjay_lite.Base.{◌+◌, ◌%◌, ◌^◌, false, not, ◌&&◌, none, leb, ltb, if◌then◌else◌}
use anjay_lite.Coap.{Msg, code_bad_request}
use anjay_lite.Exchange.{
  Ctx, State, Event, Platform, Result, msg_to_send, waiting_send_confirmation, waiting_msg,
  finished, new_msg, send_confirmation, success, error_timeout, error_request, processing_delay,
  finalize_exchange, reset_exchange_params, timeout_occurred,
}
use anjay_lite.Exchange.Request.{handle_server_request}
use anjay_lite.Exchange.Response.{handle_server_response}
use anjay_lite.Time.{duration_add, duration_shift}

module _ {A : Type 0} where
  -- "else if (event == ANJ_EXCHANGE_EVENT_SEND_CONFIRMATION)"
  unfoldable pub message_sent : Ctx A → Ctx A
  message_sent ctx =
      if not ctx.confirmable && not ctx.block_transfer
      then finalize_exchange ctx none
          (if leb code_bad_request ctx.msg_code then error_request else success)
      else record ctx { state = waiting_msg }

  -- `handle_send_confirmation`
  unfoldable pub handle_send_confirmation : Platform → Ctx A → Event → Ctx A
  handle_send_confirmation p ctx event =
      if timeout_occurred p ctx.send_confirmation_timeout_timestamp
      then finalize_exchange ctx none error_timeout
      else elim event [ send_confirmation ↦ message_sent ctx | _ ↦ ctx ]

  -- "used in case of separate response": the request that waited for the empty response
  unfoldable pub send_prepared : Platform → Ctx A → Msg → Ctx A × Msg × State
  send_prepared p ctx msg = elim ctx.state [
    | waiting_msg ↦
        if ctx.request_prepared
        then (
          reset_exchange_params p
              (record ctx { request_prepared = false; state = waiting_send_confirmation }),
          ctx.base_msg,
          msg_to_send,
        )
        else (ctx, msg, ctx.state)
    | _ ↦ (ctx, msg, ctx.state)
  ]

  -- The message is sent once more; the timeout doubles each time ("1 << ctx->retry_count").
  unfoldable pub retransmit : Platform → Ctx A → Ctx A × Msg × State
  retransmit p ctx =
      let count = (ctx.retry_count + 1) % 2 ^ 16 in
      (
        record ctx {
          retry_count = count;
          timeout_timestamp =
              duration_add p.now (duration_shift p.undefined_delay ctx.timeout count);
          send_confirmation_timeout_timestamp = duration_add p.now processing_delay;
          state = waiting_send_confirmation;
        },
        ctx.base_msg,
        msg_to_send,
      )

  -- "if (timeout_occurred(ctx->timeout_timestamp))"
  unfoldable pub check_timeout : Platform → Ctx A → Msg → Ctx A × Msg × State
  check_timeout p ctx msg =
      if not (timeout_occurred p ctx.timeout_timestamp)
      then (ctx, msg, waiting_msg)
      else if not ctx.server_request && ltb ctx.retry_count ctx.tx_params.max_retransmit
      then retransmit p ctx
      else (finalize_exchange ctx none error_timeout, msg, finished)

  -- What follows the handling of a new message.
  unfoldable pub message_handled : Platform → Ctx A × Msg → Ctx A × Msg × State
  message_handled p (ctx, msg) = elim ctx.state [
    | waiting_send_confirmation ↦ (
      record ctx { send_confirmation_timeout_timestamp = duration_add p.now processing_delay },
      msg,
      msg_to_send,
    )
    | waiting_msg ↦ check_timeout p ctx msg
    | _ ↦ (ctx, msg, ctx.state)
  ]

  -- "if (event == ANJ_EXCHANGE_EVENT_NEW_MSG)"
  unfoldable pub handle_new_msg : Platform → Ctx A → Msg → Ctx A × Msg × State
  handle_new_msg p ctx msg = message_handled p (
      if ctx.server_request
      then handle_server_request p ctx msg
      else handle_server_response p ctx msg)

  -- `_anj_exchange_process`
  unfoldable pub process : Platform → Ctx A → Event → Msg → Ctx A × Msg × State
  process p ctx event msg = elim ctx.state [
    | waiting_send_confirmation ↦ send_prepared p (handle_send_confirmation p ctx event) msg
    | _ ↦ elim event [ new_msg ↦ handle_new_msg p ctx msg | _ ↦ check_timeout p ctx msg ]
  ]

  -- `_anj_exchange_terminate`
  unfoldable pub terminate : Ctx A → (reason : Result) → Ctx A
  terminate ctx reason = elim ctx.state [ finished ↦ ctx | _ ↦ finalize_exchange ctx none reason ]
