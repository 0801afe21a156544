-- ===== src/Exchange/Response.antt =====
-- `handle_server_response` (src/anj/exchange.c): a message that arrives while a client request
-- waits. The function is one sequence of guarded steps; each part from a `goto` target or a block of
-- the C code is a definition of its own, in the order of the code.
use anjay_lite.Base.{
  ◌+◌, ◌%◌, ◌^◌, Bool, true, false, not, ◌&&◌, ◌||◌, none, some, ◌==◌, leb, ltb, if◌then◌else◌,
}
use anjay_lite.Coap.{
  Msg, confirmable, block_not_defined, block_1, block_2, is_block_option, is_op, inf_con_notify,
  response, coap_reset, coap_empty_msg, tokens_equal, code_ipatch, code_bad_request,
  code_service_unavailable,
}
use anjay_lite.Exchange.{
  Ctx, Platform, waiting_send_confirmation, success, error_server_response, error_request,
  block_transfer_needed, call_completion, call_write, call_read, contents, finalize_exchange,
  reset_exchange_params, store_response, next_msg_id,
}

unfoldable pub is_separate_response_mode : Msg → Bool
is_separate_response_mode msg = elim msg.udp_type [ confirmable ↦ true | _ ↦ false ]

module _ {A : Type 0} where
  -- `send_empty_ack:`
  unfoldable pub send_empty_ack : Ctx A → Msg → Ctx A × Msg
  send_empty_ack ctx msg = (
    record ctx { state = waiting_send_confirmation },
    record msg {
      operation = coap_empty_msg;
      block = record msg.block { block_type = block_not_defined };
    },
  )

  -- `send_service_unavailable:`, the same in `handle_server_request`
  unfoldable pub send_service_unavailable : Platform → Ctx A → Msg → Ctx A × Msg
  send_service_unavailable p ctx msg =
      let msg' = record msg {
        operation = response;
        msg_code = code_service_unavailable;
        payload_size = 0;
        block = record msg.block { block_type = block_not_defined };
      } in
      (store_response p (record ctx { state = waiting_send_confirmation }) msg', msg')

  -- The next request: a new message identifier and, if there is a random number, a new token. With
  -- none the exchange is finalized, and the message is copied all the same.
  unfoldable pub send_next_request : Platform → Ctx A → Ctx A × Msg
  send_next_request p ctx =
      let ctx' = reset_exchange_params p (record ctx { state = waiting_send_confirmation }) in
      let mid = next_msg_id ctx' in
      let sent = record ctx.base_msg { message_id = mid } in
      elim p.random_token [
        | none ↦
            let base = record sent { token = record sent.token { size = 8 } } in
            (
              finalize_exchange (record ctx' { msg_id = mid; base_msg = base }) none error_request,
              base,
            )
        | some bytes ↦
            let base = record sent { token = record { size = 8; bytes = bytes } } in
            (record ctx' { msg_id = mid; base_msg = base }, base)
      ]

  -- From "if (ctx->block_transfer || ctx->base_msg.payload_size != 0)" on.
  unfoldable pub continue_exchange : Platform → Ctx A → Msg → Ctx A × Msg
  continue_exchange p ctx msg =
      if ctx.block_transfer || not (ctx.base_msg.payload_size == 0)
      then (if not ctx.request_prepared && is_separate_response_mode msg
          then send_empty_ack (record ctx { request_prepared = true }) msg
          else send_next_request p ctx)
      else if is_separate_response_mode msg
      then send_empty_ack
          (record ctx {
            arg = call_completion ctx.handlers.completion ctx.arg (some msg) success;
            handlers = record ctx.handlers { completion = none };
            confirmable = false;
          })
          msg
      else (finalize_exchange ctx (some msg) success, msg)

  -- "if (in_out_msg->payload_size)": a block of the response
  unfoldable pub take_response_block : Platform → Ctx A → Msg → Ctx A × Msg
  take_response_block p ctx msg =
      let (arg, result) =
        call_write ctx.handlers.write_payload ctx.arg (contents ctx msg.payload) msg.payload_size
          (not ctx.block_transfer) in
      let next = (ctx.block_number + 1) % 2 ^ 32 in
      let ctx' = record ctx {
        arg = arg;
        block_number = next;
        base_msg = record ctx.base_msg {
          block = record {
            more_flag = false;
            number = next;
            block_type = block_2;
            size = msg.block.size;
          };
        };
      } in
      if result == 0
      then continue_exchange p ctx' msg
      else (finalize_exchange ctx' none error_request, msg)

  -- "else if (ctx->block_transfer)": the next block of the request
  unfoldable pub send_request_block : Platform → Ctx A → Msg → Ctx A × Msg
  send_request_block p ctx msg =
      let r = call_read ctx.handlers.read_payload ctx.arg ctx.payload_buff ctx.block_size in
      let next = (ctx.block_number + 1) % 2 ^ 32 in
      let needed = r.code == block_transfer_needed in
      let ctx' = record ctx {
        arg = r.arg;
        payload_buff = r.buff;
        block_number = next;
        block_transfer = if needed then true else if r.code == 0 then false else ctx.block_transfer;
        base_msg = record ctx.base_msg {
          payload_size = r.out.payload_len;
          content_format = r.out.format;
          block = record {
            more_flag = needed;
            number = next;
            block_type = block_1;
            size = ctx.block_size;
          };
        };
      } in
      if needed || r.code == 0
      then continue_exchange p ctx' msg
      else (finalize_exchange ctx' none error_request, msg)

  -- From the assignment of `ctx->block_transfer` on. For BLOCK1 the flag of the context decides, not
  -- the one of the message.
  unfoldable pub transfer_block : Platform → Ctx A → Msg → Ctx A × Msg
  transfer_block p ctx msg =
      let ctx' = record ctx {
        block_transfer =
            is_block_option msg.block.block_type block_2 && msg.block.more_flag
            || is_block_option msg.block.block_type block_1 && ctx.block_transfer;
        base_msg = record ctx.base_msg { payload_size = 0 };
      } in
      if not (msg.payload_size == 0)
      then take_response_block p ctx' msg
      else if ctx'.block_transfer
      then send_request_block p ctx' msg
      else continue_exchange p ctx' msg

  -- `handle_server_response`
  unfoldable pub handle_server_response : Platform → Ctx A → Msg → Ctx A × Msg
  handle_server_response p ctx msg =
      if is_op msg.operation coap_empty_msg
      then (if is_op ctx.base_msg.operation inf_con_notify
          then (finalize_exchange ctx (some msg) success, msg)
          else (reset_exchange_params p ctx, msg))
      else if is_op msg.operation coap_reset
      then (finalize_exchange ctx (some msg) error_server_response, msg)
      else if not (tokens_equal msg.token ctx.base_msg.token)
      then (if ltb code_ipatch msg.msg_code then (ctx, msg) else send_service_unavailable p ctx msg)
      else if leb code_bad_request msg.msg_code
      then (finalize_exchange ctx (some msg) error_server_response, msg)
      else if not (ctx.block_number == msg.block.number)
      then (ctx, msg)
      else transfer_block p ctx msg
