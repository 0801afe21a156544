-- ===== src/Exchange/Request.antt =====
-- `handle_server_request` (src/anj/exchange.c): a message that arrives while a server request is
-- answered in blocks.
use anjay_lite.Base.{
  ℕ, ◌+◌, ◌-◌, ◌%◌, ◌^◌, Bool, true, false, not, ◌&&◌, ◌||◌, ◌==◌, leb, if◌then◌else◌,
}
use anjay_lite.Coap.{
  Op, Msg, block_not_defined, block_1, block_2, block_both, is_block_option, own_buffer, op_code,
  is_op, dm_read, dm_read_comp, inf_non_con_notify, inf_observe, inf_observe_comp,
  inf_cancel_observe, inf_cancel_observe_comp, inf_initial_notify, response, code_empty,
  code_continue, code_content, code_bad_request,
}
use anjay_lite.Exchange.{
  Ctx, Platform, waiting_send_confirmation, block_transfer_needed, call_write, call_read, contents,
  reset_exchange_params, store_response, with_created,
}
use anjay_lite.Exchange.Response.{send_service_unavailable}

-- The operation of the answer to a request.
unfoldable pub response_operation : Op → Op
response_operation op =
    if is_op op inf_observe || is_op op inf_observe_comp then inf_initial_notify else response

-- A Read that goes on with a notification or an observation.
unfoldable pub continues_observation : (ongoing received : Op) → Bool
continues_observation ongoing received =
    (is_op ongoing inf_non_con_notify
      || is_op ongoing inf_observe
      || is_op ongoing inf_observe_comp
      || is_op ongoing inf_cancel_observe
      || is_op ongoing inf_cancel_observe_comp)
    && (is_op received dm_read || is_op received dm_read_comp)

module _ {A : Type 0} where
  -- `send_response:`
  unfoldable pub send_response :
      Platform → Ctx A → Msg → (response_code payload_size : ℕ) → Ctx A × Msg
  send_response p ctx msg response_code payload_size =
      let ctx' = reset_exchange_params p (record ctx { state = waiting_send_confirmation }) in
      let failed = leb code_bad_request response_code in
      let msg' = record msg {
        operation = response_operation msg.operation;
        msg_code = response_code;
        payload_size = if failed then 0 else payload_size;
        block = if failed then record msg.block { block_type = block_not_defined } else msg.block;
      } in
      let ctx'' = record ctx' {
        block_transfer = if failed then false else ctx'.block_transfer;
        msg_code = if failed then response_code else ctx'.msg_code;
      } in
      (store_response p ctx'' msg', msg')

  -- "if (response_code != ANJ_COAP_CODE_CONTINUE)": the payload of the answer, after the last block
  -- of the request
  unfoldable pub read_response : Platform → Ctx A → Msg → (response_code : ℕ) → Ctx A × Msg
  read_response p ctx msg response_code =
      let r = call_read ctx.handlers.read_payload ctx.arg ctx.payload_buff ctx.block_size in
      let needed = r.code == block_transfer_needed in
      let filled = record msg {
        payload = own_buffer;
        content_format = r.out.format;
        attr = with_created r.out msg.attr;
      } in
      let ctx' = record ctx { arg = r.arg; payload_buff = r.buff } in
      let code = if r.out.payload_len == 0 then response_code else code_content in
      if needed
      then send_response p (record ctx' { block_transfer = true })
          (record filled {
            block =
                if is_block_option msg.block.block_type block_1
                then record msg.block { block_type = block_both; size = ctx.block_size }
                else record {
                  more_flag = true;
                  number = ctx.block_number;
                  block_type = block_2;
                  size = ctx.block_size;
                };
          })
          code r.out.payload_len
      else if not (r.code == 0)
      then send_response p ctx' filled r.code r.out.payload_len
      else send_response p (record ctx' { block_transfer = false })
          (record filled { block = record msg.block { more_flag = false } }) code r.out.payload_len

  -- "if (in_out_msg->payload_size != 0)": a block of the request
  unfoldable pub write_request : Platform → Ctx A → Msg → Ctx A × Msg
  write_request p ctx msg =
      let last = not msg.block.more_flag in
      let transfer = if last then false else ctx.block_transfer in
      let (arg, result) =
        call_write ctx.handlers.write_payload ctx.arg (contents ctx msg.payload) msg.payload_size
          (not transfer) in
      let ctx' = record ctx {
        arg = arg;
        block_transfer = transfer;
        block_number = if last then 0 else ctx.block_number;
      } in
      if not (result == 0)
      then send_response p ctx' msg result 0
      else (let code = if transfer then code_continue else ctx.msg_code in
          if code == code_continue
          then send_response p ctx' msg code 0
          else read_response p ctx' msg code)

  -- From "ctx->block_number++" on.
  unfoldable pub next_request_block : Platform → Ctx A → Msg → Ctx A × Msg
  next_request_block p ctx msg =
      let ctx' = record ctx { block_number = (ctx.block_number + 1) % 2 ^ 32 } in
      if not (ctx'.block_number == msg.block.number)
      then (record ctx' { block_number = (ctx'.block_number + 2 ^ 32 - 1) % 2 ^ 32 }, msg)
      else if msg.payload_size == 0
      then read_response p ctx' msg code_empty
      else write_request p ctx' msg

  -- `handle_server_request`
  unfoldable pub handle_server_request : Platform → Ctx A → Msg → Ctx A × Msg
  handle_server_request p ctx msg =
      if not (is_op msg.operation ctx.op) && not (continues_observation ctx.op msg.operation)
      then (if leb (op_code response) (op_code msg.operation)
          then (ctx, msg)
          else send_service_unavailable p ctx msg)
      else next_request_block p ctx msg
