-- ===== src/Exchange/Start.antt =====
-- The operations that begin an exchange (src/anj/exchange.c). The
-- assertions at their heads are what a caller must see to: `buff_len` is at least 16, and no exchange
-- goes on.
use anjay_lite.Base.{
  ℕ, true, false, not, ◌&&◌, ◌||◌, List, none, some, ◌==◌, leb, min, if◌then◌else◌,
}
use anjay_lite.Coap.{
  Msg, block_not_defined, block_1, block_2, is_block_option, own_buffer, is_op, inf_con_notify,
  inf_non_con_notify, inf_con_send, inf_non_con_send, coap_ping_udp, coap_reset, code_continue,
  code_bad_request, code_internal_server_error,
}
use anjay_lite.Exchange.{
  Ctx, State, Handlers, Platform, msg_to_send, waiting_send_confirmation, finished, error_request,
  block_transfer_needed, call_write, call_read, contents, finalize_exchange, exchange_param_init,
  store_response, next_msg_id, with_created,
}
use anjay_lite.Exchange.Request.{response_operation}
use anjay_lite.Utils.BlockSize.{determine_block_buffer_size}

module _ {A : Type 0} where
  -- `respone_with_error:`, which every answer passes
  unfoldable pub answer : Platform → Ctx A → Msg → (result : ℕ) → Ctx A × Msg × State
  answer p ctx msg result =
      let failed = not (result == 0) && not (result == block_transfer_needed) in
      let msg' =
        if failed
        then record msg {
          msg_code = result;
          payload_size = 0;
          block = record msg.block { block_type = block_not_defined };
        }
        else msg in
      let ctx' = record ctx {
        block_transfer = if failed then false else ctx.block_transfer;
        msg_code = if failed then result else ctx.msg_code;
        state = waiting_send_confirmation;
      } in
      (store_response p ctx' msg', msg', msg_to_send)

  -- "if (!result && !ctx->block_transfer)": the payload of the answer
  unfoldable pub read_answer : Platform → Ctx A → Msg → Ctx A × Msg × State
  read_answer p ctx msg =
      let size =
        if is_block_option msg.block.block_type block_2
        then min ctx.block_size msg.block.size
        else ctx.block_size in
      let r = call_read ctx.handlers.read_payload ctx.arg ctx.payload_buff size in
      let needed = r.code == block_transfer_needed in
      let ctx' = record ctx {
        arg = r.arg;
        payload_buff = r.buff;
        block_size = size;
        block_transfer = if needed then true else ctx.block_transfer;
      } in
      answer p ctx'
        (record msg {
          payload = own_buffer;
          payload_size = r.out.payload_len;
          content_format = r.out.format;
          attr = with_created r.out msg.attr;
          block =
              if needed
              then record { more_flag = true; number = 0; block_type = block_2; size = size }
              else record msg.block { block_type = block_not_defined };
        })
        r.code

  -- The rest, for a request that is not refused.
  unfoldable pub accept_request :
      Platform → Ctx A → Msg → (response_msg_code : ℕ) → Ctx A × Msg × State
  accept_request p ctx msg code =
      let more =
        is_block_option msg.block.block_type block_1
        && msg.block.more_flag
        && not (msg.payload_size == 0) in
      let (arg, result) =
        if msg.payload_size == 0
        then (ctx.arg, 0)
        else call_write ctx.handlers.write_payload ctx.arg (contents ctx msg.payload)
            msg.payload_size (not more) in
      let ctx' = record ctx { arg = arg; block_transfer = more } in
      let msg' = record msg { msg_code = if more then code_continue else code; payload_size = 0 } in
      if result == 0 && not more then read_answer p ctx' msg' else answer p ctx' msg' result

  -- `_anj_exchange_new_server_request`; `buff` is what the buffer holds
  unfoldable pub new_server_request :
      Platform
      → Ctx A
      → (response_msg_code : ℕ) → Msg
      → Handlers A
      → (arg : A) → (buff : List ℕ) → (buff_len : ℕ) → Ctx A × Msg × State
  unfolding exchange_param_init
  new_server_request p ctx code msg handlers arg buff buff_len =
      let (ctx', done) = exchange_param_init p p.first_random (record ctx {
        block_size = determine_block_buffer_size buff_len;
        payload_buff = buff;
        server_request = true;
        confirmable = false;
        handlers = handlers;
        arg = arg;
        op = msg.operation;
        msg_code = code;
      }) in
      let msg' = record msg { operation = response_operation msg.operation } in
      if not done
      then answer p ctx' msg code_internal_server_error
      else if is_op msg.operation coap_ping_udp
      then (
        record ctx' { state = waiting_send_confirmation },
        record msg { operation = coap_reset },
        msg_to_send,
      )
      else if leb code_bad_request code
      then answer p ctx' msg' code
      else accept_request p ctx' msg' code

  -- The end of `_anj_exchange_new_client_request`.
  unfoldable pub request_ready : Ctx A → Msg → Ctx A × Msg × State
  request_ready ctx msg =
      (record ctx { state = waiting_send_confirmation; base_msg = msg }, msg, msg_to_send)

  abbrev pub give_up_request : Ctx A → Msg → Ctx A × Msg × State
  give_up_request ctx msg = (finalize_exchange ctx none error_request, msg, finished)

  -- "if (*op == ANJ_OP_INF_NON_CON_NOTIFY || *op == ANJ_OP_INF_CON_NOTIFY)": a notification that does
  -- not fit one message goes on as a Read by the server
  unfoldable pub notify_in_blocks : Platform → Ctx A → Msg → Ctx A × Msg × State
  notify_in_blocks p ctx msg =
      let msg' = record msg {
        operation = inf_non_con_notify;
        block = record msg.block { block_type = block_2 };
      } in
      let (ctx', done) =
        exchange_param_init p p.second_random
          (record ctx { confirmable = false; server_request = true; op = inf_non_con_notify }) in
      if done then request_ready ctx' msg' else give_up_request ctx' msg'

  -- "if (result == _ANJ_EXCHANGE_BLOCK_TRANSFER_NEEDED)"
  unfoldable pub request_in_blocks : Platform → Ctx A → Msg → Ctx A × Msg × State
  request_in_blocks p ctx msg =
      let send = is_op msg.operation inf_non_con_send in
      let ctx' = record ctx {
        block_transfer = true;
        confirmable = if send then true else ctx.confirmable;
      } in
      let msg' = record msg {
        operation = if send then inf_con_send else msg.operation;
        block = record {
          more_flag = true;
          number = 0;
          block_type = block_1;
          size = ctx.block_size;
        };
      } in
      if is_op msg'.operation inf_non_con_notify || is_op msg'.operation inf_con_notify
      then notify_in_blocks p ctx' msg'
      else request_ready ctx' msg'

  -- From the call of `read_payload` on.
  unfoldable pub prepare_request : Platform → Ctx A → Msg → Ctx A × Msg × State
  prepare_request p ctx msg =
      let r = call_read ctx.handlers.read_payload ctx.arg ctx.payload_buff ctx.block_size in
      let ctx' = record ctx { arg = r.arg; payload_buff = r.buff } in
      let msg' = record msg {
        payload = own_buffer;
        payload_size = r.out.payload_len;
        content_format = r.out.format;
      } in
      if r.code == block_transfer_needed
      then request_in_blocks p ctx' msg'
      else if r.code == 0
      then request_ready ctx' msg'
      else give_up_request ctx' msg'

  -- The message identifier and the timeouts, once there is a token.
  unfoldable pub identify_request : Platform → Ctx A → Msg → Ctx A × Msg × State
  identify_request p ctx msg =
      let mid = next_msg_id ctx in
      let msg' = record msg { message_id = mid } in
      let (ctx', done) = exchange_param_init p p.first_random (record ctx { msg_id = mid }) in
      if done then prepare_request p ctx' msg' else give_up_request ctx' msg'

  -- `_anj_exchange_new_client_request`
  unfoldable pub new_client_request :
      Platform
      → Ctx A
      → Msg
      → Handlers A
      → (arg : A) → (buff : List ℕ) → (buff_len : ℕ) → Ctx A × Msg × State
  new_client_request p ctx msg handlers arg buff buff_len =
      let op = msg.operation in
      let notify = is_op op inf_con_notify || is_op op inf_non_con_notify in
      let ctx' = record ctx {
        block_size = determine_block_buffer_size buff_len;
        payload_buff = buff;
        server_request = false;
        block_transfer = false;
        msg_code = 0;
        handlers = handlers;
        arg = arg;
        confirmable = not (is_op op inf_non_con_send || is_op op inf_non_con_notify);
      } in
      if notify then identify_request p ctx' msg else elim p.random_token [
        | none ↦ give_up_request ctx' (record msg { token = record msg.token { size = 8 } })
        | some bytes ↦
            identify_request p ctx' (record msg { token = record { size = 8; bytes = bytes } })
      ]
