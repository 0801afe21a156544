-- ===== src/Exchange/Completion/Starting.antt =====
-- A new exchange owes one completion call.
use anjay_lite.Base.{
  ℕ, ◌+◌, ◌≡◌, min, inl, inr, ◌||◌, Option-cases, ◌&&◌, ◌==◌, true, false, not, List, Option, none,
  arith, if◌then◌else◌,
}
use anjay_lite.Coap.{
  Msg, is_block_option, block_1, block_2, inf_non_con_notify, inf_non_con_send, is_op,
}
use anjay_lite.Exchange.{
  Ctx, Platform, Handlers, error_request, contents, store_response, exchange_param_init,
  next_msg_id,
}
use anjay_lite.Exchange.Start.{
  answer, read_answer, accept_request, new_server_request, request_ready, notify_in_blocks,
  request_in_blocks, prepare_request, identify_request, new_client_request,
}
use anjay_lite.Utils.BlockSize.{determine_block_buffer_size}
use anjay_lite.Exchange.Completion.{
  Tally, Open, Tracks, owed, count-write, count-read, finalize_exchange-Tally,
}

module _ {A : Type 0} (count : A → ℕ) {n : ℕ} where
  pub answer-Tally :
      (p : Platform) (ctx : Ctx A) (msg : Msg) (result : ℕ)
      → Open count n ctx
      → Tally count n (answer p ctx msg result).0
  unfolding answer store_response
  answer-Tally p ctx msg result o = ground arith

  pub read_answer-Tally :
      (p : Platform) (ctx : Ctx A) (msg : Msg)
      → Open count n ctx
      → Tally count n (read_answer p ctx msg).0
  unfolding read_answer
  read_answer-Tally p ctx msg o =
      let size =
        if is_block_option msg.block.block_type block_2
        then min ctx.block_size msg.block.size
        else ctx.block_size in
      grind (
        arith,
        count-read count ctx.handlers.read_payload ctx.arg ctx.payload_buff size o.tracked.reads,
        answer-Tally,
      )

  pub accept_request-Tally :
      (p : Platform) (ctx : Ctx A) (msg : Msg) (code : ℕ)
      → Open count n ctx
      → Tally count n (accept_request p ctx msg code).0
  unfolding accept_request
  accept_request-Tally p ctx msg code o =
      let more =
        is_block_option msg.block.block_type block_1
        && msg.block.more_flag
        && not (msg.payload_size == 0) in
      grind (
        arith,
        count-write count ctx.handlers.write_payload ctx.arg (contents ctx msg.payload)
            msg.payload_size (not more) o.tracked.writes,
        answer-Tally,
        read_answer-Tally,
      )

  pub exchange_param_init-Open :
      (p : Platform) (random : Option ℕ) (ctx : Ctx A)
      → Open count n ctx
      → Open count n (exchange_param_init p random ctx).0
  unfolding exchange_param_init
  exchange_param_init-Open p random ctx o = ground arith

  pub new_server_request-Tally :
      (p : Platform) (ctx : Ctx A) (code : ℕ) (msg : Msg) (h : Handlers A) (arg : A) (buff : List ℕ)
      (buff_len : ℕ)
      → Tracks count h
      → count arg + owed h.completion ≡ n
      → Tally count n (new_server_request p ctx code msg h arg buff buff_len).0
  unfolding new_server_request
  new_server_request-Tally p ctx code msg h arg buff buff_len t e =
      let ctx' = record ctx {
        block_size = determine_block_buffer_size buff_len;
        payload_buff = buff;
        server_request = true;
        confirmable = false;
        handlers = h;
        arg = arg;
        op = msg.operation;
        msg_code = code;
      } in
      let o : Open count n ctx' = record { tracked = t; total = e } in
      grind (
        arith,
        exchange_param_init-Open p p.first_random ctx' o,
        answer-Tally,
        accept_request-Tally,
      )

  pub notify_in_blocks-Tally :
      (p : Platform) (ctx : Ctx A) (msg : Msg)
      → Open count n ctx
      → Tally count n (notify_in_blocks p ctx msg).0
  unfolding notify_in_blocks request_ready
  notify_in_blocks-Tally p ctx msg o =
      let ctx' = record ctx {
        confirmable = false;
        server_request = true;
        op = inf_non_con_notify;
      } in
      let o' : Open count n ctx' = record { tracked = o.tracked; total = o.total } in
      grind
        (arith, exchange_param_init-Open p p.second_random ctx' o', finalize_exchange-Tally count)

  pub request_in_blocks-Tally :
      (p : Platform) (ctx : Ctx A) (msg : Msg)
      → Open count n ctx
      → Tally count n (request_in_blocks p ctx msg).0
  unfolding request_in_blocks request_ready
  request_in_blocks-Tally p ctx msg o = grind (arith, notify_in_blocks-Tally)

  pub prepare_request-Tally :
      (p : Platform) (ctx : Ctx A) (msg : Msg)
      → Open count n ctx
      → Tally count n (prepare_request p ctx msg).0
  unfolding prepare_request request_ready
  prepare_request-Tally p ctx msg o = grind (
    arith,
    count-read count ctx.handlers.read_payload ctx.arg ctx.payload_buff ctx.block_size
        o.tracked.reads,
    request_in_blocks-Tally,
    finalize_exchange-Tally count,
  )

  pub identify_request-Tally :
      (p : Platform) (ctx : Ctx A) (msg : Msg)
      → Open count n ctx
      → Tally count n (identify_request p ctx msg).0
  unfolding identify_request
  identify_request-Tally p ctx msg o =
      let ctx' = record ctx { msg_id = next_msg_id ctx } in
      let o' : Open count n ctx' = record { tracked = o.tracked; total = o.total } in
      let (ctx'', done) = exchange_param_init p p.first_random ctx' in
      let o'' : Open count n ctx'' = exchange_param_init-Open p p.first_random ctx' o' in
      let msg' = record msg { message_id = next_msg_id ctx } in
      ground (
        arith,
        prepare_request-Tally p ctx'' msg' o'',
        finalize_exchange-Tally count ctx'' none error_request o'',
      )

  pub new_client_request-Tally :
      (p : Platform) (ctx : Ctx A) (msg : Msg) (h : Handlers A) (arg : A) (buff : List ℕ)
      (buff_len : ℕ)
      → Tracks count h
      → count arg + owed h.completion ≡ n
      → Tally count n (new_client_request p ctx msg h arg buff buff_len).0
  unfolding new_client_request
  new_client_request-Tally p ctx msg h arg buff buff_len t e =
      let op = msg.operation in
      let ctx' = record ctx {
        block_size = determine_block_buffer_size buff_len;
        payload_buff = buff;
        server_request = false;
        block_transfer = false;
        msg_code = 0;
        handlers = h;
        arg = arg;
        confirmable = not (is_op op inf_non_con_send || is_op op inf_non_con_notify);
      } in
      let o : Open count n ctx' = record { tracked = t; total = e } in
      elim (Option-cases p.random_token) [
        | inl e ↦ ground (
          arith,
          identify_request-Tally p ctx' msg o,
          finalize_exchange-Tally count ctx' none error_request o,
        )
        | inr (bytes, e) ↦ ground (
          arith,
          identify_request-Tally p ctx' msg o,
          identify_request-Tally p ctx' (record msg { token = record { size = 8; bytes = bytes } })
              o,
        )
      ]
