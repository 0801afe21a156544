-- ===== src/Exchange/Invariant/Starting.antt =====
-- A new exchange owes one completion call.
use anjay_lite.Base.{
  ℕ, ◌≡◌, ◌∙◌, min, inl, inr, ◌||◌, Option-cases, ◌&&◌, ◌==◌, true, false, not, List, Option, none,
  arith, if◌then◌else◌,
}
use anjay_lite.Coap.{
  Msg, is_block_option, block_1, block_2, inf_non_con_notify, inf_non_con_send, is_op,
}
use anjay_lite.Exchange.{
  Ctx, Platform, Handlers, finished, is_state, error_request, store_response, exchange_param_init,
  next_msg_id,
}
use anjay_lite.Exchange.Start.{
  answer, read_answer, accept_request, new_server_request, request_ready, notify_in_blocks,
  request_in_blocks, prepare_request, identify_request, new_client_request,
}
use anjay_lite.Utils.BlockSize.{determine_block_buffer_size}
use anjay_lite.Exchange.Invariant.{IsValid, InRange, finalize_exchange-IsValid}

module _ {A : Type 0} where
  pub answer-IsValid :
      (p : Platform) (ctx : Ctx A) (msg : Msg) (result : ℕ)
      → InRange ctx
      → IsValid (answer p ctx msg result).0
  unfolding answer store_response
  answer-IsValid p ctx msg result o = ground arith

  pub read_answer-IsValid :
      (p : Platform) (ctx : Ctx A) (msg : Msg) → InRange ctx → IsValid (read_answer p ctx msg).0
  unfolding read_answer
  read_answer-IsValid p ctx msg o =
      let size =
        if is_block_option msg.block.block_type block_2
        then min ctx.block_size msg.block.size
        else ctx.block_size in
      grind (arith, answer-IsValid)

  pub accept_request-IsValid :
      (p : Platform) (ctx : Ctx A) (msg : Msg) (code : ℕ)
      → InRange ctx
      → IsValid (accept_request p ctx msg code).0
  unfolding accept_request
  accept_request-IsValid p ctx msg code o =
      let more =
        is_block_option msg.block.block_type block_1
        && msg.block.more_flag
        && not (msg.payload_size == 0) in
      grind (arith, answer-IsValid, read_answer-IsValid)

  pub exchange_param_init-InRange :
      (p : Platform) (random : Option ℕ) (ctx : Ctx A)
      → InRange ctx
      → InRange (exchange_param_init p random ctx).0
        × ((exchange_param_init p random ctx).0.request_prepared ≡ ctx.request_prepared)
  unfolding exchange_param_init
  exchange_param_init-InRange p random ctx o = ground arith

  pub new_server_request-IsValid :
      (p : Platform) (ctx : Ctx A) (code : ℕ) (msg : Msg) (h : Handlers A) (arg : A) (buff : List ℕ)
      (buff_len : ℕ)
      → IsValid ctx
      → is_state ctx.state finished ≡ true
      → IsValid (new_server_request p ctx code msg h arg buff buff_len).0
  unfolding new_server_request
  new_server_request-IsValid p ctx code msg h arg buff buff_len t e =
      let ctx' = record ctx {
        block_size = determine_block_buffer_size buff_len;
        payload_buff = buff;
        server_request = true;
        confirmable = false;
        handlers = h;
        arg = arg;
        op = msg.operation;
        msg_code = code;
      } in
      let o : InRange ctx' = ground arith in
      grind (
        arith,
        exchange_param_init-InRange p p.first_random ctx' o,
        answer-IsValid,
        accept_request-IsValid,
      )

  pub notify_in_blocks-IsValid :
      (p : Platform) (ctx : Ctx A) (msg : Msg)
      → InRange ctx
      → ctx.request_prepared ≡ false
      → IsValid (notify_in_blocks p ctx msg).0
  unfolding notify_in_blocks request_ready
  notify_in_blocks-IsValid p ctx msg o q =
      let ctx' = record ctx {
        confirmable = false;
        server_request = true;
        op = inf_non_con_notify;
      } in
      let o' : InRange ctx' = ground arith in
      grind
        (arith, exchange_param_init-InRange p p.second_random ctx' o', finalize_exchange-IsValid)

  pub request_in_blocks-IsValid :
      (p : Platform) (ctx : Ctx A) (msg : Msg)
      → InRange ctx
      → ctx.request_prepared ≡ false
      → IsValid (request_in_blocks p ctx msg).0
  unfolding request_in_blocks request_ready
  request_in_blocks-IsValid p ctx msg o q = grind (arith, notify_in_blocks-IsValid)

  pub prepare_request-IsValid :
      (p : Platform) (ctx : Ctx A) (msg : Msg)
      → InRange ctx
      → ctx.request_prepared ≡ false
      → IsValid (prepare_request p ctx msg).0
  unfolding prepare_request request_ready
  prepare_request-IsValid p ctx msg o q =
      grind (arith, request_in_blocks-IsValid, finalize_exchange-IsValid)

  pub identify_request-IsValid :
      (p : Platform) (ctx : Ctx A) (msg : Msg)
      → InRange ctx
      → ctx.request_prepared ≡ false
      → IsValid (identify_request p ctx msg).0
  unfolding identify_request
  identify_request-IsValid p ctx msg o q =
      let ctx' = record ctx { msg_id = next_msg_id ctx } in
      let o' : InRange ctx' = ground arith in
      let (ctx'', done) = exchange_param_init p p.first_random ctx' in
      let (o'', q'') = exchange_param_init-InRange p p.first_random ctx' o' in
      let msg' = record msg { message_id = next_msg_id ctx } in
      ground (
        arith,
        prepare_request-IsValid p ctx'' msg' o'' (q'' ∙ q),
        finalize_exchange-IsValid ctx'' none error_request o'',
      )

  pub new_client_request-IsValid :
      (p : Platform) (ctx : Ctx A) (msg : Msg) (h : Handlers A) (arg : A) (buff : List ℕ)
      (buff_len : ℕ)
      → IsValid ctx
      → is_state ctx.state finished ≡ true
      → IsValid (new_client_request p ctx msg h arg buff buff_len).0
  unfolding new_client_request
  new_client_request-IsValid p ctx msg h arg buff buff_len t e =
      let op = msg.operation in
      let ctx' = record ctx {
        block_size = determine_block_buffer_size buff_len;
        payload_buff = buff;
        server_request = false;
        block_transfer = false;
        msg_code = 0;
        handlers = h;
        arg = arg;
        confirmable = not (is_op op inf_non_con_send || is_op op inf_non_con_notify);
      } in
      let o : InRange ctx' = ground arith in
      let q : ctx.request_prepared ≡ false = ground arith in
      elim (Option-cases p.random_token) [
        | inl r ↦ ground (
          arith,
          identify_request-IsValid p ctx' msg o q,
          finalize_exchange-IsValid ctx' none error_request o,
        )
        | inr (bytes, r) ↦ ground (
          arith,
          identify_request-IsValid p ctx' msg o q,
          identify_request-IsValid p ctx'
              (record msg { token = record { size = 8; bytes = bytes } }) o q,
        )
      ]
