-- ===== src/Exchange/Upload.antt =====
-- A request of the server that comes in blocks (BLOCK1): a Write whose payload is delivered block by
-- block, each confirmed before the next arrives.
pub mod Whole
use anjay_lite.Base.{
  ℕ, ◌+◌, ◌^◌, ◌<◌, ◌≡◌, ◌≢◌, refl, Bool, true, false, none, some, arith, List, [], ◌∷◌, length, ap,
  ap₂, ◌∙◌,
}
use anjay_lite.Coap.{Msg, block_1, external, code_continue, code_bad_request}
use anjay_lite.Exchange.Process.{
  process, handle_send_confirmation, message_sent, send_prepared, handle_new_msg, message_handled,
}
use anjay_lite.Exchange.Request.{
  handle_server_request, next_request_block, write_request, read_response, send_response,
}
use anjay_lite.Exchange.{
  Ctx, Platform, Handlers, new_msg, send_confirmation, waiting_msg, finished, success,
  timeout_occurred, finalize_exchange, call_completion, processing_delay, reset_exchange_params,
  store_response,
}
use anjay_lite.Exchange.Setup.{zero_msg}
use anjay_lite.Time.{duration_add}

-- A block of the payload on its way: the bytes, the platform at its arrival and the one at the
-- confirmation of the answer.
pub record Delivery : Type 0 where
  pub bytes : List ℕ
  pub arrival : Platform
  pub confirmation : Platform

-- The block is not empty, and the answer goes out before the processing delay is over.
pub record InTime (d : Delivery) : Type 0 where
  pub not_empty : d.bytes ≢ []
  pub confirmed :
      timeout_occurred d.confirmation (duration_add d.arrival.now processing_delay) ≡ false

abbrev pub AllInTime : List Delivery → Type 0
AllInTime [] = Unit
AllInTime (d ∷ ds) = InTime d × AllInTime ds

module _ {A : Type 0} (write : A → List ℕ → ℕ → Bool → A × ℕ) where
  -- The message that carries the next block of the request.
  abbrev pub block_message : Ctx A → List ℕ → (more : Bool) → Msg
  block_message ctx bytes more = record zero_msg {
    operation = ctx.op;
    payload = external bytes;
    payload_size = length bytes;
    block = record {
      block_type = block_1;
      more_flag = more;
      number = ctx.block_number + 1;
      size = ctx.block_size;
    };
  }

  abbrev pub deliver : Ctx A → Delivery → (more : Bool) → Ctx A
  deliver ctx d more =
      (process d.confirmation (process d.arrival ctx new_msg (block_message ctx d.bytes more)).0
        send_confirmation (block_message ctx d.bytes more)).0

  pub deliver_all : Ctx A → List Delivery → Ctx A
  deliver_all ctx [] = ctx
  deliver_all ctx (d ∷ ds) = deliver_all (deliver ctx d true) ds

  -- A Write in blocks goes on: a handler writes, none reads, and the answer to the last block is a
  -- success code.
  pub record Receiving (ctx : Ctx A) : Type 0 where
    pub state_is : ctx.state ≡ waiting_msg
    pub by_server : ctx.server_request ≡ true
    pub no_response : ctx.confirmable ≡ false
    pub in_blocks : ctx.block_transfer ≡ true
    pub not_prepared : ctx.request_prepared ≡ false
    pub writes : ctx.handlers.write_payload ≡ some write
    pub no_reads : ctx.handlers.read_payload ≡ none
    pub code_is : ctx.msg_code < code_bad_request
    pub code_is_final : ctx.msg_code ≢ code_continue

  -- The user's state after blocks that are not the last.
  abbrev pub written : A → List Delivery → A
  written arg [] = arg
  written arg (d ∷ ds) = written (write arg d.bytes (length d.bytes) false).0 ds

  module _
      (accepts : (a : A) (bytes : List ℕ) (size : ℕ) (last : Bool)
        → (write a bytes size last).1 ≡ 0) where
    record Received (ctx : Ctx A) (d : Delivery) (end : Ctx A) : Type 0 where
      receiving : Receiving end
      counted : end.block_number ≡ ctx.block_number + 1
      same_completion : end.handlers ≡ ctx.handlers
      arg_is : end.arg ≡ (write ctx.arg d.bytes (length d.bytes) false).0

    deliver_more :
        (ctx : Ctx A) (d : Delivery)
        → Receiving ctx
        → InTime d
        → ctx.block_number + 1 < 2 ^ 32
        → Received ctx d (deliver ctx d true)
    unfolding process handle_new_msg message_handled handle_server_request next_request_block
        write_request send_response reset_exchange_params store_response handle_send_confirmation
        message_sent send_prepared
    deliver_more ctx d r t h = ground (arith, accepts ctx.arg d.bytes (length d.bytes) false)

    record Stored (n : ℕ) (ctx : Ctx A) (arg : A) (end : Ctx A) : Type 0 where
      receiving : Receiving end
      counted : end.block_number ≡ ctx.block_number + n
      same_handlers : end.handlers ≡ ctx.handlers
      arg_is : end.arg ≡ arg

    deliver_all-Stored :
        (ds : List Delivery) (ctx : Ctx A)
        → Receiving ctx
        → AllInTime ds
        → ctx.block_number + length ds < 2 ^ 32
        → Stored (length ds) ctx (written ctx.arg ds) (deliver_all ctx ds)
    unfolding deliver_all
    deliver_all-Stored [] ctx r t h = record {
      receiving = r;
      counted = omega arith;
      same_handlers = refl;
      arg_is = refl;
    }
    deliver_all-Stored (d ∷ ds) ctx r (t, ts) h =
        let one = deliver_more ctx d r t (omega arith) in
        let rest =
          deliver_all-Stored ds (deliver ctx d true) one.receiving ts
            (omega (arith, one.counted)) in
        record {
          receiving = rest.receiving;
          counted = omega (arith, rest.counted, one.counted);
          same_handlers = rest.same_handlers ∙ one.same_completion;
          arg_is = rest.arg_is ∙ ap (λ (a : A). written a ds) one.arg_is;
        }

    record Completed (ctx : Ctx A) (d : Delivery) (end : Ctx A) : Type 0 where
      over : end.state ≡ finished
      arg_is :
          end.arg
          ≡ call_completion ctx.handlers.completion
              (write ctx.arg d.bytes (length d.bytes) true).0
              none
              success

    deliver_last :
        (ctx : Ctx A) (d : Delivery)
        → Receiving ctx
        → InTime d
        → ctx.block_number + 1 < 2 ^ 32
        → Completed ctx d (deliver ctx d false)
    unfolding process handle_new_msg message_handled handle_server_request next_request_block
        write_request read_response send_response reset_exchange_params store_response
        handle_send_confirmation message_sent send_prepared finalize_exchange
    deliver_last ctx d r t h = ground (arith, accepts ctx.arg d.bytes (length d.bytes) true)

    -- A Write of the server in blocks, with a handler that writes and accepts every block and none that
    -- reads, every block non-empty and its answer confirmed in time, and block numbers below 2 ^ 32:
    -- after the blocks of `ds` and the last block `d` the exchange is finished, the write handler has
    -- got the payloads in their order, only the last one marked as the last, and then the completion
    -- handler, if there is one, has been called once with success.
    pub upload_lem :
        (ctx : Ctx A) (ds : List Delivery) (d : Delivery)
        → Receiving ctx
        → AllInTime ds
        → InTime d
        → ctx.block_number + length ds + 1 < 2 ^ 32
        → ((deliver (deliver_all ctx ds) d false).state ≡ finished)
          × ((deliver (deliver_all ctx ds) d false).arg
              ≡ call_completion ctx.handlers.completion
                  (write (written ctx.arg ds) d.bytes (length d.bytes) true).0
                  none
                  success)
    upload_lem ctx ds d r ts t h =
        let all = deliver_all-Stored ds ctx r ts (omega arith) in
        let last =
          deliver_last (deliver_all ctx ds) d all.receiving t (omega (arith, all.counted)) in
        (
          last.over,
          last.arg_is
              ∙ ap₂
                  (λ (h : Handlers A) (a : A).
                    call_completion h.completion (write a d.bytes (length d.bytes) true).0 none
                      success)
                  all.same_handlers all.arg_is,
        )
