-- ===== src/Exchange/Upload/Whole.antt =====
-- A Write of the server in blocks, from the first block to the last (src/anj/exchange.c).
use anjay_lite.Base.{
  arith, ◌≡◌, ◌≢◌, ◌∙◌, ap₂, [], ℕ, ◌+◌, ◌^◌, ◌<◌, Bool, true, false, List, length, none, some,
}
use anjay_lite.Coap.{Msg, block_1, external, is_op, coap_ping_udp, code_continue, code_bad_request}
use anjay_lite.Exchange.{
  Ctx, Platform, Handlers, send_confirmation, finished, success, timeout_occurred, call_completion,
  processing_delay, exchange_param_init, choose_timeout, store_response,
}
use anjay_lite.Exchange.Process.{process, handle_send_confirmation, message_sent, send_prepared}
use anjay_lite.Exchange.Start.{new_server_request, accept_request, answer}
use anjay_lite.Exchange.Upload.{
  Delivery, InTime, AllInTime, Receiving, deliver, deliver_all, written, upload_lem,
}
use anjay_lite.Time.{duration_add}

-- The first block of a Write: a request with a payload that more blocks follow, whose answer is a success
-- code, given to handlers of which one writes and none reads.
pub record FirstBlock {A : Type 0} (write : A → List ℕ → ℕ → Bool → A × ℕ) (code : ℕ) (msg : Msg)
    (h : Handlers A) (bytes : List ℕ) : Type 0 where
  pub not_ping : is_op msg.operation coap_ping_udp ≡ false
  pub is_block_1 : msg.block.block_type ≡ block_1
  pub more_follow : msg.block.more_flag ≡ true
  pub payload_is : msg.payload ≡ external bytes
  pub size_is : msg.payload_size ≡ length bytes
  pub not_empty : bytes ≢ []
  pub writes : h.write_payload ≡ some write
  pub no_reads : h.read_payload ≡ none
  pub code_is : code < code_bad_request
  pub code_is_final : code ≢ code_continue

module _ {A : Type 0} (write : A → List ℕ → ℕ → Bool → A × ℕ)
    (accepts : (a : A) (bytes : List ℕ) (size : ℕ) (last : Bool) → (write a bytes size last).1 ≡ 0)
    (p q : Platform) (ctx : Ctx A) (code : ℕ) (msg : Msg) (h : Handlers A) (arg : A) (buff : List ℕ)
    (buff_len : ℕ) where
  -- The exchange where the answer to the first block has gone out
  abbrev pub begun : Ctx A
  begun =
      (process q (new_server_request p ctx code msg h arg buff buff_len).0 send_confirmation msg).0

  record Begun (bytes : List ℕ) (end : Ctx A) : Type 0 where
    receiving : Receiving write end
    counted : end.block_number ≡ 0
    same_completion : end.handlers ≡ h
    arg_is : end.arg ≡ (write arg bytes (length bytes) false).0

  begun-Begun :
      (bytes : List ℕ)
      → FirstBlock write code msg h bytes
      → ctx.request_prepared ≡ false
      → timeout_occurred q (duration_add p.now processing_delay) ≡ false
      → Begun bytes begun
  unfolding process new_server_request accept_request answer exchange_param_init choose_timeout
      store_response handle_send_confirmation message_sent send_prepared
  begun-Begun bytes f i t = ground (arith, f, i, t, accepts arg bytes (length bytes) false)

  -- A Write of the server in blocks, begun in a context with no request prepared: a first block that more
  -- blocks follow, then the blocks of `ds` and the last block `d`, none of them empty, every answer
  -- confirmed before the processing delay is over, block numbers below 2 ^ 32, a handler that writes and
  -- accepts every block, none that reads, and a success code as the answer. The write handler gets all
  -- payloads, in their order and each once, only the last one marked as the last, then the completion
  -- handler, if there is one, is called once with success, and the exchange is finished.
  pub write_in_blocks :
      (bytes : List ℕ) (ds : List Delivery) (d : Delivery)
      → FirstBlock write code msg h bytes
      → ctx.request_prepared ≡ false
      → timeout_occurred q (duration_add p.now processing_delay) ≡ false
      → AllInTime ds
      → InTime d
      → length ds + 1 < 2 ^ 32
      → ((deliver write (deliver_all write begun ds) d false).state ≡ finished)
        × ((deliver write (deliver_all write begun ds) d false).arg
            ≡ call_completion h.completion
                (write
                  (written write (write arg bytes (length bytes) false).0 ds)
                  d.bytes
                  (length d.bytes)
                  true).0
                none
                success)
  write_in_blocks bytes ds d f i t ts last n =
      let b = begun-Begun bytes f i t in
      let (over, told) =
        upload_lem write accepts begun ds d b.receiving ts last (omega (arith, n, b.counted)) in
      (
        over,
        told
            ∙ ap₂
                (λ (g : Handlers A) (a : A).
                  call_completion g.completion
                    (write (written write a ds) d.bytes (length d.bytes) true).0 none success)
                b.same_completion b.arg_is,
      )
