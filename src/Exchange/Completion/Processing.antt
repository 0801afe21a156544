-- ===== src/Exchange/Completion/Processing.antt =====
-- `process` and `terminate` keep the count of completion calls.
use anjay_lite.Base.{ℕ, ◌≡◌, false, none, arith}
use anjay_lite.Coap.{Msg}
use anjay_lite.Exchange.{
  Ctx, Event, Platform, Result, finished, waiting_msg, is_state, waiting_send_confirmation,
  error_timeout, reset_exchange_params,
}
use anjay_lite.Exchange.Process.{
  message_sent, handle_send_confirmation, send_prepared, retransmit, check_timeout, message_handled,
  handle_new_msg, process, terminate,
}
use anjay_lite.Exchange.Completion.{Tally, Open, finalize_exchange-Tally}
use anjay_lite.Exchange.Completion.Messages.{
  handle_server_request-Tally, handle_server_response-Tally,
}

module _ {A : Type 0} (count : A → ℕ) {n : ℕ} where
  pub check_timeout-Tally :
      (p : Platform) (ctx : Ctx A) (msg : Msg)
      → Open count n ctx
      → ctx.state ≡ waiting_msg
      → Tally count n (check_timeout p ctx msg).0
  unfolding check_timeout retransmit
  check_timeout-Tally p ctx msg o e =
      ground (arith, finalize_exchange-Tally count ctx none error_timeout o)

  pub message_handled-Tally :
      (p : Platform) (x : Ctx A × Msg) → Tally count n x.0 → Tally count n (message_handled p x).0
  unfolding message_handled
  message_handled-Tally p (ctx, msg) t = grind (arith, check_timeout-Tally)

  pub message_sent-Tally : (ctx : Ctx A) → Open count n ctx → Tally count n (message_sent ctx)
  unfolding message_sent
  message_sent-Tally ctx o = grind (arith, finalize_exchange-Tally count)

  pub handle_send_confirmation-Tally :
      (p : Platform) (ctx : Ctx A) (event : Event)
      → Open count n ctx
      → ctx.state ≡ waiting_send_confirmation
      → Tally count n (handle_send_confirmation p ctx event)
  unfolding handle_send_confirmation
  handle_send_confirmation-Tally p ctx event o e =
      ground
        (arith, finalize_exchange-Tally count ctx none error_timeout o, message_sent-Tally ctx o)

  pub send_prepared-Tally :
      (p : Platform) (ctx : Ctx A) (msg : Msg)
      → Tally count n ctx
      → Tally count n (send_prepared p ctx msg).0
  unfolding send_prepared reset_exchange_params
  send_prepared-Tally p ctx msg t = ground arith

  pub handle_new_msg-Tally :
      (p : Platform) (ctx : Ctx A) (msg : Msg)
      → Open count n ctx
      → ctx.state ≡ waiting_msg
      → Tally count n (handle_new_msg p ctx msg).0
  unfolding handle_new_msg
  handle_new_msg-Tally p ctx msg o e = message_handled-Tally p _ (
      ground (
        arith,
        handle_server_request-Tally count p ctx msg o e,
        handle_server_response-Tally count p ctx msg o e,
      ))

  -- One call of `process` in a waiting state keeps the tally.
  pub process-Tally :
      (p : Platform) (ctx : Ctx A) (event : Event) (msg : Msg)
      → Tally count n ctx
      → is_state ctx.state finished ≡ false
      → Tally count n (process p ctx event msg).0
  unfolding process
  process-Tally p ctx event msg t w =
      let o : Open count n ctx = ground arith in
      ground (
        arith,
        handle_new_msg-Tally p ctx msg o,
        check_timeout-Tally p ctx msg o,
        send_prepared-Tally p (handle_send_confirmation p ctx event) msg,
        handle_send_confirmation-Tally p ctx event o,
      )

  pub terminate-Tally :
      (ctx : Ctx A) (reason : Result) → Tally count n ctx → Tally count n (terminate ctx reason)
  unfolding terminate
  terminate-Tally ctx reason t = grind (arith, finalize_exchange-Tally count)
