-- ===== src/Exchange/Invariant/Processing.antt =====
-- `process` and `terminate` keep the of completion calls.
use anjay_lite.Base.{◌≡◌, false, none, arith}
use anjay_lite.Coap.{Msg}
use anjay_lite.Exchange.{
  Ctx, Event, Platform, Result, finished, waiting_msg, is_state, waiting_send_confirmation,
  error_timeout, reset_exchange_params,
}
use anjay_lite.Exchange.Process.{
  message_sent, handle_send_confirmation, send_prepared, retransmit, check_timeout, message_handled,
  handle_new_msg, process, terminate,
}
use anjay_lite.Exchange.Invariant.{IsValid, InRange, finalize_exchange-IsValid}
use anjay_lite.Exchange.Invariant.Messages.{
  handle_server_request-IsValid, handle_server_response-IsValid,
}

module _ {A : Type 0} where
  pub check_timeout-IsValid :
      (p : Platform) (ctx : Ctx A) (msg : Msg)
      → InRange ctx
      → ctx.state ≡ waiting_msg
      → IsValid (check_timeout p ctx msg).0
  unfolding check_timeout retransmit
  check_timeout-IsValid p ctx msg o e =
      ground (arith, finalize_exchange-IsValid ctx none error_timeout o)

  pub message_handled-IsValid :
      (p : Platform) (x : Ctx A × Msg) → IsValid x.0 → IsValid (message_handled p x).0
  unfolding message_handled
  message_handled-IsValid p (ctx, msg) t = grind (arith, check_timeout-IsValid)

  pub message_sent-IsValid : (ctx : Ctx A) → InRange ctx → IsValid (message_sent ctx)
  unfolding message_sent
  message_sent-IsValid ctx o = grind (arith, finalize_exchange-IsValid)

  pub handle_send_confirmation-IsValid :
      (p : Platform) (ctx : Ctx A) (event : Event)
      → InRange ctx
      → ctx.state ≡ waiting_send_confirmation
      → IsValid (handle_send_confirmation p ctx event)
  unfolding handle_send_confirmation
  handle_send_confirmation-IsValid p ctx event o e =
      ground (arith, finalize_exchange-IsValid ctx none error_timeout o, message_sent-IsValid ctx o)

  pub send_prepared-IsValid :
      (p : Platform) (ctx : Ctx A) (msg : Msg) → IsValid ctx → IsValid (send_prepared p ctx msg).0
  unfolding send_prepared reset_exchange_params
  send_prepared-IsValid p ctx msg t = ground arith

  pub handle_new_msg-IsValid :
      (p : Platform) (ctx : Ctx A) (msg : Msg)
      → InRange ctx
      → ctx.state ≡ waiting_msg
      → IsValid (handle_new_msg p ctx msg).0
  unfolding handle_new_msg
  handle_new_msg-IsValid p ctx msg o e = message_handled-IsValid p _ (
      ground (
        arith,
        handle_server_request-IsValid p ctx msg o e,
        λ (c : ctx.server_request ≡ false). handle_server_response-IsValid p ctx msg o c e,
      ))

  -- One call of `process` in a waiting state keeps the tally.
  pub process-IsValid :
      (p : Platform) (ctx : Ctx A) (event : Event) (msg : Msg)
      → IsValid ctx
      → is_state ctx.state finished ≡ false
      → IsValid (process p ctx event msg).0
  unfolding process
  process-IsValid p ctx event msg t w =
      let o : InRange ctx = ground arith in
      ground (
        arith,
        handle_new_msg-IsValid p ctx msg o,
        check_timeout-IsValid p ctx msg o,
        send_prepared-IsValid p (handle_send_confirmation p ctx event) msg,
        handle_send_confirmation-IsValid p ctx event o,
      )

  pub terminate-IsValid :
      (ctx : Ctx A) (reason : Result) → IsValid ctx → IsValid (terminate ctx reason)
  unfolding terminate
  terminate-IsValid ctx reason t = grind (arith, finalize_exchange-IsValid)
