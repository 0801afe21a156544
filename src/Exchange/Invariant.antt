-- ===== src/Exchange/Invariant.antt =====
-- The invariant of the exchange's context between the calls of the module.
pub mod Messages
pub mod Processing
pub mod Starting
pub mod Always
use anjay_lite.Base.{ℕ, ◌^◌, ◌≤◌, ◌<◌, ◌≡◌, true, false, not, ◌||◌, Option, arith}
use anjay_lite.Coap.{Msg}
use anjay_lite.Exchange.{
  Ctx, Result, finished, waiting_msg, waiting_send_confirmation, msg_to_send, is_state,
  finalize_exchange,
}

module _ {A : Type 0} where
  -- The ranges of the counters. A prepared request waits for an empty response only in an exchange
  -- that the client began.
  pub record InRange (ctx : Ctx A) : Type 0 where
    pub retries : ctx.retry_count ≤ ctx.tx_params.max_retransmit
    pub limit : ctx.tx_params.max_retransmit < 2 ^ 16
    pub block_in_range : ctx.block_number < 2 ^ 32
    pub id_in_range : ctx.msg_id < 2 ^ 16
    pub prepared_by_client : (not ctx.request_prepared || not ctx.server_request) ≡ true

  -- Between calls the state is never `msg_to_send`, which is only returned. A finished exchange has no
  -- block transfer and no prepared request.
  pub record IsValid (ctx : Ctx A) : Type 0 where
    pub in_range : InRange ctx
    pub stored : is_state ctx.state msg_to_send ≡ false
    pub idle_transfer : (not (is_state ctx.state finished) || not ctx.block_transfer) ≡ true
    pub idle_request : (not (is_state ctx.state finished) || not ctx.request_prepared) ≡ true

  pub finalize_exchange-IsValid :
      (ctx : Ctx A) (m : Option Msg) (r : Result)
      → InRange ctx
      → IsValid (finalize_exchange ctx m r)
  unfolding finalize_exchange
  finalize_exchange-IsValid ctx m r v = ground arith

  pub waiting_msg-IsValid : {ctx : Ctx A} → InRange ctx → ctx.state ≡ waiting_msg → IsValid ctx
  waiting_msg-IsValid v e = ground arith

  pub confirmation-IsValid :
      {ctx : Ctx A} → InRange ctx → ctx.state ≡ waiting_send_confirmation → IsValid ctx
  confirmation-IsValid v e = ground arith
