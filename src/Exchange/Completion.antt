-- ===== src/Exchange/Completion.antt =====
-- How often the completion handler of an exchange is called: the invariant, which counts the
-- calls made and the calls owed. The handlers of the user work on a state `A`.
pub mod Messages
pub mod Processing
pub mod Starting
pub mod Once
use anjay_lite.Base.{
  ℕ, suc, ◌+◌, ◌≡◌, refl, min, ◌&&◌, ◌==◌, Bool, true, false, not, List, Option, none, some, arith,
  if◌then◌else◌,
}
use anjay_lite.Coap.{Msg, is_block_option, block_1, block_2, inf_non_con_notify}
use anjay_lite.Exchange.{
  Ctx, State, Event, Platform, Result, Handlers, Read, finished, waiting_msg, msg_to_send, is_state,
  waiting_send_confirmation, success, error_server_response, error_timeout, contents,
  call_completion, call_write, call_read, finalize_exchange, new_msg, send_confirmation,
  reset_exchange_params, store_response, exchange_param_init, next_msg_id,
}
use anjay_lite.Exchange.Request.{
  send_response, read_response, write_request, next_request_block, handle_server_request,
}
use anjay_lite.Exchange.Response.{
  send_empty_ack, send_service_unavailable, send_next_request, continue_exchange,
  take_response_block, send_request_block, transfer_block, handle_server_response,
}
use anjay_lite.Exchange.Start.{
  answer, read_answer, accept_request, new_server_request, request_ready, notify_in_blocks,
  request_in_blocks, prepare_request, identify_request, new_client_request,
}
use anjay_lite.Utils.BlockSize.{determine_block_buffer_size}
use anjay_lite.Exchange.Process.{
  message_sent, handle_send_confirmation, send_prepared, retransmit, check_timeout, message_handled,
  handle_new_msg, process, terminate,
}

module _ {A : Type 0} where
  -- The calls that an unfinished exchange still owes: one, unless the handler was reset to the default.
  abbrev pub owed : Option (A → Option Msg → Result → A) → ℕ
  owed none = 0
  owed (some f) = 1

  abbrev pub pending : State → Option (A → Option Msg → Result → A) → ℕ
  pending finished c = 0
  pending _ c = owed c

module _ {A : Type 0} (count : A → ℕ) where
  abbrev pub CompletionCounts : Option (A → Option Msg → Result → A) → Type 0
  CompletionCounts none = Unit
  CompletionCounts (some f) =
      (a : A) (m : Option Msg) (r : Result) → count (f a m r) ≡ suc (count a)

  abbrev pub WriteKeeps : Option (A → List ℕ → ℕ → Bool → A × ℕ) → Type 0
  WriteKeeps none = Unit
  WriteKeeps (some f) =
      (a : A) (payload : List ℕ) (size : ℕ) (last : Bool)
      → count (f a payload size last).0 ≡ count a

  abbrev pub ReadKeeps : Option (A → List ℕ → ℕ → Read A) → Type 0
  ReadKeeps none = Unit
  ReadKeeps (some f) = (a : A) (buff : List ℕ) (size : ℕ) → count (f a buff size).arg ≡ count a

  -- `count` is the number of completion calls that the user's state has seen: the completion handler
  -- adds one, the two payload handlers leave it.
  pub record Tracks (h : Handlers A) : Type 0 where
    pub completes : CompletionCounts h.completion
    pub writes : WriteKeeps h.write_payload
    pub reads : ReadKeeps h.read_payload

  -- Calls made and calls owed are `n` together.
  pub record Tally (n : ℕ) (ctx : Ctx A) : Type 0 where
    pub tracked : Tracks ctx.handlers
    pub total : count ctx.arg + pending ctx.state ctx.handlers.completion ≡ n
    pub stored : is_state ctx.state msg_to_send ≡ false

  -- The same of an exchange that is known not to be finished.
  pub record Open (n : ℕ) (ctx : Ctx A) : Type 0 where
    pub tracked : Tracks ctx.handlers
    pub total : count ctx.arg + owed ctx.handlers.completion ≡ n

  pub count-completion :
      (c : Option (A → Option Msg → Result → A)) (a : A) (m : Option Msg) (r : Result)
      → CompletionCounts c
      → count (call_completion c a m r) ≡ count a + owed c
  count-completion none a m r h = omega arith
  count-completion (some f) a m r h = omega (arith, h a m r)

  pub count-write :
      (w : Option (A → List ℕ → ℕ → Bool → A × ℕ)) (a : A) (payload : List ℕ) (size : ℕ)
      (last : Bool)
      → WriteKeeps w
      → count (call_write w a payload size last).0 ≡ count a
  count-write none a payload size last h = refl
  count-write (some f) a payload size last h = h a payload size last

  pub count-read :
      (r : Option (A → List ℕ → ℕ → Read A)) (a : A) (buff : List ℕ) (size : ℕ)
      → ReadKeeps r
      → count (call_read r a buff size).arg ≡ count a
  count-read none a buff size h = refl
  count-read (some f) a buff size h = h a buff size

  module _ {n : ℕ} where
    pub finalize_exchange-Tally :
        (ctx : Ctx A) (m : Option Msg) (r : Result)
        → Open n ctx
        → Tally n (finalize_exchange ctx m r)
    unfolding finalize_exchange
    finalize_exchange-Tally ctx m r o = record {
      tracked = o.tracked;
      total = omega (
        arith,
        o.total,
        count-completion ctx.handlers.completion ctx.arg m r o.tracked.completes,
      );
      stored = refl;
    }

    -- A context that waits for the confirmation of its message is not finished.
    pub Open-Tally :
        {ctx : Ctx A} → Open n ctx → ctx.state ≡ waiting_send_confirmation → Tally n ctx
    Open-Tally o e = ground arith
