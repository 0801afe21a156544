-- ===== src/Exchange.antt =====
-- src/anj/exchange.c and include_public/anj_internal/exchange.h: one CoAP exchange at a time. This
-- file has the context, the handlers and the helpers that the operations share.
pub mod Response
pub mod Request
pub mod Setup
pub mod Start
pub mod Process
pub mod Trace
pub mod Invariant
pub mod Retransmission
pub mod Upload
pub mod Completion
mod Examples
mod Tests
use anjay_lite.Base.{ℕ, ◌+◌, ◌%◌, ◌^◌, Bool, true, false, List, Option, none, some, if◌then◌else◌}
use anjay_lite.Base.Int.{pos}
use anjay_lite.Coap.{Op, Msg, Payload, own_buffer, external, Attr, create_attr, format_not_defined}
use anjay_lite.ExchangeCache.{Cache, Floats, TxParams, cache_add}
use anjay_lite.Time.{Duration, Monotonic, second, duration_new, duration_add, duration_geq}

-- `_anj_exchange_state_t`
pub data State : Type 0 where
  msg_to_send waiting_send_confirmation waiting_msg finished : State

-- `_anj_exchange_event_t`
pub data Event : Type 0 where
  new_msg send_confirmation no_event : Event

-- The `_ANJ_EXCHANGE_RESULT_SUCCESS` and `_ANJ_EXCHANGE_ERROR_...` codes
pub data Result : Type 0 where
  success error_timeout error_server_response error_request : Result
  error_network error_protocol error_terminated : Result

-- `_ANJ_EXCHANGE_BLOCK_TRANSFER_NEEDED`
abbrev pub block_transfer_needed : ℕ
block_transfer_needed = 1

-- `_anj_exchange_read_result_t`
pub record ReadResult : Type 0 where
  pub payload_len : ℕ
  pub format : ℕ
  pub with_create_path : Bool
  pub created_oid : ℕ
  pub created_iid : ℕ

-- What a `read_payload` handler leaves: its own state, its return code, the payload buffer and the
-- out parameter.
pub record Read (A : Type 0) : Type 0 where
  pub arg : A
  pub code : ℕ
  pub buff : List ℕ
  pub out : ReadResult

-- `_anj_exchange_handlers_t`: the user's functions over the state `A` that `arg` points to. `none`
-- is the default handler.
pub record Handlers (A : Type 0) : Type 0 where
  pub write_payload : Option (A → (payload : List ℕ) → (size : ℕ) → (last_block : Bool) → A × ℕ)
  pub read_payload : Option (A → (buff : List ℕ) → (buff_len : ℕ) → Read A)
  pub completion : Option (A → Option Msg → Result → A)

-- What a call asks of the platform: the time, read once, and the results of `anj_rng_generate`,
-- `none` where it fails. `second_random` is for the second computation of a timeout in one call.
pub record Platform : Type 0 where
  pub floats : Floats
  pub now : Monotonic
  -- What a timeout becomes where the shift that doubles it is undefined
  pub undefined_delay : Duration
  pub random_token : Option (List ℕ)
  pub first_random : Option ℕ
  pub second_random : Option ℕ

-- `_anj_exchange_ctx_t`; `arg` is what `handlers.arg` points to, `payload_buff` the bytes behind the
-- pointer of that name
pub record Ctx (A : Type 0) : Type 0 where
  pub state : State
  pub handlers : Handlers A
  pub arg : A
  pub server_request : Bool
  pub confirmable : Bool
  pub block_transfer : Bool
  pub payload_buff : List ℕ
  pub block_size : ℕ
  pub request_prepared : Bool
  pub block_number : ℕ
  pub server_exchange_timeout : Duration
  pub tx_params : TxParams
  pub retry_count : ℕ
  pub send_confirmation_timeout_timestamp : Monotonic
  pub timeout_timestamp : Monotonic
  pub timeout : Duration
  pub msg_id : ℕ
  pub msg_code : ℕ
  pub base_msg : Msg
  pub cache : Option Cache
  pub op : Op

-- `_ANJ_EXCHANGE_COAP_PROCESSING_DELAY`
abbrev pub processing_delay : Duration
processing_delay = duration_new (pos 2) second

abbrev pub is_state : State → State → Bool
is_state msg_to_send msg_to_send = true
is_state waiting_send_confirmation waiting_send_confirmation = true
is_state waiting_msg waiting_msg = true
is_state finished finished = true
is_state _ _ = false

abbrev pub timeout_occurred : Platform → Monotonic → Bool
timeout_occurred p timestamp = duration_geq p.now timestamp

-- "if (read_result.with_create_path)"
abbrev pub with_created : ReadResult → Attr → Attr
with_created r attr =
    if r.with_create_path then create_attr true r.created_oid r.created_iid else attr

module _ {A : Type 0} where
  -- `default_exchange_completion_handler` does nothing.
  abbrev pub call_completion : Option (A → Option Msg → Result → A) → A → Option Msg → Result → A
  call_completion none arg msg result = arg
  call_completion (some f) arg msg result = f arg msg result

  -- `default_write_payload_handler` returns 0.
  abbrev pub call_write : Option (A → List ℕ → ℕ → Bool → A × ℕ) → A → List ℕ → ℕ → Bool → A × ℕ
  call_write none arg payload size last_block = (arg, 0)
  call_write (some f) arg payload size last_block = f arg payload size last_block

  -- `default_read_payload_handler` returns 0 and sets the format; `read_result` was all zero.
  abbrev pub call_read : Option (A → List ℕ → ℕ → Read A) → A → List ℕ → ℕ → Read A
  call_read none arg buff buff_len = record {
    arg = arg;
    code = 0;
    buff = buff;
    out = record {
      payload_len = 0;
      format = format_not_defined;
      with_create_path = false;
      created_oid = 0;
      created_iid = 0;
    };
  }
  call_read (some f) arg buff buff_len = f arg buff buff_len

  -- The bytes that a message's payload pointer points to.
  abbrev pub contents : Ctx A → Payload → List ℕ
  contents ctx own_buffer = ctx.payload_buff
  contents ctx (external bytes) = bytes

  unfoldable pub finalize_exchange : Ctx A → Option Msg → Result → Ctx A
  finalize_exchange ctx msg result = record ctx {
    arg = call_completion ctx.handlers.completion ctx.arg msg result;
    state = finished;
    block_transfer = false;
    request_prepared = false;
  }

  -- `timeout` before the two timestamps are set; `none` where there is no random number
  unfoldable pub choose_timeout : Floats → Option ℕ → Ctx A → Option Duration
  choose_timeout fl random ctx =
      if ctx.server_request then some ctx.server_exchange_timeout else elim random [
        | none ↦ none
        | some r ↦
            some (fl.first_timeout ctx.tx_params.ack_timeout ctx.tx_params.ack_random_factor r)
      ]

  abbrev pub set_timeout : Monotonic → Ctx A → Duration → Ctx A
  set_timeout now ctx timeout = record ctx {
    timeout = timeout;
    timeout_timestamp = duration_add now timeout;
    send_confirmation_timeout_timestamp = duration_add now processing_delay;
  }

  -- The context, and whether it succeeded.
  unfoldable pub exchange_param_init : Platform → Option ℕ → Ctx A → Ctx A × Bool
  unfolding choose_timeout
  exchange_param_init p random ctx =
      let ctx' = record ctx { retry_count = 0; block_number = 0 } in
      elim (choose_timeout p.floats random ctx') [
        | none ↦ (ctx', false)
        | some timeout ↦ (set_timeout p.now ctx' timeout, true)
      ]

  unfoldable pub reset_exchange_params : Platform → Ctx A → Ctx A
  reset_exchange_params p ctx = record ctx {
    timeout_timestamp = duration_add p.now ctx.timeout;
    retry_count = 0;
  }

  -- `_anj_exchange_cache_add(ctx->cache, &ctx->tx_params, msg)`, which does nothing with no cache
  unfoldable pub store_response : Platform → Ctx A → Msg → Ctx A
  store_response p ctx msg = record ctx {
    cache = elim ctx.cache [
      | none ↦ none
      | some c ↦ some (cache_add p.floats c p.now ctx.tx_params msg (contents ctx msg.payload))
    ];
  }

  -- `init_msd_id`: the identifier of the next message
  abbrev pub next_msg_id : Ctx A → ℕ
  next_msg_id ctx = (ctx.msg_id + 1) % 2 ^ 16
