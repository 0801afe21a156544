-- ===== src/Exchange/Setup.antt =====
-- The operations that set an exchange's context up (src/anj/exchange.c).
use anjay_lite.Base.{
  ℕ, Bool, true, false, not, ◌||◌, List, [], ◌∷◌, Option, none, some, if◌then◌else◌,
}
use anjay_lite.Base.Int.{pos}
use anjay_lite.Coap.{Msg, other_attr, block_not_defined, external, confirmable, none_op}
use anjay_lite.Exchange.{Ctx, finished, is_state}
use anjay_lite.ExchangeCache.{Cache, Floats, TxParams, NonRecent}
use anjay_lite.Time.{Duration, ms, second, duration_new, duration_lt, invalid}

-- The loop of `_anj_exchange_setup_cache`.
unfoldable pub invalidate : List NonRecent → List NonRecent
invalidate [] = []
invalidate (e ∷ es) = record e { expiration_time = invalid } ∷ invalidate es

module _ {A : Type 0} where
  -- `_anj_exchange_ongoing_exchange`
  unfoldable pub ongoing_exchange : Ctx A → Bool
  ongoing_exchange ctx = not (is_state ctx.state finished)

  -- `_anj_exchange_set_udp_tx_params`: the context, and whether the parameters were taken
  unfoldable pub set_udp_tx_params : Floats → Ctx A → TxParams → Ctx A × Bool
  set_udp_tx_params fl ctx params =
      if fl.below_one params.ack_random_factor
        || duration_lt params.ack_timeout (duration_new (pos 1000) ms)
      then (ctx, false)
      else (record ctx { tx_params = params }, true)

  -- `_anj_exchange_set_server_request_timeout`
  unfoldable pub set_server_request_timeout : Ctx A → Duration → Ctx A
  set_server_request_timeout ctx timeout = record ctx { server_exchange_timeout = timeout }

  -- `_anj_exchange_setup_cache`
  unfoldable pub setup_cache : Ctx A → Cache → Ctx A
  setup_cache ctx c = record ctx {
    cache = some (record c {
      cache_recent = record c.cache_recent { expiration_time = invalid };
      handling_retransmission = false;
      cache_non_recent = invalidate c.cache_non_recent;
    });
  }

-- `memset` with zero of a message
abbrev pub zero_msg : Msg
zero_msg = record {
  operation = none_op;
  payload = external [];
  payload_size = 0;
  content_format = 0;
  accept = 0;
  observe_number = 0;
  uri = [];
  block = record { block_type = block_not_defined; more_flag = false; number = 0; size = 0 };
  location_path = [];
  attr = other_attr [];
  msg_code = 0;
  message_id = 0;
  udp_type = confirmable;
  token = record { size = 0; bytes = [] };
}

-- `ANJ_EXCHANGE_UDP_TX_PARAMS_DEFAULT` (include_public/anj/defs.h); the bit pattern is the double 1.5
abbrev pub udp_tx_params_default : TxParams
udp_tx_params_default = record {
  ack_timeout = duration_new (pos 2) second;
  ack_random_factor = 0x3ff8_0000_0000_0000;
  max_retransmit = 4;
}

module _ {A : Type 0} where
  -- `_anj_exchange_init`: the context, and whether there was a random message identifier. `arg` is the
  -- user's state before any handlers are set.
  unfoldable pub exchange_init : (arg : A) → (random_msg_id : Option ℕ) → Ctx A × Bool
  exchange_init arg random =
      let ctx : Ctx A = record {
        state = finished;
        handlers = record { write_payload = none; read_payload = none; completion = none };
        arg = arg;
        server_request = false;
        confirmable = false;
        block_transfer = false;
        payload_buff = [];
        block_size = 0;
        request_prepared = false;
        block_number = 0;
        server_exchange_timeout = duration_new (pos 50) second;
        tx_params = udp_tx_params_default;
        retry_count = 0;
        send_confirmation_timeout_timestamp = pos 0;
        timeout_timestamp = pos 0;
        timeout = pos 0;
        msg_id = 0;
        msg_code = 0;
        base_msg = zero_msg;
        cache = none;
        op = none_op;
      } in
      elim random [ none ↦ (ctx, false) | some id ↦ (record ctx { msg_id = id }, true) ]
