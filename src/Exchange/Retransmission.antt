-- ===== src/Exchange/Retransmission.antt =====
-- A client request that nobody answers: it is sent again each time its timeout passes, with twice the
-- time to wait, and given up after `max_retransmit` repetitions.
use anjay_lite.Base.{
  ℕ, suc, ◌+◌, ◌%◌, ◌^◌, ◌≤◌, ◌<◌, ◌≡◌, refl, true, false, none, arith, ◌⊎◌, ◌∙◌, ap, ap₂, inl, inr,
}
use anjay_lite.Coap.{Msg}
use anjay_lite.Exchange.Process.{
  process, check_timeout, retransmit, handle_send_confirmation, message_sent, send_prepared,
}
use anjay_lite.Exchange.{
  Ctx, Platform, State, Handlers, no_event, send_confirmation, waiting_msg, msg_to_send, finished,
  error_timeout, timeout_occurred, call_completion, finalize_exchange,
}
use native.Mathlib.Decide.{dec_lt}
use anjay_lite.Time.{Duration, duration_add, duration_shift}

module _ {A : Type 0} where
  -- A confirmable client request waits for its response.
  pub record Waiting (ctx : Ctx A) : Type 0 where
    pub state_is : ctx.state ≡ waiting_msg
    pub by_client : ctx.server_request ≡ false
    pub needs_response : ctx.confirmable ≡ true
    pub not_prepared : ctx.request_prepared ≡ false
    pub limit : ctx.tx_params.max_retransmit < 2 ^ 16

  -- The timeout has passed at `p`, and the message that `process` hands out is confirmed at `q` in time.
  abbrev pub expire : Platform → Msg → Ctx A → Ctx A × Msg × State
  expire p msg ctx = process p ctx no_event msg

  -- `sent` messages went out in a row, each confirmed in time, and no message came in.
  pub data Silence (ctx : Ctx A) : (sent : ℕ) → Ctx A → Type 0 where
    quiet : Silence ctx 0 ctx
    repeated :
        {sent : ℕ} {mid : Ctx A}
        → Silence ctx sent mid
        → (p q : Platform) (msg msg' : Msg) → timeout_occurred p mid.timeout_timestamp ≡ true
        → (expire p msg mid).2 ≡ msg_to_send
        → timeout_occurred q (expire p msg mid).0.send_confirmation_timeout_timestamp ≡ false
        → Silence ctx (suc sent) (process q (expire p msg mid).0 send_confirmation msg').0

  -- What a repetition leaves: the same exchange, one repetition later.
  pub record Repeats (n : ℕ) (ctx end : Ctx A) : Type 0 where
    pub waiting : Waiting end
    pub counted : end.retry_count ≡ n + ctx.retry_count
    pub within_limit : end.retry_count ≤ end.tx_params.max_retransmit
    pub same_limit : end.tx_params.max_retransmit ≡ ctx.tx_params.max_retransmit
    pub same_handlers : end.handlers ≡ ctx.handlers
    pub same_arg : end.arg ≡ ctx.arg
    pub same_msg : end.base_msg ≡ ctx.base_msg
    pub same_timeout : end.timeout ≡ ctx.timeout

  -- One expiry and one confirmation.
  one_repetition :
      (p q : Platform) (msg msg' : Msg) (ctx : Ctx A)
      → Waiting ctx
      → timeout_occurred p ctx.timeout_timestamp ≡ true
      → (expire p msg ctx).2 ≡ msg_to_send
      → timeout_occurred q (expire p msg ctx).0.send_confirmation_timeout_timestamp ≡ false
      → Repeats 1 ctx (process q (expire p msg ctx).0 send_confirmation msg').0
  unfolding process check_timeout retransmit handle_send_confirmation message_sent send_prepared
  one_repetition p q msg msg' ctx w t s c = ground arith

  Repeats-trans :
      (n : ℕ) (ctx mid end : Ctx A)
      → Repeats n ctx mid
      → Repeats 1 mid end
      → Repeats (suc n) ctx end
  Repeats-trans n ctx mid end a b = record {
    waiting = b.waiting;
    counted = omega (arith, a.counted, b.counted);
    within_limit = b.within_limit;
    same_limit = b.same_limit ∙ a.same_limit;
    same_handlers = b.same_handlers ∙ a.same_handlers;
    same_arg = b.same_arg ∙ a.same_arg;
    same_msg = b.same_msg ∙ a.same_msg;
    same_timeout = b.same_timeout ∙ a.same_timeout;
  }

  pub Silence-Repeats :
      {ctx : Ctx A} {n : ℕ} {end : Ctx A}
      → Waiting ctx
      → ctx.retry_count ≤ ctx.tx_params.max_retransmit
      → Silence ctx n end
      → Repeats n ctx end
  Silence-Repeats w h quiet = record {
    waiting = w;
    counted = omega arith;
    within_limit = h;
    same_limit = refl;
    same_handlers = refl;
    same_arg = refl;
    same_msg = refl;
    same_timeout = refl;
  }
  Silence-Repeats {ctx} w h (repeated {sent} {mid} before p q msg msg' t s c) =
      let r = Silence-Repeats w h before in
      Repeats-trans sent ctx mid _ r (one_repetition p q msg msg' mid r.waiting t s c)

  -- The message goes out again, and the next deadline is `1 << doublings` timeouts away.
  pub record SentAgain (p : Platform) (ctx : Ctx A) (doublings : ℕ) (x : Ctx A × Msg × State)
      : Type 0 where
    pub returned : x.2 ≡ msg_to_send
    pub message : x.1 ≡ ctx.base_msg
    pub deadline :
        x.0.timeout_timestamp
        ≡ duration_add p.now (duration_shift p.undefined_delay ctx.timeout doublings)

  -- The exchange is over, and the completion handler has been told of the timeout.
  pub record GivenUp (ctx : Ctx A) (x : Ctx A × Msg × State) : Type 0 where
    pub returned : x.2 ≡ finished
    pub over : x.0.state ≡ finished
    pub told : x.0.arg ≡ call_completion ctx.handlers.completion ctx.arg none error_timeout

  expire_again :
      (p : Platform) (msg : Msg) (ctx : Ctx A)
      → Waiting ctx
      → timeout_occurred p ctx.timeout_timestamp ≡ true
      → ctx.retry_count < ctx.tx_params.max_retransmit
      → SentAgain p ctx (ctx.retry_count + 1) (expire p msg ctx)
  unfolding process check_timeout retransmit
  expire_again p msg ctx w t l =
      let e : (ctx.retry_count + 1) % 2 ^ 16 ≡ ctx.retry_count + 1 = omega arith in
      ground (
        arith,
        ap (λ (k : ℕ). duration_add p.now (duration_shift p.undefined_delay ctx.timeout k)) e,
      )

  expire_last :
      (p : Platform) (msg : Msg) (ctx : Ctx A)
      → Waiting ctx
      → timeout_occurred p ctx.timeout_timestamp ≡ true
      → ctx.retry_count ≡ ctx.tx_params.max_retransmit
      → GivenUp ctx (expire p msg ctx)
  unfolding process check_timeout finalize_exchange
  expire_last p msg ctx w t l = ground arith

  -- A confirmable client request that waits for its response, with no prepared request behind it, a
  -- `max_retransmit` of 16 bits and at most that many repetitions so far, and that has since been
  -- repeated `n` times with every repetition confirmed in time and no message received: when its
  -- timeout passes once more, then either repetitions are left, the message that was sent first
  -- goes out again and the new deadline is the timeout doubled `n + 1 + retries before` times from
  -- now, as far as the shift of an `int` is defined, or there have been exactly `max_retransmit`
  -- repetitions and the exchange is finished with a timeout error.
  pub Silence-expires :
      {n : ℕ} {ctx end : Ctx A}
      → Waiting ctx
      → ctx.retry_count ≤ ctx.tx_params.max_retransmit
      → Silence ctx n end
      → (p : Platform) (msg : Msg) → timeout_occurred p end.timeout_timestamp ≡ true
      → (n + ctx.retry_count < ctx.tx_params.max_retransmit)
          × SentAgain p ctx (n + ctx.retry_count + 1) (expire p msg end)
        ⊎ (n + ctx.retry_count ≡ ctx.tx_params.max_retransmit) × GivenUp ctx (expire p msg end)
  Silence-expires {n} {ctx} {end} w h run p msg t =
      let r = Silence-Repeats w h run in
      let again = λ (l : n + ctx.retry_count < ctx.tx_params.max_retransmit).
        expire_again p msg end r.waiting t (omega (arith, r.counted, r.same_limit)) in
      let last = λ (l : n + ctx.retry_count ≡ ctx.tx_params.max_retransmit).
        expire_last p msg end r.waiting t (omega (arith, r.counted, r.same_limit)) in
      let power = ap (λ (k : ℕ). k + 1) r.counted in
      elim (dec_lt (n + ctx.retry_count) ctx.tx_params.max_retransmit) [
        | yes l ↦ inl (
          l,
          record {
            returned = (again l).returned;
            message = (again l).message ∙ r.same_msg;
            deadline =
                (again l).deadline
                ∙ ap₂
                    (λ (d : Duration) (k : ℕ).
                      duration_add p.now (duration_shift p.undefined_delay d k))
                    r.same_timeout power;
          },
        )
        | no g ↦
            let e : n + ctx.retry_count ≡ ctx.tx_params.max_retransmit =
              omega (arith, r.counted, r.within_limit, r.same_limit) in
            inr (
              e,
              record {
                returned = (last e).returned;
                over = (last e).over;
                told =
                    (last e).told
                    ∙ ap₂
                        (λ (h : Handlers A) (a : A).
                          call_completion h.completion a none error_timeout)
                        r.same_handlers r.same_arg;
              },
            )
      ]
