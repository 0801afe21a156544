-- ===== src/Exchange/Invariant/Always.antt =====
-- The invariant holds between all calls of the module.
use anjay_lite.Base.{
  ℕ, ◌^◌, ◌<◌, ◌≡◌, true, inl, inr, List, [], ◌∷◌, Option, some, arith, Bool-cases,
}
use anjay_lite.Coap.{Msg}
use anjay_lite.Exchange.Invariant.Processing.{process-IsValid, terminate-IsValid}
use anjay_lite.Exchange.Invariant.Starting.{new_server_request-IsValid, new_client_request-IsValid}
use anjay_lite.Exchange.Invariant.{IsValid}
use anjay_lite.Exchange.Start.{new_server_request, new_client_request}
use anjay_lite.Exchange.Setup.{exchange_init}
use anjay_lite.Exchange.Trace.{Call, processes, terminates, call, run}
use anjay_lite.Exchange.{Ctx, Platform, Handlers, is_state, finished}

module _ {A : Type 0} where
  call-IsValid : (ctx : Ctx A) (c : Call) → IsValid ctx → IsValid (call ctx c)
  unfolding call
  call-IsValid ctx (processes p event msg) v = elim (Bool-cases (is_state ctx.state finished)) [
    | inl e ↦ rw e v
    | inr e ↦ rw e (process-IsValid p ctx event msg v e)
  ]
  call-IsValid ctx (terminates reason) v = terminate-IsValid ctx reason v

  run-IsValid : (cs : List Call) (ctx : Ctx A) → IsValid ctx → IsValid (run ctx cs)
  unfolding run
  run-IsValid [] ctx v = v
  run-IsValid (c ∷ cs) ctx v = run-IsValid cs (call ctx c) (call-IsValid ctx c v)

  -- A context that was initialized with a 16-bit random number is valid.
  pub exchange_init-IsValid :
      (arg : A) (random : Option ℕ) (id : ℕ)
      → random ≡ some id
      → id < 2 ^ 16
      → IsValid (exchange_init arg random).0
  unfolding exchange_init
  exchange_init-IsValid arg random id e h = ground arith

  module _ (p : Platform) (ctx : Ctx A) (msg : Msg) (h : Handlers A) (arg : A) (buff : List ℕ)
      (buff_len : ℕ) (valid : IsValid ctx) (idle : is_state ctx.state finished ≡ true)
      (cs : List Call) where
    -- A client request that is begun in a valid idle context, with any handlers, message and random
    -- numbers, keeps the context valid through any calls of `process`, until it is finished, and `terminate`: the retry, block
    -- and message counters stay in range, a request is prepared only in an exchange of the client, the
    -- state is never `msg_to_send`, and a finished exchange is idle.
    pub client_request-IsValid :
        IsValid (run (new_client_request p ctx msg h arg buff buff_len).0 cs)
    client_request-IsValid =
        run-IsValid cs _ (new_client_request-IsValid p ctx msg h arg buff buff_len valid idle)

    -- A request of the server that is begun in a valid idle context, whatever response code it is
    -- to be answered with, with any handlers, message and random numbers, keeps the context valid
    -- through any calls of `process`, until it is finished, and `terminate`.
    pub server_request-IsValid :
        (code : ℕ) → IsValid (run (new_server_request p ctx code msg h arg buff buff_len).0 cs)
    server_request-IsValid code =
        run-IsValid cs _ (new_server_request-IsValid p ctx code msg h arg buff buff_len valid idle)
