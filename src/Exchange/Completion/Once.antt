-- ===== src/Exchange/Completion/Once.antt =====
-- The completion handler is called once for each exchange.
use anjay_lite.Base.{
  ℕ, ◌+◌, ◌≤◌, ◌≡◌, ◌⊎◌, true, false, inl, inr, List, [], ◌∷◌, Option, some, arith, Bool-cases,
}
use anjay_lite.Coap.{Msg}
use anjay_lite.Exchange.Completion.Processing.{process-Tally, terminate-Tally}
use anjay_lite.Exchange.Completion.Starting.{new_server_request-Tally, new_client_request-Tally}
use anjay_lite.Exchange.Completion.{Tally, Tracks, owed}
use anjay_lite.Exchange.Start.{new_server_request, new_client_request}
use anjay_lite.Exchange.Trace.{Call, processes, terminates, call, run}
use anjay_lite.Exchange.{Ctx, Platform, Handlers, Result, is_state, finished}

module _ {A : Type 0} (count : A → ℕ) where
  call-Tally : {n : ℕ} (ctx : Ctx A) (c : Call) → Tally count n ctx → Tally count n (call ctx c)
  unfolding call
  call-Tally ctx (processes p event msg) t = elim (Bool-cases (is_state ctx.state finished)) [
    | inl e ↦ rw e t
    | inr e ↦ rw e (process-Tally count p ctx event msg t e)
  ]
  call-Tally ctx (terminates reason) t = terminate-Tally count ctx reason t

  run-Tally :
      {n : ℕ} (cs : List Call) (ctx : Ctx A) → Tally count n ctx → Tally count n (run ctx cs)
  unfolding run
  run-Tally [] ctx t = t
  run-Tally (c ∷ cs) ctx t = run-Tally cs (call ctx c) (call-Tally ctx c t)

  -- An exchange that began with the user's state `arg`: it is finished and the handler has been called
  -- exactly once, or it goes on and the handler has been called at most once.
  abbrev pub CompletedOnce : (arg : A) → Ctx A → Type 0
  CompletedOnce arg ctx =
      (is_state ctx.state finished ≡ true) × (count ctx.arg ≡ count arg + 1)
      ⊎ (is_state ctx.state finished ≡ false) × (count ctx.arg ≤ count arg + 1)

  Tally-CompletedOnce :
      (arg : A) (ctx : Ctx A) → Tally count (count arg + 1) ctx → CompletedOnce arg ctx
  Tally-CompletedOnce arg ctx t = elim (Bool-cases (is_state ctx.state finished)) [
    | inl e ↦ inl (e, ground arith)
    | inr e ↦ inr (e, ground arith)
  ]

  module _ (p : Platform) (ctx : Ctx A) (msg : Msg) (h : Handlers A) (arg : A) (buff : List ℕ)
      (buff_len : ℕ) (complete : A → Option Msg → Result → A) (given : h.completion ≡ some complete)
      (tracks : Tracks count h) (cs : List Call) where
    owes_one : count arg + owed h.completion ≡ count arg + 1
    owes_one = ground arith

    -- For a client request whose handlers include a completion handler, and whatever calls of
    -- `process`, up to the end of the exchange, and of `terminate`, at any time, follow: the
    -- completion handler is called at most once in all, and exactly once where the exchange is
    -- finished. `count` reads the number of its calls off the user's state, which the payload
    -- handlers leave.
    pub client_request_completes_once :
        CompletedOnce arg (run (new_client_request p ctx msg h arg buff buff_len).0 cs)
    client_request_completes_once = Tally-CompletedOnce arg _ (
        run-Tally cs _
          (new_client_request-Tally count p ctx msg h arg buff buff_len tracks owes_one))

    -- For a request of the server, whatever response code it is to be answered with, whose handlers
    -- include a completion handler, and whatever calls of `process`, up to the end of the exchange,
    -- and of `terminate`, at any time, follow: the completion handler is called at most once in
    -- all, and exactly once where the exchange is finished. `count` reads the number of its calls
    -- off the user's state, which the payload handlers leave.
    pub server_request_completes_once :
        (code : ℕ)
        → CompletedOnce arg (run (new_server_request p ctx code msg h arg buff buff_len).0 cs)
    server_request_completes_once code = Tally-CompletedOnce arg _ (
        run-Tally cs _
          (new_server_request-Tally count p ctx code msg h arg buff buff_len tracks owes_one))
