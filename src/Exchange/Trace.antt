-- ===== src/Exchange/Trace.antt =====
-- A whole exchange: the calls that its user makes, in any order. `_anj_exchange_process` asserts one of
-- the two waiting states, so that it is not called once the exchange is finished (the loop that
-- src/anj/exchange.h asks of the user of the module); `_anj_exchange_terminate` may be called at any
-- time, as src/anj/core/core.c does.
use anjay_lite.Base.{List, [], ◌∷◌, if◌then◌else◌}
use anjay_lite.Coap.{Msg}
use anjay_lite.Exchange.Process.{process, terminate}
use anjay_lite.Exchange.{Ctx, Event, Platform, Result, is_state, finished}

pub data Call : Type 0 where
  processes : Platform → Event → Msg → Call
  terminates : Result → Call

module _ {A : Type 0} where
  unfoldable pub call : Ctx A → Call → Ctx A
  call ctx (processes p event msg) =
      if is_state ctx.state finished then ctx else (process p ctx event msg).0
  call ctx (terminates reason) = terminate ctx reason

  unfoldable pub run : Ctx A → List Call → Ctx A
  run ctx [] = ctx
  run ctx (c ∷ cs) = run (call ctx c) cs
