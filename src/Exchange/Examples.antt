-- ===== src/Exchange/Examples.antt =====
-- A small user of the exchange for the tests: its state counts the completion calls, and it sends one
-- byte. Time stands at the given number of seconds.
use anjay_lite.Base.{ℕ, suc, ◌*◌, false, [], ◌∷◌, Option, none, some, List}
use anjay_lite.Base.Int.{pos}
use anjay_lite.Coap.{Msg, dm_read, update, response, acknowledgement, coap_code}
use anjay_lite.Exchange.Setup.{zero_msg, exchange_init}
use anjay_lite.Exchange.{Ctx, Platform, Handlers, Result, Read}
use anjay_lite.ExchangeCache.{Floats}

abbrev pub floats : Floats
floats = record {
  transmit_span = λ d factor steps. d;
  first_timeout = λ d factor random. d;
  below_one = λ factor. false;
}

abbrev pub at_second : ℕ → Platform
at_second s = record {
  floats = floats;
  now = pos (s * 1000 * 1000);
  undefined_delay = pos 0;
  random_token = some (1 ∷ 2 ∷ 3 ∷ 4 ∷ 5 ∷ 6 ∷ 7 ∷ 8 ∷ []);
  first_random = some 7;
  second_random = some 9;
}

abbrev pub complete : ℕ → Option Msg → Result → ℕ
complete n msg result = suc n

abbrev pub one_byte : ℕ → List ℕ → ℕ → Read ℕ
one_byte n buff size = record {
  arg = n;
  code = 0;
  buff = 42 ∷ [];
  out = record {
    payload_len = 1;
    format = 0;
    with_create_path = false;
    created_oid = 0;
    created_iid = 0;
  };
}

abbrev pub handlers : Handlers ℕ
handlers = record { write_payload = none; read_payload = some one_byte; completion = some complete }

unfoldable pub idle : Ctx ℕ
unfolding exchange_init
idle = (exchange_init 0 (some 100)).0

abbrev pub update_msg : Msg
update_msg = record zero_msg { operation = update }

-- The server's answer 2.04 to the request above.
abbrev pub changed_msg : Msg
changed_msg = record zero_msg {
  operation = response;
  msg_code = coap_code 2 4;
  udp_type = acknowledgement;
  token = record { size = 8; bytes = 1 ∷ 2 ∷ 3 ∷ 4 ∷ 5 ∷ 6 ∷ 7 ∷ 8 ∷ [] };
}

abbrev pub read_msg : Msg
read_msg = record zero_msg { operation = dm_read; message_id = 5 }
