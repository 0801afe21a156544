-- ===== src/ExchangeCache/Tests.antt =====
-- Runs of the cache, and its theorems at concrete inputs.
use anjay_lite.Base.{ℕ, ◌*◌, ◌≡◌, refl, false, List, [], ◌∷◌, some, arith, take}
use anjay_lite.Base.Int.{pos}
use anjay_lite.Coap.{
  Msg, coap_empty_msg, external, block_not_defined, other_attr, acknowledgement, code_continue,
}
use anjay_lite.ExchangeCache.Eviction.{Evicted, find_candidate-Evicted, cache_check-cache_add_older}
use anjay_lite.ExchangeCache.Lookup.{Lives, Answers, cache_get-cache_add, cache_check-Answers}
use anjay_lite.ExchangeCache.{
  Cache, Floats, NonRecent, TxParams, cache_add, cache_check, cache_get, drop_expired,
  drop_expired_entries, find_candidate, get_exchange_lifetime, hit_non_recent, miss, any_non_recent,
}
use anjay_lite.Time.{duration_add, duration_mul, duration_new, invalid, second}

abbrev floats : Floats
floats = record {
  transmit_span = λ d factor steps. d;
  first_timeout = λ d factor random. d;
  below_one = λ factor. false;
}

abbrev tx : TxParams
tx = record { ack_timeout = duration_new (pos 2) second; ack_random_factor = 0; max_retransmit = 4 }

abbrev response_to : ℕ → Msg
response_to id = record {
  operation = coap_empty_msg;
  payload = external (id ∷ []);
  payload_size = 1;
  content_format = 0;
  accept = 0;
  observe_number = 0;
  uri = [];
  block = record { block_type = block_not_defined; more_flag = false; number = 0; size = 0 };
  location_path = [];
  attr = other_attr [];
  msg_code = code_continue;
  message_id = id;
  udp_type = acknowledgement;
  token = record { size = 0; bytes = [] };
}

-- The newest response is to message 7 and lives up to second 300; there is room for one more.
abbrev cache : Cache
cache = record {
  cache_recent = record {
    expiration_time = pos (300 * 1000 * 1000);
    response = response_to 7;
    payload = 7 ∷ [];
  };
  cache_non_recent = record { expiration_time = invalid; mid = 0 } ∷ [];
  handling_retransmission = false;
}

abbrev entries : List NonRecent
entries =
    record { expiration_time = pos 9; mid = 1 }
    ∷ record { expiration_time = pos 4; mid = 2 }
    ∷ record { expiration_time = pos 6; mid = 3 }
    ∷ []

oldest_of_three : find_candidate entries 0 invalid 0 ≡ 1
unfolding find_candidate
oldest_of_three = refl

forgotten : (cache_check cache (pos (301 * 1000 * 1000)) 7).1 ≡ miss
unfolding cache_check drop_expired drop_expired_entries any_non_recent
forgotten = refl

find_candidate-Evicted_example : Evicted entries (find_candidate entries 0 invalid 0)
find_candidate-Evicted_example = find_candidate-Evicted entries (λ e. cc)

lifetime-Lives :
    Lives
      (pos (200 * 1000 * 1000))
      (duration_add (pos (100 * 1000 * 1000)) (get_exchange_lifetime floats tx))
unfolding duration_add get_exchange_lifetime duration_mul
lifetime-Lives = record { valid = refl; not_past = refl }

cache_get-cache_add_example :
    (payload : List ℕ) × (cache_get
        (cache_check
          (cache_add floats cache (pos (100 * 1000 * 1000)) tx (response_to 8) (8 ∷ []))
          (pos (200 * 1000 * 1000))
          8).0
      ≡ some (response_to 8, payload))
    × (take 1 payload ≡ take 1 (8 ∷ []))
cache_get-cache_add_example =
    cache_get-cache_add floats cache (pos (100 * 1000 * 1000)) (pos (200 * 1000 * 1000)) tx
      (response_to 8) (8 ∷ []) (omega arith) lifetime-Lives

cache_check-cache_add_older_example :
    (cache_check
      (cache_add floats cache (pos (100 * 1000 * 1000)) tx (response_to 8) (8 ∷ []))
      (pos (200 * 1000 * 1000))
      7).1
    ≡ hit_non_recent
cache_check-cache_add_older_example =
    cache_check-cache_add_older floats cache (pos (100 * 1000 * 1000)) (pos (200 * 1000 * 1000)) tx
      (response_to 8) (8 ∷ []) (λ e. cc) (omega arith) (record { valid = refl; not_past = refl })
      (record { valid = refl; not_past = refl })

cache_check-Answers_example :
    Answers (pos (301 * 1000 * 1000)) 7 cache (cache_check cache (pos (301 * 1000 * 1000)) 7).1
cache_check-Answers_example = cache_check-Answers cache (pos (301 * 1000 * 1000)) 7
