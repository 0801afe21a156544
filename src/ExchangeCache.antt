-- ===== src/ExchangeCache.antt =====
-- src/anj/exchange_cache.c: the responses kept so that a retransmitted request is answered again,
-- built with ANJ_WITH_CACHE and ANJ_CACHE_ENTRIES_NUMBER > 1. The newest response is kept whole, of
-- the older ones only the message identifier. Each call reads the clock once.
pub mod Lookup
pub mod Eviction
mod Tests
use anjay_lite.Base.{
  ℕ, ◌+◌, ◌-◌, ◌^◌, Bool, true, false, not, ◌&&◌, List, [], ◌∷◌, ◌++◌, Option, none, some, ◌==◌,
  if◌then◌else◌, set, take, drop,
}
use anjay_lite.Base.Int.{pos}
use anjay_lite.Coap.{Msg}
use anjay_lite.Time.{
  Duration, Monotonic, invalid, second, duration_new, duration_add, duration_mul, duration_is_valid,
  duration_lt, duration_gt,
}

-- `anj_exchange_udp_tx_params_t`; the random factor is a double, kept as its bit pattern
pub record TxParams : Type 0 where
  pub ack_timeout : Duration
  pub ack_random_factor : ℕ
  pub max_retransmit : ℕ

-- The floating-point computations, which are not modelled: arguments of the definitions that
-- use them. `transmit_span` is `ack_timeout` times `steps` times the factor, `first_timeout` is
-- `ack_timeout` times `random / UINT32_MAX * (factor - 1) + 1`.
pub record Floats : Type 0 where
  pub transmit_span : Duration → (factor steps : ℕ) → Duration
  pub first_timeout : Duration → (factor random : ℕ) → Duration
  pub below_one : (factor : ℕ) → Bool

-- `_anj_exchange_cache_msg_non_recent_t`
pub record NonRecent : Type 0 where
  pub expiration_time : Monotonic
  pub mid : ℕ

-- `_anj_exchange_cache_msg_recent_t`
pub record Recent : Type 0 where
  pub expiration_time : Monotonic
  pub response : Msg
  pub payload : List ℕ

-- `_anj_exchange_cache_t`
pub record Cache : Type 0 where
  pub cache_recent : Recent
  pub cache_non_recent : List NonRecent
  pub handling_retransmission : Bool

-- `_ANJ_EXCHANGE_CACHE_HIT_RECENT`, `_HIT_NON_RECENT` and `_MISS`
pub data CheckResult : Type 0 where
  hit_recent hit_non_recent miss : CheckResult

abbrev pub max_latency : Duration
max_latency = duration_new (pos 100) second

unfoldable pub get_exchange_lifetime : Floats → TxParams → Duration
get_exchange_lifetime fl tx =
    let max_transmit_span =
      fl.transmit_span tx.ack_timeout tx.ack_random_factor (2 ^ tx.max_retransmit - 1) in
    duration_add (duration_add max_transmit_span (duration_mul max_latency 2)) tx.ack_timeout

-- The entry's time after `drop_expired`.
abbrev pub kept : Monotonic → Monotonic → Monotonic
kept now expiration = if duration_lt expiration now then invalid else expiration

unfoldable pub drop_expired_entries : Monotonic → List NonRecent → List NonRecent
drop_expired_entries now [] = []
drop_expired_entries now (e ∷ es) =
    record e { expiration_time = kept now e.expiration_time } ∷ drop_expired_entries now es

unfoldable pub drop_expired : Cache → Monotonic → Cache
drop_expired c now = record c {
  cache_recent = record c.cache_recent {
    expiration_time = kept now c.cache_recent.expiration_time;
  };
  cache_non_recent = drop_expired_entries now c.cache_non_recent;
}

-- `contents` is what `response->payload` points to. `memcpy` overwrites the front of the buffer.
unfoldable pub save_recent_cache : Cache → Msg → (contents : List ℕ) → Monotonic → Cache
save_recent_cache c response contents expiration = record c {
  cache_recent = record {
    expiration_time = expiration;
    response = response;
    payload =
        if response.payload_size == 0
        then c.cache_recent.payload
        else take response.payload_size contents
          ++ drop response.payload_size c.cache_recent.payload;
  };
}

-- The loop of `_anj_exchange_cache_add` over `cache_non_recent`, from index `i` on.
unfoldable pub find_candidate : List NonRecent → (i : ℕ) → Monotonic → (candidate : ℕ) → ℕ
find_candidate [] i oldest candidate = candidate
find_candidate (e ∷ es) i oldest candidate =
    let older = not (duration_gt e.expiration_time oldest) in
    let rest =
      find_candidate es (i + 1) (if older then e.expiration_time else oldest)
        (if older then i else candidate) in
    if not (duration_is_valid e.expiration_time) then i else rest

-- "move the most recent cache to the non-recent array"
unfoldable pub demote_recent : Cache → Cache
unfolding find_candidate
demote_recent c =
    let candidate_id = find_candidate c.cache_non_recent 0 invalid 0 in
    record c {
      cache_non_recent = set c.cache_non_recent candidate_id (record {
        mid = c.cache_recent.response.message_id;
        expiration_time = c.cache_recent.expiration_time;
      });
    }

-- `_anj_exchange_cache_add` on a cache that is not NULL
unfoldable pub cache_add : Floats → Cache → Monotonic → TxParams → Msg → List ℕ → Cache
unfolding save_recent_cache
cache_add fl cache now tx response contents =
    let expiration = duration_add now (get_exchange_lifetime fl tx) in
    let c = drop_expired cache now in
    if not (duration_is_valid c.cache_recent.expiration_time)
    then save_recent_cache c response contents expiration
    else save_recent_cache (demote_recent c) response contents expiration

unfoldable pub any_non_recent : ℕ → List NonRecent → Bool
any_non_recent msg_id [] = false
any_non_recent msg_id (e ∷ es) =
    if e.mid == msg_id && duration_is_valid e.expiration_time
    then true
    else any_non_recent msg_id es

-- `_anj_exchange_cache_check`
unfoldable pub cache_check : Cache → Monotonic → (msg_id : ℕ) → Cache × CheckResult
cache_check cache now msg_id =
    let c = drop_expired cache now in
    if c.cache_recent.response.message_id == msg_id
      && duration_is_valid c.cache_recent.expiration_time
    then (record c { handling_retransmission = true }, hit_recent)
    else if any_non_recent msg_id c.cache_non_recent
    then (c, hit_non_recent)
    else (c, miss)

-- `_anj_exchange_cache_get`: the response, and what its payload points to now. `none` is the
-- failed assertion.
unfoldable pub cache_get : Cache → Option (Msg × List ℕ)
cache_get c =
    if c.handling_retransmission
    then some (c.cache_recent.response, c.cache_recent.payload)
    else none
