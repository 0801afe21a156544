-- ===== src/ExchangeCache/Lookup.antt =====
-- What `_anj_exchange_cache_check` finds, and what `_anj_exchange_cache_get` returns.
use anjay_lite.Base.{
  ℕ, zero, suc, ◌≤◌, ◌≡◌, inl, inr, refl, true, false, ◌&&◌, arith, List, [], ◌∷◌, ◌++◌, some, ◌==◌,
  Bool-cases, length, take, drop, if◌then◌else◌, ap,
}
use anjay_lite.Coap.{Msg}
use anjay_lite.ExchangeCache.{
  Cache, Floats, NonRecent, Recent, TxParams, CheckResult, hit_recent, hit_non_recent, miss, kept,
  any_non_recent, cache_add, cache_check, cache_get, drop_expired, drop_expired_entries,
  get_exchange_lifetime, demote_recent,
}
use anjay_lite.Time.{Monotonic, duration_add, duration_is_valid, duration_lt}

-- An expiration time is set, and not in the past.
pub record Lives (now expiration : Monotonic) : Type 0 where
  pub valid : duration_is_valid expiration ≡ true
  pub not_past : duration_lt expiration now ≡ false

-- An older response to this message is remembered.
pub data Remembers (now : Monotonic) (msg_id : ℕ) : List NonRecent → Type 0 where
  here :
      {e : NonRecent} {es : List NonRecent}
      → e.mid ≡ msg_id
      → Lives now e.expiration_time
      → Remembers now msg_id (e ∷ es)
  there :
      {e : NonRecent} {es : List NonRecent}
      → Remembers now msg_id es
      → Remembers now msg_id (e ∷ es)

kept-valid :
    (now expiration : Monotonic)
    → duration_is_valid (kept now expiration) ≡ true
    → Lives now expiration
kept-valid now expiration h = ground arith

pub Lives-kept :
    (now expiration : Monotonic) → Lives now expiration → kept now expiration ≡ expiration
Lives-kept now expiration l = rw l.not_past

any_non_recent-Remembers :
    (now : Monotonic) (msg_id : ℕ) (es : List NonRecent)
    → any_non_recent msg_id (drop_expired_entries now es) ≡ true
    → Remembers now msg_id es
unfolding any_non_recent drop_expired_entries
any_non_recent-Remembers now msg_id [] h = cc
any_non_recent-Remembers now msg_id (e ∷ es) h =
    elim (Bool-cases (e.mid == msg_id && duration_is_valid (kept now e.expiration_time))) [
      | inl t ↦ here (ground arith) (kept-valid now e.expiration_time (ground arith))
      | inr f ↦ there (any_non_recent-Remembers now msg_id es (rw f at h))
    ]

Remembers-any_non_recent :
    (now : Monotonic) (msg_id : ℕ) (es : List NonRecent)
    → Remembers now msg_id es
    → any_non_recent msg_id (drop_expired_entries now es) ≡ true
unfolding any_non_recent drop_expired_entries
Remembers-any_non_recent now msg_id [] r = elim r [ ]
Remembers-any_non_recent now msg_id (e ∷ es) (here i l) =
    ground (arith, Lives-kept now e.expiration_time l)
Remembers-any_non_recent now msg_id (e ∷ es) (there r) =
    ground (arith, Remembers-any_non_recent now msg_id es r)

-- The response to this message is the newest one, and it is remembered.
pub record RemembersRecent (now : Monotonic) (msg_id : ℕ) (c : Cache) : Type 0 where
  pub same_id : c.cache_recent.response.message_id ≡ msg_id
  pub lives : Lives now c.cache_recent.expiration_time

-- What `_anj_exchange_cache_check` is to answer: `hit_recent` if the newest response answers the
-- message and lives, else `hit_non_recent` if an older one does, else `miss`.
pub data Answers (now : Monotonic) (msg_id : ℕ) (c : Cache) : CheckResult → Type 0 where
  recent : RemembersRecent now msg_id c → Answers now msg_id c hit_recent
  older :
      ¬ (RemembersRecent now msg_id c)
      → Remembers now msg_id c.cache_non_recent
      → Answers now msg_id c hit_non_recent
  unknown :
      ¬ (RemembersRecent now msg_id c)
      → ¬ (Remembers now msg_id c.cache_non_recent)
      → Answers now msg_id c miss

-- For every cache, time and message identifier the check answers as the entries that have not expired
-- say.
pub cache_check-Answers :
    (c : Cache) (now : Monotonic) (msg_id : ℕ) → Answers now msg_id c (cache_check c now msg_id).1
unfolding cache_check drop_expired
cache_check-Answers c now msg_id =
    let exp = c.cache_recent.expiration_time in
    elim (Bool-cases
      (c.cache_recent.response.message_id == msg_id && duration_is_valid (kept now exp))) [
        | inl t ↦
            rw t (
              recent (record { same_id = ground arith; lives = kept-valid now exp (ground arith) }))
        | inr f ↦
            let no_recent : ¬ (RemembersRecent now msg_id c) =
              λ r. ground (arith, Lives-kept now exp r.lives, r.same_id, r.lives.valid) in
            elim (Bool-cases
              (any_non_recent msg_id (drop_expired_entries now c.cache_non_recent))) [
                | inl t ↦ rw (f, t) (older no_recent (any_non_recent-Remembers now msg_id _ t))
                | inr g ↦
                    rw (f, g) (unknown no_recent λ r. cc (Remembers-any_non_recent now msg_id _ r))
              ]
      ]

take-take_append : (n : ℕ) (xs ys : List ℕ) → n ≤ length xs → take n (take n xs ++ ys) ≡ take n xs
take-take_append zero xs ys h = refl
take-take_append (suc n) [] ys h = absurd (omega arith)
take-take_append (suc n) (x ∷ xs) ys h = ap (◌∷◌ x) (take-take_append n xs ys (omega arith))

-- The payload buffer after `memcpy` of `n` bytes, of which there may be none.
abbrev pub copied : (n : ℕ) (bytes old : List ℕ) → List ℕ
copied n bytes old = if n == 0 then old else take n bytes ++ drop n old

take-copied :
    (n : ℕ) (bytes old : List ℕ) → n ≤ length bytes → take n (copied n bytes old) ≡ take n bytes
take-copied zero bytes old h = refl
take-copied (suc n) bytes old h =
    let e : (suc n == 0) ≡ false = ground arith in
    rw e (take-take_append (suc n) bytes (drop (suc n) old) h)

-- The newest entry is the response that was added, whichever branch was taken.
pub cache_add-cache_recent :
    (fl : Floats) (c : Cache) (now : Monotonic) (tx : TxParams) (response : Msg) (bytes : List ℕ)
    → (cache_add fl c now tx response bytes).cache_recent ≡ (record {
      expiration_time = duration_add now (get_exchange_lifetime fl tx);
      response = response;
      payload = copied response.payload_size bytes c.cache_recent.payload;
    })
unfolding cache_add drop_expired demote_recent
cache_add-cache_recent fl c now tx response bytes = ground arith

check-recent :
    (c : Cache) (now : Monotonic) (r : Recent)
    → c.cache_recent ≡ r
    → Lives now r.expiration_time
    → cache_get (cache_check c now r.response.message_id).0 ≡ some (r.response, r.payload)
unfolding cache_get cache_check drop_expired
check-recent c now r e l = ground (arith, Lives-kept now r.expiration_time l)

-- A response is stored with an expiration time that is a time, and checked for before it has passed:
-- the check finds it as the newest one, and the response that is then read is the stored one, with the
-- stored payload.
pub cache_get-cache_add :
    (fl : Floats) (c : Cache) (now later : Monotonic) (tx : TxParams) (response : Msg)
    (bytes : List ℕ)
    → response.payload_size ≤ length bytes
    → Lives later (duration_add now (get_exchange_lifetime fl tx))
    → (payload : List ℕ) × (cache_get
          (cache_check (cache_add fl c now tx response bytes) later response.message_id).0
        ≡ some (response, payload))
      × (take response.payload_size payload ≡ take response.payload_size bytes)
cache_get-cache_add fl c now later tx response bytes h l = (
  copied response.payload_size bytes c.cache_recent.payload,
  check-recent (cache_add fl c now tx response bytes) later _
      (cache_add-cache_recent fl c now tx response bytes) l,
  take-copied response.payload_size bytes c.cache_recent.payload h,
)
