-- ===== src/ExchangeCache/Eviction.antt =====
-- Which older entry `_anj_exchange_cache_add` overwrites, and that the newest response is kept on as
-- an older one.
use anjay_lite.Base.{
  ℕ, zero, suc, ◌+◌, ◌<◌, ◌≡◌, ◌≢◌, refl, true, false, arith, List, [], ◌∷◌, some, Bool-cases,
  length, get_elem?, set, inl, inr,
}
use anjay_lite.Base.Int.{leb_ℤ}
use anjay_lite.Coap.{Msg}
use anjay_lite.ExchangeCache.Lookup.{
  Lives, Remembers, here, there, Lives-kept, Answers, recent, older, unknown, cache_check-Answers,
  cache_add-cache_recent,
}
use anjay_lite.ExchangeCache.{
  Cache, Floats, TxParams, NonRecent, cache_add, cache_check, drop_expired, drop_expired_entries,
  find_candidate, demote_recent, save_recent_cache, CheckResult, hit_non_recent,
}
use anjay_lite.Time.{Monotonic, duration_is_valid, duration_gt, invalid}

abbrev pub All : (NonRecent → Type 0) → List NonRecent → Type 0
All P [] = Unit
All P (e ∷ es) = P e × All P es

abbrev pub Used : NonRecent → Type 0
Used e = duration_is_valid e.expiration_time ≡ true

-- `e` expires no later than `x`.
abbrev pub NoLater : NonRecent → NonRecent → Type 0
NoLater e x = leb_ℤ e.expiration_time x.expiration_time ≡ true

abbrev Later : Monotonic → NonRecent → Type 0
Later oldest x = duration_gt x.expiration_time oldest ≡ true

-- The result `k` of the loop over `es` from index `i` on.
data Found (es : List NonRecent) (i : ℕ) (oldest : Monotonic) (candidate : ℕ) (k : ℕ) : Type 0 where
  free :
      (j : ℕ) (e : NonRecent)
      → k ≡ i + j
      → get_elem? es j ≡ some e
      → duration_is_valid e.expiration_time ≡ false
      → Found es i oldest candidate k
  kept_candidate :
      All Used es → All (Later oldest) es → k ≡ candidate → Found es i oldest candidate k
  oldest_used :
      (j : ℕ) (e : NonRecent)
      → All Used es
      → k ≡ i + j
      → get_elem? es j ≡ some e
      → Used e
      → All (NoLater e) es
      → duration_gt e.expiration_time oldest ≡ false
      → Found es i oldest candidate k

All-Later-NoLater :
    (e : NonRecent) (es : List NonRecent)
    → Used e
    → All (Later e.expiration_time) es
    → All (NoLater e) es
All-Later-NoLater e [] u h = tt
All-Later-NoLater e (x ∷ es) u (h, hs) = (ground arith, All-Later-NoLater e es u hs)

module _ (e : NonRecent) (es : List NonRecent) (i : ℕ) (oldest : Monotonic) (candidate k : ℕ)
    (used : Used e) where
  -- The loop passes an entry that expires later than the oldest so far.
  step_later :
      duration_gt e.expiration_time oldest ≡ true
      → Found es (i + 1) oldest candidate k
      → Found (e ∷ es) i oldest candidate k
  step_later g (free j x h at f) = free (suc j) x (omega arith) at f
  step_later g (kept_candidate us ls h) = kept_candidate (used, us) (g, ls) h
  step_later g (oldest_used j x us h at u ns n) =
      oldest_used (suc j) x (used, us) (omega arith) at u (ground arith, ns) n

  -- The loop takes an entry that does not.
  step_older :
      duration_gt e.expiration_time oldest ≡ false
      → Found es (i + 1) e.expiration_time i k
      → Found (e ∷ es) i oldest candidate k
  step_older g (free j x h at f) = free (suc j) x (omega arith) at f
  step_older g (kept_candidate us ls h) =
      oldest_used 0 e (used, us) (omega arith) refl used
        (ground arith, All-Later-NoLater e es used ls) g
  step_older g (oldest_used j x us h at u ns n) =
      oldest_used (suc j) x (used, us) (omega arith) at u (ground arith, ns) (ground arith)

find_candidate-Found :
    (es : List NonRecent) (i : ℕ) (oldest : Monotonic) (candidate : ℕ)
    → Found es i oldest candidate (find_candidate es i oldest candidate)
unfolding find_candidate
find_candidate-Found [] i oldest candidate = kept_candidate tt tt refl
find_candidate-Found (e ∷ es) i oldest candidate =
    elim (Bool-cases (duration_is_valid e.expiration_time)) [
      | inr f ↦ rw f (free 0 e (omega arith) refl f)
      | inl u ↦ elim (Bool-cases (duration_gt e.expiration_time oldest)) [
        | inl g ↦
            rw (g, u)
              (step_later e es i oldest candidate _ u g
                (find_candidate-Found es (i + 1) oldest candidate))
        | inr g ↦
            rw (g, u)
              (step_older e es i oldest candidate _ u g
                (find_candidate-Found es (i + 1) e.expiration_time i))
      ]
    ]

-- The entry that is overwritten: one that holds nothing, or, where all are used, one that expires no
-- later than any other.
pub data Evicted (es : List NonRecent) (k : ℕ) : Type 0 where
  free_entry :
      (e : NonRecent)
      → get_elem? es k ≡ some e
      → duration_is_valid e.expiration_time ≡ false
      → Evicted es k
  oldest_entry :
      (e : NonRecent) → All Used es → get_elem? es k ≡ some e → All (NoLater e) es → Evicted es k

not-Later-invalid : (es : List NonRecent) → es ≢ [] → All (Later invalid) es → ⊥
not-Later-invalid [] ne h = ne refl
not-Later-invalid (e ∷ es) ne (h, _) = ground arith

get_elem?-lt-length :
    (es : List NonRecent) (k : ℕ) {e : NonRecent} → get_elem? es k ≡ some e → k < length es
get_elem?-lt-length [] k h = cc
get_elem?-lt-length (x ∷ es) zero h = omega arith
get_elem?-lt-length (x ∷ es) (suc k) h = omega (arith, get_elem?-lt-length es k h)

-- In a cache with room for older entries the loop picks a free entry or, with all entries used, an
-- entry that expires first: no entry is lost while another is free or expires earlier.
pub find_candidate-Evicted :
    (es : List NonRecent) → es ≢ [] → Evicted es (find_candidate es 0 invalid 0)
find_candidate-Evicted es ne = elim (find_candidate-Found es 0 invalid 0) [
  | free j e h at f ↦
      let k : find_candidate es 0 invalid 0 ≡ j = omega arith in free_entry e (rw k at) f
  | kept_candidate us ls h ↦ absurd (not-Later-invalid es ne ls)
  | oldest_used j e us h at u ns n ↦
      let k : find_candidate es 0 invalid 0 ≡ j = omega arith in oldest_entry e us (rw k at) ns
]

find_candidate-lt-length :
    (es : List NonRecent) → es ≢ [] → find_candidate es 0 invalid 0 < length es
find_candidate-lt-length es ne = elim (find_candidate-Evicted es ne) [
  | free_entry e at f ↦ get_elem?-lt-length es _ at
  | oldest_entry e us at ns ↦ get_elem?-lt-length es _ at
]

Remembers-set :
    (es : List NonRecent) (k : ℕ) (e : NonRecent) (now : Monotonic)
    → k < length es
    → Lives now e.expiration_time
    → Remembers now e.mid (set es k e)
Remembers-set [] k e now h l = absurd (omega arith)
Remembers-set (x ∷ es) zero e now h l = here refl l
Remembers-set (x ∷ es) (suc k) e now h l = there (Remembers-set es k e now (omega arith) l)

drop_expired_entries-ne-nil :
    (now : Monotonic) (es : List NonRecent) → es ≢ [] → drop_expired_entries now es ≢ []
unfolding drop_expired_entries
drop_expired_entries-ne-nil now [] ne = ne
drop_expired_entries-ne-nil now (e ∷ es) ne = λ h. cc

-- After the addition of another response the one that was the newest is among the older ones.
cache_add-Remembers :
    (fl : Floats) (c : Cache) (now later : Monotonic) (tx : TxParams) (response : Msg)
    (bytes : List ℕ)
    → c.cache_non_recent ≢ []
    → Lives now c.cache_recent.expiration_time
    → Lives later c.cache_recent.expiration_time
    → Remembers later c.cache_recent.response.message_id
        (cache_add fl c now tx response bytes).cache_non_recent
unfolding cache_add drop_expired demote_recent save_recent_cache
cache_add-Remembers fl c now later tx response bytes ne l l' =
    let es = drop_expired_entries now c.cache_non_recent in
    let n : es ≢ [] = drop_expired_entries-ne-nil now c.cache_non_recent ne in
    let entry : NonRecent = record {
      expiration_time = c.cache_recent.expiration_time;
      mid = c.cache_recent.response.message_id;
    } in
    rw (Lives-kept now c.cache_recent.expiration_time l, l.valid)
      (Remembers-set es (find_candidate es 0 invalid 0) entry later (find_candidate-lt-length es n)
        l')

Answers-older :
    (now : Monotonic) (id : ℕ) (c : Cache) {r : CheckResult}
    → c.cache_recent.response.message_id ≢ id
    → Remembers now id c.cache_non_recent
    → Answers now id c r
    → r ≡ hit_non_recent
Answers-older now id c ne m (recent h) = absurd (ne h.same_id)
Answers-older now id c ne m (older f r) = refl
Answers-older now id c ne m (unknown f g) = absurd (g m)

-- A cache with room for older entries, whose newest response lives while another one with another
-- message identifier is added and still at the time of a later check: that check for the first
-- response's message finds it among the older ones.
pub cache_check-cache_add_older :
    (fl : Floats) (c : Cache) (now later : Monotonic) (tx : TxParams) (response : Msg)
    (bytes : List ℕ)
    → c.cache_non_recent ≢ []
    → response.message_id ≢ c.cache_recent.response.message_id
    → Lives now c.cache_recent.expiration_time
    → Lives later c.cache_recent.expiration_time
    → (cache_check
        (cache_add fl c now tx response bytes)
        later
        c.cache_recent.response.message_id).1
      ≡ hit_non_recent
cache_check-cache_add_older fl c now later tx response bytes ne other l l' =
    let added = cache_add fl c now tx response bytes in
    let id = c.cache_recent.response.message_id in
    Answers-older later id added (rw (cache_add-cache_recent fl c now tx response bytes) other)
      (cache_add-Remembers fl c now later tx response bytes ne l l')
      (cache_check-Answers added later id)
