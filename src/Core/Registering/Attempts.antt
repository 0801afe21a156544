-- ===== src/Core/Registering/Attempts.antt =====
-- src/anj/core/server_register.c: how many failed attempts a registration takes.
use anjay_lite.Base.{
  arith, ◌≡◌, ap, ◌∙◌, sym, ℕ, zero, suc, ◌+◌, ◌*◌, ◌^◌, ◌<◌, ◌≤◌, Bool, true, false, ◌==◌, ◌⊎◌,
  inl, inr,
}
use anjay_lite.Core.{Client, RetryRes, Registration, RegistrationState, cleanup_with_failure}
use anjay_lite.Core.Calls.{Calls}
use anjay_lite.Core.Registering.{
  calculate_communication_retry_timeout, retry_later, end_sequence, register_op_read_data_model,
  read_retry_res, begin_sequence, start_register_operation,
}

-- The client after so many attempts that failed; `f n` is what the client sees at the end of the
-- attempt of that number.
unfoldable pub after_errors : (f : ℕ → Calls) → ℕ → Client → Client
unfolding calculate_communication_retry_timeout
after_errors f zero c = c
after_errors f (suc n) c = calculate_communication_retry_timeout (f n) (after_errors f n c)

abbrev is_given_up : RegistrationState → Bool
is_given_up cleanup_with_failure = true
is_given_up _ = false

abbrev pub gave_up : Client → Bool
gave_up c = is_given_up c.registration.registration_state

-- The counters of a client that has failed so many times and goes on
record Trying (r : RetryRes) (n : ℕ) (c : Client) : Type 0 where
  total : c.registration.retry_seq_count * r.retry_count + c.registration.retry_count ≡ n
  in_sequence : c.registration.retry_count < r.retry_count
  in_sequences : c.registration.retry_seq_count < r.seq_retry_count
  resources : c.server_instance.retry_res ≡ r
  going_on : gave_up c ≡ false

read_keeps :
    (e : Calls) (c : Client)
    → read_retry_res e ≡ c.server_instance.retry_res
    → (register_op_read_data_model e c).0.server_instance.retry_res ≡ c.server_instance.retry_res
unfolding register_op_read_data_model
read_keeps e c h = ground (arith, h)

read_registration :
    (e : Calls) (c : Client) → (register_op_read_data_model e c).0.registration ≡ c.registration
unfolding register_op_read_data_model
read_registration e c = ground arith

less_or_equal : {m n : ℕ} → m < n → (suc m < n) ⊎ (suc m ≡ n)
less_or_equal h = ground arith

less_not_equal : {m n : ℕ} → m < n → m ≡ n → ⊥
less_not_equal h k = omega arith

suc_mul : (q r : ℕ) → suc q * r ≡ q * r + r
suc_mul q r = omega arith

sequence_total :
    {q m r n q' m' : ℕ} → suc m ≡ r → q * r + m ≡ n → q' ≡ suc q → m' ≡ 0 → q' * r + m' ≡ suc n
sequence_total {q = q} {r = r} h t p z = rw (p, z) (omega (arith, suc_mul q r))

attempts_total : {q m r s n : ℕ} → suc m ≡ r → q * r + m ≡ n → suc q ≡ s → suc n ≡ s * r
attempts_total {q = q} {r = r} h t p = rw⁻¹ p (omega (arith, suc_mul q r))

module _ (r : RetryRes) (small : r.retry_count < 2 ^ 16) (few : r.seq_retry_count < 2 ^ 16) where
  retried :
      (e : Calls) (n : ℕ) (c : Client)
      → Trying r n c
      → suc c.registration.retry_count < r.retry_count
      → Trying r (suc n) (calculate_communication_retry_timeout e c)
  unfolding calculate_communication_retry_timeout retry_later
  retried e n c t h = record {
    total = ground (arith, t.total, t.resources);
    in_sequence = ground (arith, t.resources);
    in_sequences = ground (arith, t.in_sequences, t.resources);
    resources = ground (arith, t.resources);
    going_on = ground (arith, t.resources);
  }

  ends_sequence :
      (e : Calls) (c : Client)
      → c.server_instance.retry_res ≡ r
      → suc c.registration.retry_count ≡ r.retry_count
      → calculate_communication_retry_timeout e c ≡ end_sequence e r.retry_count c
  unfolding calculate_communication_retry_timeout
  ends_sequence e c q h = ground (arith, q, h)

  next_sequence :
      (e : Calls) (n : ℕ) (c : Client)
      → read_retry_res e ≡ r
      → Trying r n c
      → suc c.registration.retry_count ≡ r.retry_count
      → suc c.registration.retry_seq_count < r.seq_retry_count
      → Trying r (suc n) (end_sequence e r.retry_count c)
  unfolding end_sequence begin_sequence
  next_sequence e n c p t h k =
      let c1 = begin_sequence e (suc c.registration.retry_seq_count) c in
      let kept = read_registration e c1 in
      let res = read_keeps e c1 (p ∙ sym t.resources) in
      let again : end_sequence e r.retry_count c ≡ (register_op_read_data_model e c1).0 =
        ground (arith, t.resources, k) in
      let reg = ap (λ (x : Client). x.registration) again ∙ kept in
      record {
        total =
            sequence_total h t.total (ap (λ (g : Registration). g.retry_seq_count) reg)
              (ap (λ (g : Registration). g.retry_count) reg);
        in_sequence = omega (arith, ap (λ (g : Registration). g.retry_count) reg, h);
        in_sequences = omega (arith, ap (λ (g : Registration). g.retry_seq_count) reg, k);
        resources = ap (λ (x : Client). x.server_instance.retry_res) again ∙ res ∙ t.resources;
        going_on = ap (λ (g : Registration). is_given_up g.registration_state) reg;
      }

  last_attempt :
      (e : Calls) (n : ℕ) (c : Client)
      → Trying r n c
      → suc c.registration.retry_seq_count ≡ r.seq_retry_count
      → gave_up (end_sequence e r.retry_count c) ≡ true
  unfolding end_sequence
  last_attempt e n c t k = ground (arith, t.resources, k)

  -- One more failed attempt
  attempt :
      (e : Calls) (n : ℕ) (c : Client)
      → read_retry_res e ≡ r
      → Trying r n c
      → Trying r (suc n) (calculate_communication_retry_timeout e c)
        ⊎ ((gave_up (calculate_communication_retry_timeout e c) ≡ true)
            × (suc n ≡ r.seq_retry_count * r.retry_count))
  attempt e n c p t = elim (less_or_equal t.in_sequence) [
    | inl h ↦ inl (retried e n c t h)
    | inr h ↦
        (let ends = ends_sequence e c t.resources h in
          elim (less_or_equal t.in_sequences) [
            | inl k ↦ inl (rw (ends) (next_sequence e n c p t h k))
            | inr k ↦ inr (rw (ends) (last_attempt e n c t k), attempts_total h t.total k)
          ])
  ]

  attempts_until :
      (f : ℕ → Calls) (n : ℕ) (c : Client)
      → ((i : ℕ) → read_retry_res (f i) ≡ r)
      → Trying r 0 c
      → n < r.seq_retry_count * r.retry_count
      → Trying r n (after_errors f n c)
  unfolding after_errors
  attempts_until f zero c p t h = t
  attempts_until f (suc n) c p t h =
      elim (attempt (f n) n (after_errors f n c) (p n) (attempts_until f n c p t (omega arith))) [
        | inl u ↦ u
        | inr (_, k) ↦ absurd (less_not_equal h k)
      ]

mul_mono : (q s r : ℕ) → q ≤ s → q * r ≤ s * r
mul_mono zero s r h = omega arith
mul_mono (suc q) zero r h =
    absurd (less_not_equal {m = 0} {n = suc q} (omega arith) (omega (arith, h)))
mul_mono (suc q) (suc s) r h = omega (arith, suc_mul q r, suc_mul s r, mul_mono q s r (omega arith))

-- A client that goes on has made fewer attempts than all sequences have.
Trying-bound :
    (r : RetryRes) (n : ℕ) (c : Client) → Trying r n c → n < r.seq_retry_count * r.retry_count
Trying-bound r n c t =
    let q = c.registration.retry_seq_count in
    omega (
      arith,
      t.total,
      t.in_sequence,
      suc_mul q r.retry_count,
      mul_mono (suc q) r.seq_retry_count r.retry_count (omega (arith, t.in_sequences)),
    )

all_attempts :
    (r : RetryRes) (f : ℕ → Calls) (n : ℕ) (c : Client)
    → r.retry_count < 2 ^ 16
    → r.seq_retry_count < 2 ^ 16
    → ((i : ℕ) → read_retry_res (f i) ≡ r)
    → Trying r 0 c
    → n ≤ r.seq_retry_count * r.retry_count
    → gave_up (after_errors f n c) ≡ (n == r.seq_retry_count * r.retry_count)
unfolding after_errors
all_attempts r f zero c a b p t h = ground (arith, Trying-bound r 0 c t, t.going_on)
all_attempts r f (suc n) c a b p t h =
    let before = attempts_until r a b f n c p t (omega arith) in
    elim (attempt r a b (f n) n (after_errors f n c) (p n) before) [
      | inl u ↦ ground (
        arith,
        Trying-bound r (suc n) (calculate_communication_retry_timeout (f n) (after_errors f n c)) u,
        u.going_on,
      )
      | inr (g, k) ↦ ground (arith, g, k)
    ]

retry_count_bound : (e : Calls) → (read_retry_res e).retry_count < 2 ^ 16
unfolding read_retry_res
retry_count_bound e = ground arith

seq_retry_count_bound : (e : Calls) → (read_retry_res e).seq_retry_count < 2 ^ 16
unfolding read_retry_res
seq_retry_count_bound e = ground arith

start_register_operation-Trying :
    (e : Calls) (c : Client)
    → (start_register_operation e c).1 ≡ true
    → 0 < (read_retry_res e).retry_count
    → 0 < (read_retry_res e).seq_retry_count
    → Trying (read_retry_res e) 0 (start_register_operation e c).0
unfolding start_register_operation register_op_read_data_model
start_register_operation-Trying e c h a b = record {
  total = ground arith;
  in_sequence = ground arith;
  in_sequences = ground arith;
  resources = ground arith;
  going_on = ground arith;
}

-- A client whose attempts to register all fail gives up after the Communication Retry Count times the
-- Communication Sequence Retry Count of them, and not before, where neither of the two is 0 and the
-- resources do not change.
pub after_errors-start_register_operation :
    (e : Calls) (f : ℕ → Calls) (n : ℕ) (c : Client)
    → (start_register_operation e c).1 ≡ true
    → 0 < (read_retry_res e).retry_count
    → 0 < (read_retry_res e).seq_retry_count
    → ((i : ℕ) → read_retry_res (f i) ≡ read_retry_res e)
    → n ≤ (read_retry_res e).seq_retry_count * (read_retry_res e).retry_count
    → gave_up (after_errors f n (start_register_operation e c).0)
      ≡ (n == (read_retry_res e).seq_retry_count * (read_retry_res e).retry_count)
after_errors-start_register_operation e f n c s a b p h =
    all_attempts (read_retry_res e) f n (start_register_operation e c).0 (retry_count_bound e)
      (seq_retry_count_bound e) p (start_register_operation-Trying e c s a b) h
