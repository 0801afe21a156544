-- ===== src/Send/Abort.antt =====
-- src/anj/core/lwm2m_send.c: anj_send_abort takes a request out of the queue.
use anjay_lite.Base.{
  arith, ◌≡◌, refl, sym, ap, ◌∙◌, ℕ, Bool, true, false, not, ◌&&◌, ◌||◌, ◌==◌, List, [], ◌∷◌,
  Option, none, some, if◌then◌else◌, inl, inr, Bool-cases,
}
use anjay_lite.Exchange.{error_terminated}
use anjay_lite.Send.{
  Slot, SendCtx, SendResult, send_success, err_abort, Finished, free, move_up, send_completion,
  abort_behind, abort_one, abort_queued, send_abort, send_id_all, first_id,
}
use anjay_lite.Send.Queue.{all_free, queued, is_compact, move_up-queued}

abbrev pub has_id : ℕ → List Slot → Bool
has_id id [] = false
has_id id (s ∷ ss) = s.id == id || has_id id ss

-- No two slots in use have the same number.
abbrev pub is_distinct : List Slot → Bool
is_distinct [] = true
is_distinct (s ∷ ss) = (s.id == 0 || not (has_id s.id ss)) && is_distinct ss

-- The queue without the first request of this number
abbrev pub without_id : ℕ → List Slot → List Slot
without_id id [] = []
without_id id (s ∷ ss) = if s.id == id then ss else s ∷ without_id id ss

same_id : (a b : ℕ) → (a == b) ≡ true → a ≡ b
same_id a b h = ground (arith, h)

free_has_none :
    (id : ℕ) (ss : List Slot) → (id == 0) ≡ false → all_free ss ≡ true → has_id id ss ≡ false
free_has_none id [] z h = refl
free_has_none id (s ∷ ss) z h = ground (arith, z, h, free_has_none id ss z)

abort_behind-move_up :
    (id : ℕ) (found before : Slot) (ss : List Slot)
    → has_id id ss ≡ false
    → abort_behind id found before ss ≡ (found, move_up before ss)
unfolding abort_behind move_up
abort_behind-move_up id found before [] h = refl
abort_behind-move_up id found before (s ∷ ss) h =
    ground (arith, h, abort_behind-move_up id found s ss)

-- The first request of this number
abbrev pub find_id : ℕ → List Slot → Option Slot
find_id id [] = none
find_id id (s ∷ ss) = if s.id == id then some s else find_id id ss

-- What is left where the request `found` has been taken out of the slots
abbrev Taken : ℕ → List Slot → Slot → List Slot → Type 0
Taken id ss found us =
    (find_id id (queued ss) ≡ some found)
    × (queued us ≡ without_id id (queued ss))
    × (is_compact us ≡ true)

abort_one-Taken :
    (id : ℕ) (ss : List Slot)
    → (id == 0) ≡ false
    → is_compact ss ≡ true
    → is_distinct ss ≡ true
    → has_id id ss ≡ true
    → (found : Slot) × ((us : List Slot) × ((abort_one id ss ≡ some (found, us))
          × Taken id ss found us))
unfolding abort_one
abort_one-Taken id [] z c d h = ground (arith, h)
abort_one-Taken id (s ∷ ss) z c d h = elim (Bool-cases (s.id == id)) [
  | inl e ↦
      (let same = same_id s.id id e in
        let used : (s.id == 0) ≡ false = ap (λ n. n == 0) same ∙ z in
        let others : has_id id ss ≡ false =
          ap (λ n. has_id n ss) (sym same) ∙ ground (arith, d, used) in
        let (q, k) = move_up-queued (free s) ss (ground (arith, used, c)) in
        let behind = abort_behind-move_up id s (free s) ss others in
        (
          s,
          (
            move_up (free s) ss,
            (ground (arith, e, behind), (ground (arith, e, used), q ∙ ground (arith, e, used), k)),
          ),
        ))
  | inr e ↦ elim (Bool-cases (s.id == 0)) [
    | inl f ↦ ground (arith, e, f, z, c, h, free_has_none id ss z)
    | inr f ↦
        (let (found, (us, (p, (i, q, k)))) =
            abort_one-Taken id ss z (ground (arith, f, c)) (ground (arith, d))
              (ground (arith, e, h)) in
          (
            found,
            (
              s ∷ us,
              (
                ground (arith, e, p),
                (ground (arith, e, f, i), ground (arith, e, f, q), ground (arith, f, k)),
              ),
            ),
          ))
  ]
]

-- What an abort of the request `found` leaves
abbrev pub Aborted : ℕ → SendCtx → SendCtx × (SendResult × List Finished) → Slot → Type 0
Aborted id ctx (after, (result, called)) found =
    (result ≡ send_success)
    × (called ≡ record { finished_slot = found; result = err_abort } ∷ [])
    × (find_id id (queued ctx.slots) ≡ some found)
    × (queued after.slots ≡ without_id id (queued ctx.slots))
    × (is_compact after.slots ≡ true)

abort_queued-Aborted :
    (id : ℕ) (ctx : SendCtx)
    → (id == 0) ≡ false
    → (id == send_id_all) ≡ false
    → is_compact ctx.slots ≡ true
    → is_distinct ctx.slots ≡ true
    → has_id id ctx.slots ≡ true
    → (found : Slot) × Aborted id ctx (abort_queued ctx id) found
unfolding abort_queued
abort_queued-Aborted id ctx z a c d h =
    let (found, (us, (p, (i, q, k)))) = abort_one-Taken id ctx.slots z c d h in
    let whole : abort_queued ctx id ≡ (
      record ctx { slots = us },
      (send_success, record { finished_slot = found; result = err_abort } ∷ []),
    ) =
      ground (arith, a, p) in
    (found, rw (whole) (refl, refl, i, q, k))

first-Aborted :
    (id : ℕ) (ctx : SendCtx) (l : List Slot)
    → ctx.slots ≡ l
    → (id == 0) ≡ false
    → is_compact l ≡ true
    → (id == first_id l) ≡ true
    → (found : Slot) × Aborted id ctx
        (
          (send_completion ctx error_terminated).0,
          (send_success, (send_completion ctx error_terminated).1),
        )
        found
unfolding send_completion
first-Aborted id ctx [] e z c h = ground (arith, z, h)
first-Aborted id ctx (s ∷ ss) e z c h =
    let same = same_id id s.id h in
    let used : (s.id == 0) ≡ false = ap (λ n. n == 0) (sym same) ∙ z in
    let (q, k) = move_up-queued s ss (ground (arith, used, c)) in
    let after : (send_completion ctx error_terminated).0.slots ≡ move_up s ss = ground (arith, e) in
    let first : without_id id (queued (s ∷ ss)) ≡ queued ss = ground (arith, used, sym same) in
    (
      s,
      (
        refl,
        ground (arith, e),
        ap (λ l. find_id id (queued l)) e ∙ ground (arith, used, sym same),
        ap queued after ∙ q ∙ sym first ∙ ap (λ l. without_id id (queued l)) (sym e),
        ap is_compact after ∙ k,
      ),
    )

first_used :
    (id : ℕ) (ss : List Slot)
    → (id == 0) ≡ false
    → is_compact ss ≡ true
    → has_id id ss ≡ true
    → (first_id ss == 0) ≡ false
first_used id [] z c h = ground (arith, h)
first_used id (s ∷ ss) z c h = ground (arith, z, c, h, free_has_none id ss z)

-- Aborting a queued request, by a number that is neither 0 nor ANJ_SEND_ID_ALL, calls the handler
-- of exactly this request, the one that the queue holds under the number, once and with
-- ANJ_SEND_ERR_ABORT, and takes it out of the queue, which keeps the order of the others: also
-- where its exchange is active, if the slots in use have no gap, their numbers are distinct and no
-- abort is in progress.
pub send_abort-Aborted :
    (id : ℕ) (ctx : SendCtx)
    → (id == 0) ≡ false
    → (id == send_id_all) ≡ false
    → ctx.abort_in_progress ≡ false
    → is_compact ctx.slots ≡ true
    → is_distinct ctx.slots ≡ true
    → has_id id ctx.slots ≡ true
    → (found : Slot) × Aborted id ctx (send_abort ctx id) found
unfolding send_abort
send_abort-Aborted id ctx z a p c d h =
    let used = first_used id ctx.slots z c h in
    elim (Bool-cases (ctx.active_exchange && (id == first_id ctx.slots))) [
      | inl e ↦
          (let (found, whole) = first-Aborted id ctx ctx.slots refl z c (ground (arith, e)) in
            let run : send_abort ctx id ≡ (
              (send_completion ctx error_terminated).0,
              (send_success, (send_completion ctx error_terminated).1),
            ) =
              ground (arith, e, p, a, used) in
            (found, rw (run) whole))
      | inr e ↦
          (let (found, whole) = abort_queued-Aborted id ctx z a c d h in
            let run : send_abort ctx id ≡ abort_queued ctx id = ground (arith, e, p, a, used) in
            (found, rw (run) whole))
    ]
