-- ===== src/Send/Queue.antt =====
-- src/anj/core/lwm2m_send.c: the slots in use are a queue, first in and first out.
use anjay_lite.Base.{
  arith, ◌≡◌, refl, sym, ap, ◌∙◌, ℕ, suc, ◌<◌, Bool, true, false, ◌&&◌, ◌==◌, List, [], ◌∷◌, ◌++◌,
  Option, none, some, if◌then◌else◌, length, inl, inr, Bool-cases,
}
use anjay_lite.Exchange.{Result}
use anjay_lite.Send.{
  SendRequest, Slot, SendCtx, SendResult, send_success, Finished, put_slot, next_send_id,
  request_valid, send_new_request, move_up, send_completion,
}

-- The slots before the first free one
abbrev pub queued : List Slot → List Slot
queued [] = []
queued (s ∷ ss) = if s.id == 0 then [] else s ∷ queued ss

abbrev pub all_free : List Slot → Bool
all_free [] = true
all_free (s ∷ ss) = s.id == 0 && all_free ss

-- Behind a free slot there are only free ones.
abbrev pub is_compact : List Slot → Bool
is_compact [] = true
is_compact (s ∷ ss) = if s.id == 0 then all_free ss else is_compact ss

queued_free : (ss : List Slot) → all_free ss ≡ true → queued ss ≡ []
queued_free [] h = refl
queued_free (s ∷ ss) h = ground (arith, h, queued_free ss)

free_compact : (ss : List Slot) → all_free ss ≡ true → is_compact ss ≡ true
free_compact [] h = refl
free_compact (s ∷ ss) h = ground (arith, h)

put_slot-queued :
    (ss : List Slot) (s : Slot)
    → is_compact ss ≡ true
    → (s.id == 0) ≡ false
    → length (queued ss) < length ss
    → (us : List Slot) × (put_slot ss s ≡ some us)
      × (queued us ≡ queued ss ++ (s ∷ []))
      × (is_compact us ≡ true)
unfolding put_slot
put_slot-queued [] s c n h = ground (arith, h)
put_slot-queued (t ∷ ts) s c n h = elim (Bool-cases (t.id == 0)) [
  | inl e ↦ (
    s ∷ ts,
    ground (arith, e),
    ground (arith, e, n, c, queued_free ts),
    ground (arith, e, n, c, free_compact ts),
  )
  | inr e ↦
      (let (us, p, q, k) = put_slot-queued ts s (ground (arith, e, c)) n (ground (arith, e, h)) in
        (t ∷ us, ground (arith, e, p), ground (arith, e, q), ground (arith, e, k)))
]

put_slot_full : (ss : List Slot) (s : Slot) → length (queued ss) ≡ length ss → put_slot ss s ≡ none
unfolding put_slot
put_slot_full [] s h = refl
put_slot_full (t ∷ ts) s h = elim (Bool-cases (t.id == 0)) [
  | inl e ↦ ground (arith, e, h)
  | inr e ↦ ground (arith, e, h, put_slot_full ts s)
]

all_free-move_up : (s : Slot) (ss : List Slot) → all_free ss ≡ true → all_free (move_up s ss) ≡ true
unfolding move_up
all_free-move_up s [] h = refl
all_free-move_up s (t ∷ ts) h = ground (arith, h, all_free-move_up t ts)

pub move_up-queued :
    (s : Slot) (ss : List Slot)
    → is_compact ss ≡ true
    → (queued (move_up s ss) ≡ queued ss) × (is_compact (move_up s ss) ≡ true)
unfolding move_up
move_up-queued s [] h = (refl, refl)
move_up-queued s (t ∷ ts) h = elim (Bool-cases (t.id == 0)) [
  | inl e ↦ (ground (arith, e), ground (arith, e, h, all_free-move_up t ts))
  | inr e ↦
      (let (q, c) = move_up-queued t ts (ground (arith, e, h)) in
        (ground (arith, e, q), ground (arith, e, c)))
]

next_send_id_positive : (n : ℕ) → (next_send_id n == 0) ≡ false
next_send_id_positive n = ground arith

-- What a new request does to a queue `before` of a number of slots
abbrev pub Enqueued : SendRequest → SendCtx → SendCtx × (SendResult × Option ℕ) → Type 0
Enqueued r ctx (after, (result, id)) =
    (result ≡ send_success)
    × (id ≡ some (next_send_id ctx.send_id_counter))
    × (queued after.slots
        ≡ queued ctx.slots ++ (record { id = next_send_id ctx.send_id_counter; request = r } ∷ []))
    × (is_compact after.slots ≡ true)

-- A valid request of a registered client that is not muted is queued behind the others, where the
-- slots in use have no gap and a slot is free: it is reported as a success, with the next number.
pub send_new_request-Enqueued :
    (ctx : SendCtx) (r : SendRequest)
    → is_compact ctx.slots ≡ true
    → request_valid r ≡ true
    → length (queued ctx.slots) < length ctx.slots
    → Enqueued r ctx (send_new_request true false ctx r)
unfolding send_new_request
send_new_request-Enqueued ctx r c v h =
    let id = next_send_id ctx.send_id_counter in
    let (us, p, q, k) =
      put_slot-queued ctx.slots (record { id = id; request = r }) c
        (next_send_id_positive ctx.send_id_counter) h in
    let whole : send_new_request true false ctx r
        ≡ (record ctx { slots = us; send_id_counter = id }, (send_success, some id)) =
      ground (arith, v, p) in
    rw (whole) (refl, refl, q, k)

-- As many exchanges that end, with their results, one behind the other
unfoldable pub completions : List Result → SendCtx → SendCtx × List Finished
unfolding send_completion
completions [] ctx = (ctx, [])
completions (r ∷ rs) ctx =
    let ended = send_completion ctx r in
    let rest = completions rs ended.0 in (rest.0, ended.1 ++ rest.1)

abbrev pub finished_slots : List Finished → List Slot
finished_slots [] = []
finished_slots (f ∷ fs) = f.finished_slot ∷ finished_slots fs

nothing_queued : (ss : List Slot) → 0 ≡ length ss → ss ≡ []
nothing_queued [] h = refl
nothing_queued (s ∷ ss) h = ground (arith, h)

-- What the end of an exchange does: `s` is the first request, of which the handler is called.
abbrev FirstEnds : ℕ → List Slot → SendCtx × List Finished → Slot → Type 0
FirstEnds n l ended s =
    (l ≡ s ∷ queued ended.0.slots)
    × (finished_slots ended.1 ≡ s ∷ [])
    × (is_compact ended.0.slots ≡ true)
    × (n ≡ length (queued ended.0.slots))

ended_slots :
    (ctx : SendCtx) (r : Result) (s : Slot) (ss : List Slot)
    → ctx.slots ≡ s ∷ ss
    → ((send_completion ctx r).0.slots ≡ move_up s ss)
      × (finished_slots (send_completion ctx r).1 ≡ s ∷ [])
unfolding send_completion
ended_slots ctx r s ss e = (ground (arith, e), ground (arith, e))

first_ends :
    (n : ℕ) (ctx : SendCtx) (r : Result) (l : List Slot)
    → ctx.slots ≡ l
    → is_compact l ≡ true
    → suc n ≡ length (queued l)
    → (s : Slot) × FirstEnds n (queued l) (send_completion ctx r) s
first_ends n ctx r [] e c h = ground (arith, h)
first_ends n ctx r (s ∷ ss) e c h = elim (Bool-cases (s.id == 0)) [
  | inl z ↦ ground (arith, z, h)
  | inr z ↦
      (let (after, called) = ended_slots ctx r s ss e in
        let (q, k) = move_up-queued s ss (ground (arith, z, c)) in
        let left : queued (send_completion ctx r).0.slots ≡ queued ss = ap queued after ∙ q in
        (
          s,
          (
            ground (arith, z, left),
            called,
            ap is_compact after ∙ k,
            ground (arith, z, h, ap length left),
          ),
        ))
]

finished_slots-append :
    (fs gs : List Finished) → finished_slots (fs ++ gs) ≡ finished_slots fs ++ finished_slots gs
finished_slots-append [] gs = refl
finished_slots-append (f ∷ fs) gs = ap (λ l. f.finished_slot ∷ l) (finished_slots-append fs gs)

-- Where the slots in use have no gap and as many exchanges end as requests are queued, each
-- request's handler is called once, in the order of the queue, which is empty then.
pub completions-queued :
    (rs : List Result) (ctx : SendCtx)
    → is_compact ctx.slots ≡ true
    → length rs ≡ length (queued ctx.slots)
    → (finished_slots (completions rs ctx).1 ≡ queued ctx.slots)
      × (queued (completions rs ctx).0.slots ≡ [])
unfolding completions
completions-queued [] ctx c h =
    (sym (nothing_queued (queued ctx.slots) h), nothing_queued (queued ctx.slots) h)
completions-queued (r ∷ rs) ctx c h =
    let ended = send_completion ctx r in
    let (s, (first, called, k, n)) =
      first_ends (length rs) ctx r ctx.slots refl c (ground (arith, h)) in
    let (order, empty) = completions-queued rs ended.0 k n in
    (
      finished_slots-append ended.1 (completions rs ended.0).1
          ∙ ap (λ l. l ++ finished_slots (completions rs ended.0).1) called
          ∙ ap (λ l. s ∷ l) order
          ∙ sym first,
      empty,
    )
