-- ===== src/Core/RegSession/Updates.antt =====
-- src/anj/core/reg_session.c: when the client updates its registration.
use anjay_lite.Base.{
  arith, ◌≡◌, ◌↔◌, ℕ, ◌&&◌, inl, inr, Bool-cases, ◌+◌, ◌-◌, ◌/◌, ◌<◌, ◌^◌, Bool, true, false, [],
  Option, some,
}
use anjay_lite.Base.Int.{pos, ◌+ℤ◌, ◌-ℤ◌, ◌/ℤ◌, ◌≤ℤ◌, leb_ℤ, scale}
use anjay_lite.Core.{Client, idle, queue, state_transition_forced}
use anjay_lite.Core.Calls.{Calls, is_again, run_callbacks}
use anjay_lite.Core.Register.{Request, update_request, register_update}
use anjay_lite.Core.RegSession.{
  calculate_next_update, update_needed, prepare_update, handle_registration_update, handle_send,
  handle_observe, refresh_registration_related_resources, get_lifetime, get_mute_send, set_forced,
}
use anjay_lite.Core.RegSession.Process.{
  send_requests, or_else, begin_exchange, check_queue_mode, process_idle, process_registered,
}
use anjay_lite.Time.{Duration, Monotonic, duration_sub, duration_div, duration_add, duration_gt}

-- The next Update is planned for the time between a half of the lifetime and all of it, for a
-- lifetime that is not 0 and where neither the end of the lifetime nor MAX_TRANSMIT_WAIT reaches
-- the invalid time.
pub calculate_next_update_bounds :
    (now max_transmit_wait lifetime : ℕ)
    → 0 < lifetime
    → now + lifetime < 2 ^ 63 - 1
    → max_transmit_wait < 2 ^ 63 - 1
    → (pos (now + lifetime / 2)
        ≤ℤ calculate_next_update (pos now) (pos max_transmit_wait) (pos lifetime))
      × (calculate_next_update (pos now) (pos max_transmit_wait) (pos lifetime)
          ≤ℤ pos (now + lifetime))
unfolding calculate_next_update duration_sub duration_div duration_add ◌+ℤ◌ ◌-ℤ◌ ◌/ℤ◌
calculate_next_update_bounds now w l h a b = ground arith

-- The time of the next Update is not in the past, for any lifetime that is not negative.
next_update_later :
    (now : Monotonic) (max_transmit_wait lifetime : Duration)
    → leb_ℤ (pos 0) lifetime ≡ true
    → duration_gt now (calculate_next_update now max_transmit_wait lifetime) ≡ false
unfolding calculate_next_update duration_sub duration_div duration_add ◌+ℤ◌ ◌-ℤ◌ ◌/ℤ◌
next_update_later now w l h = ground arith

get_lifetime_nonnegative :
    (e : Calls) (c : Client)
    → leb_ℤ (pos 0) c.server_instance.lifetime ≡ true
    → leb_ℤ (pos 0) (get_lifetime e c).server_instance.lifetime ≡ true
unfolding get_lifetime scale
get_lifetime_nonnegative e c h = ground arith

-- An Update that is prepared is not needed again at the same time, where the lifetime is not negative
-- and no handler triggers another.
pub update_needed-handle_registration_update :
    (e : Calls) (c : Client)
    → e.callbacks ≡ []
    → leb_ℤ (pos 0) c.server_instance.lifetime ≡ true
    → update_needed e (handle_registration_update e c).client ≡ false
unfolding update_needed handle_registration_update prepare_update
    refresh_registration_related_resources get_mute_send run_callbacks
update_needed-handle_registration_update e c n h = ground (
  arith,
  n,
  next_update_later e.now e.max_transmit_wait (get_lifetime e c).server_instance.lifetime
      (get_lifetime_nonnegative e c h),
)

abbrev pub is_update : Option Request → Bool
is_update (some (update_request lifetime with_payload locations)) = true
is_update _ = false

-- What calls for an Update: the user or the server asks for one, the lifetime has changed, the objects
-- have changed, or the planned time is over.
pub data Due (e : Calls) (c : Client) : Type 0 where
  triggered : c.server_state.registration_update_triggered ≡ true → Due e c
  lifetime_changed : c.session.update_with_lifetime ≡ true → Due e c
  objects_changed : c.session.update_with_payload ≡ true → Due e c
  time_over : duration_gt e.now c.session.next_update_time ≡ true → Due e c

-- Whether the step of a registered client looks for something to send: it is in the queue mode, or idle
-- and no message has come.
abbrev pub looks_for_requests : Calls → Client → Bool
looks_for_requests e c = elim c.session.internal_state [
  | idle ↦ is_again e.receive_result
  | queue ↦ true
  | _ ↦ false
]

Due-update_needed : (e : Calls) (c : Client) → Due e c → update_needed e c ≡ true
unfolding update_needed
Due-update_needed e c (triggered h) = ground (arith, h)
Due-update_needed e c (lifetime_changed h) = ground (arith, h)
Due-update_needed e c (objects_changed h) = ground (arith, h)
Due-update_needed e c (time_over h) = ground (arith, h)

update_needed-Due : (e : Calls) (c : Client) → update_needed e c ≡ true → Due e c
unfolding update_needed
update_needed-Due e c h = elim (Bool-cases (duration_gt e.now c.session.next_update_time)) [
  | inl t ↦ time_over t
  | inr t ↦ elim (Bool-cases c.session.update_with_lifetime) [
    | inl l ↦ lifetime_changed l
    | inr l ↦ elim (Bool-cases c.session.update_with_payload) [
      | inl o ↦ objects_changed o
      | inr o ↦ triggered (ground (arith, h, t, l, o))
    ]
  ]
]

is_update-send_requests :
    (e : Calls) (c : Client)
    → state_transition_forced c ≡ false
    → is_update (send_requests e c).request ≡ (update_needed e c && e.request_prepared)
unfolding send_requests or_else begin_exchange check_queue_mode handle_registration_update
    handle_send handle_observe prepare_update register_update update_needed
is_update-send_requests e c f = ground arith

is_update-process_registered :
    (e : Calls) (c : Client)
    → state_transition_forced c ≡ false
    → looks_for_requests e c ≡ true
    → is_update (process_registered e c).request ≡ (update_needed e c && e.request_prepared)
unfolding process_registered process_idle update_needed
is_update-process_registered e c f l =
    ground
      (arith, f, l, is_update-send_requests e c f, is_update-send_requests e (set_forced false c) f)

-- A step of a registered client that looks for something to send, in the queue mode or idle with no
-- message received, and whose transition is not forced, sends an Update exactly where one is due and
-- the exchange takes it on.
pub process_registered-Due :
    (e : Calls) (c : Client)
    → state_transition_forced c ≡ false
    → looks_for_requests e c ≡ true
    → (is_update (process_registered e c).request ≡ true) ↔ (Due e c × (e.request_prepared ≡ true))
process_registered-Due e c f l =
    let whole = is_update-process_registered e c f l in
    (
      λ h. (update_needed-Due e c (ground (arith, whole, h)), ground (arith, whole, h)),
      λ (d, p). ground (arith, whole, p, Due-update_needed e c d),
    )
