-- ===== src/Core/Register/Locations.antt =====
-- src/anj/core/register.c: the locations that the server gives to a registration.
use anjay_lite.Base.{
  arith, ◌≡◌, refl, ap, ℕ, Bool, true, false, ◌&&◌, List, [], ◌∷◌, leb, length, Option,
}
use anjay_lite.Core.{RegisterCtx}
use anjay_lite.Core.Register.{
  Limits, update_request, deregister_request, register_register, copy_locations, overwrite,
  store_locations, request_completion_callback, write_location_paths, register_update,
  register_deregister,
}
use anjay_lite.Exchange.{success}
use anjay_lite.Time.{Duration}

-- Locations that are not empty and fit in the array
abbrev pub fits : (path_size : ℕ) → List (List ℕ) → Bool
fits path_size [] = true
fits path_size ([] ∷ ls) = false
fits path_size ((b ∷ bs) ∷ ls) = leb (length (b ∷ bs)) path_size && fits path_size ls

copy_locations-fits :
    (path_size : ℕ) (ls : List (List ℕ))
    → fits path_size ls ≡ true
    → copy_locations path_size ls ≡ (ls, true)
unfolding copy_locations
copy_locations-fits n [] h = refl
copy_locations-fits n ([] ∷ ls) h = ground arith
copy_locations-fits n ((b ∷ bs) ∷ ls) h = ground (arith, copy_locations-fits n ls (ground arith))

overwrite_nothing : (ls : List (List ℕ)) → overwrite ls [] ≡ ls
unfolding overwrite
overwrite_nothing [] = refl
overwrite_nothing (l ∷ ls) = refl

write_location_paths-fits :
    (path_size : ℕ) (ls : List (List ℕ)) → fits path_size ls ≡ true → write_location_paths ls ≡ ls
unfolding write_location_paths
write_location_paths-fits n [] h = refl
write_location_paths-fits n ([] ∷ ls) h = ground arith
write_location_paths-fits n ((b ∷ bs) ∷ ls) h =
    ap (λ t. (b ∷ bs) ∷ t) (write_location_paths-fits n ls (ground arith))

registered_locations :
    (limits : Limits) (ctx : RegisterCtx) (ls : List (List ℕ)) (lifetime : Duration) (has_q : Bool)
    → fits limits.path_size ls ≡ true
    → (request_completion_callback limits
        (register_register ctx lifetime has_q).0
        ls
        success).location_path
      ≡ ls
unfolding request_completion_callback store_locations
registered_locations limits ctx ls l q h =
    ground (arith, copy_locations-fits limits.path_size ls h, overwrite_nothing ls)

-- The locations of a successful Register response are those that the next Update and De-register
-- carry, where none of them is empty or too long.
pub register_update-register_register :
    (limits : Limits) (ctx : RegisterCtx) (ls : List (List ℕ)) (lifetime : Duration) (has_q : Bool)
    (new_lifetime : Option Duration) (with_payload : Bool)
    → fits limits.path_size ls ≡ true
    → ((register_update
          (request_completion_callback limits (register_register ctx lifetime has_q).0 ls success)
          new_lifetime
          with_payload).1
        ≡ update_request new_lifetime with_payload ls)
      × ((register_deregister (
            request_completion_callback limits
              (register_register ctx lifetime has_q).0
              ls
              success)).1
          ≡ deregister_request ls)
unfolding register_update register_deregister
register_update-register_register limits ctx ls l q nl wp h =
    let stored = registered_locations limits ctx ls l q h in
    let written = write_location_paths-fits limits.path_size ls h in
    (rw (stored, written) refl, rw (stored, written) refl)
