-- ===== src/Time.antt =====
-- include_public/anj/time.h and src/anj/time.c: durations and monotonic times, as the CoAP exchange,
-- its cache and the client core use them. A duration is its number of microseconds, an `int64_t`; the header warns
-- that no overflow is checked, and the sums here are those of the integers.
use anjay_lite.Base.{ℕ, ◌*◌, ◌^◌, ◌-◌, Bool, not, ◌&&◌, ◌||◌, ◌==◌, ltb, if◌then◌else◌}
use anjay_lite.Base.Int.{ℤ, pos, ◌+ℤ◌, ◌-ℤ◌, ◌/ℤ◌, scale, ltb_ℤ, leb_ℤ, eqb_ℤ}

-- `anj_time_duration_t`, and `anj_time_monotonic_t` as the duration since the clock's start
abbrev pub Duration : Type 0
Duration = ℤ

abbrev pub Monotonic : Type 0
Monotonic = Duration

abbrev pub time_us_max : ℤ
time_us_max = pos (2 ^ 63 - 1)

-- `ANJ_TIME_DURATION_INVALID` and `ANJ_TIME_MONOTONIC_INVALID`
abbrev pub invalid : Duration
invalid = time_us_max

pub data TimeUnit : Type 0 where
  day hour minute second ms us : TimeUnit

abbrev pub unit_multiplier : TimeUnit → ℕ
unit_multiplier day = 24 * 60 * 60 * 1000 * 1000
unit_multiplier hour = 60 * 60 * 1000 * 1000
unit_multiplier minute = 60 * 1000 * 1000
unit_multiplier second = 1000 * 1000
unit_multiplier ms = 1000
unit_multiplier us = 1

abbrev pub duration_is_valid : Duration → Bool
duration_is_valid d = not (eqb_ℤ d time_us_max)

abbrev pub duration_new : ℤ → TimeUnit → Duration
duration_new scalar unit =
    if eqb_ℤ scalar time_us_max then invalid else scale scalar (unit_multiplier unit)

unfoldable pub duration_add : Duration → Duration → Duration
unfolding ◌+ℤ◌
duration_add lhs rhs =
    if not (duration_is_valid lhs) || not (duration_is_valid rhs) then invalid else lhs +ℤ rhs

-- The callers multiply by 2 and by powers of 2, never by a negative number.
unfoldable pub duration_mul : Duration → ℕ → Duration
unfolding scale
duration_mul d factor =
    if not (duration_is_valid d) || factor == 2 ^ 31 - 1 then invalid else scale d factor

-- `anj_time_duration_mul(d, 1 << count)`: the shift of an `int` is defined for a count below 31;
-- `undefined` is whatever comes of any other.
unfoldable pub duration_shift : (undefined : Duration) → Duration → (count : ℕ) → Duration
unfolding duration_mul
duration_shift undefined d count = if ltb count 31 then duration_mul d (2 ^ count) else undefined

abbrev pub both_valid : Duration → Duration → Bool
both_valid lhs rhs = duration_is_valid lhs && duration_is_valid rhs

abbrev pub duration_lt : Duration → Duration → Bool
duration_lt lhs rhs = both_valid lhs rhs && ltb_ℤ lhs rhs

abbrev pub duration_gt : Duration → Duration → Bool
duration_gt lhs rhs = both_valid lhs rhs && ltb_ℤ rhs lhs

abbrev pub duration_geq : Duration → Duration → Bool
duration_geq lhs rhs = both_valid lhs rhs && leb_ℤ rhs lhs

unfoldable pub duration_sub : Duration → Duration → Duration
unfolding ◌-ℤ◌
duration_sub lhs rhs =
    if not (duration_is_valid lhs) || not (duration_is_valid rhs) then invalid else lhs -ℤ rhs

-- The callers divide by 2.
unfoldable pub duration_div : Duration → ℕ → Duration
unfolding ◌/ℤ◌
duration_div d divisor = if not (duration_is_valid d) || divisor == 0 then invalid else d /ℤ divisor

abbrev pub duration_eq : Duration → Duration → Bool
duration_eq lhs rhs = both_valid lhs rhs && eqb_ℤ lhs rhs

abbrev pub duration_leq : Duration → Duration → Bool
duration_leq lhs rhs = both_valid lhs rhs && leb_ℤ lhs rhs

-- `ANJ_TIME_MONOTONIC_ZERO`, and `ANJ_TIME_DURATION_ZERO`
abbrev pub time_zero : Monotonic
time_zero = pos 0
