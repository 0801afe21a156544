-- ===== src/Core/Suspension.antt =====
-- src/anj/core/reg_session.c and core.c: how long a suspended client stays suspended.
use anjay_lite.Base.{arith, ◌≡◌, true, ◌&&◌, if◌then◌else◌}
use anjay_lite.Base.Int.{leb_ℤ}
use anjay_lite.Core.{Client, initial, suspended, core_disable_server}
use anjay_lite.Core.Calls.{Calls}
use anjay_lite.Core.RegSession.Process.{process_suspended}
use anjay_lite.Time.{Duration, Monotonic, duration_is_valid, duration_add}

-- A suspended client that the user disables for some time stays suspended until both that time and the
-- server's own enable time have come, where all these times are valid.
pub process_suspended-core_disable_server :
    (e : Calls) (now : Monotonic) (timeout : Duration) (c : Client)
    → c.server_state.conn_status ≡ suspended
    → duration_is_valid timeout ≡ true
    → duration_is_valid (duration_add now timeout) ≡ true
    → duration_is_valid c.server_state.enable_time ≡ true
    → duration_is_valid e.now ≡ true
    → (process_suspended e (core_disable_server now timeout c)).client.server_state.conn_status ≡ (
        if leb_ℤ (duration_add now timeout) e.now && leb_ℤ c.server_state.enable_time e.now
        then initial
        else suspended)
unfolding process_suspended core_disable_server
process_suspended-core_disable_server e now d c h v1 v2 v3 v4 = ground arith
