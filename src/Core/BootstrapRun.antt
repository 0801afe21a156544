-- ===== src/Core/BootstrapRun.antt =====
-- src/anj/core/bootstrap.c: one run of the bootstrap, from the Bootstrap-Request to the
-- Bootstrap-Finish.
pub mod Validation
use anjay_lite.Base.{ℕ, Bool, true, false, not, ◌&&◌, ◌||◌, if◌then◌else◌}
use anjay_lite.Coap.{coap_code}
use anjay_lite.Core.{
  BootstrapCtx, BootstrapCode, in_progress_code, new_request_to_send, bootstrap_finished,
  err_exchange, err_network, err_validation, err_timeout,
}
use anjay_lite.Core.Register.{is_success}
use anjay_lite.Exchange.{Result}
use anjay_lite.Time.{Monotonic, duration_add, duration_gt}

abbrev pub is_validation : BootstrapCode → Bool
is_validation err_validation = true
is_validation _ = false

abbrev pub is_lost : BootstrapCode → Bool
is_lost err_exchange = true
is_lost err_network = true
is_lost _ = false

-- An error code of 0
abbrev pub is_no_error : BootstrapCode → Bool
is_no_error in_progress_code = true
is_no_error _ = false

unfoldable pub bootstrap_finish_completion_callback : BootstrapCtx → Result → BootstrapCtx
bootstrap_finish_completion_callback ctx result =
    if is_success result then record ctx { bootstrap_finish_handled = true } else record ctx {
      error_code = if is_validation ctx.error_code then ctx.error_code else err_exchange;
      bootstrap_finish_handled = true;
    }

unfoldable pub bootstrap_request_completion_callback : BootstrapCtx → Result → BootstrapCtx
bootstrap_request_completion_callback ctx result =
    if is_success result then ctx else record ctx { error_code = err_exchange }

-- `_anj_bootstrap_process`: the context, and the value returned
unfoldable pub bootstrap_process : Monotonic → BootstrapCtx → BootstrapCtx × BootstrapCode
unfolding duration_add
bootstrap_process now ctx =
    if not ctx.in_progress
    then (
      record ctx {
        in_progress = true;
        bootstrap_finish_handled = false;
        error_code = in_progress_code;
        bootstrap_finish_timeout = duration_add now ctx.bootstrap_lifetime;
      },
      new_request_to_send,
    )
    else if (ctx.bootstrap_finish_handled && is_validation ctx.error_code) || is_lost ctx.error_code
    then (record ctx { in_progress = false }, ctx.error_code)
    else if ctx.bootstrap_finish_handled
    then (record ctx { in_progress = false }, bootstrap_finished)
    else if duration_gt now ctx.bootstrap_finish_timeout
    then (record ctx { in_progress = false; error_code = err_timeout }, err_timeout)
    else (ctx, in_progress_code)

abbrev pub code_not_acceptable : ℕ
code_not_acceptable = coap_code 4 6

abbrev pub code_changed : ℕ
code_changed = coap_code 2 4

-- `_anj_bootstrap_finish_request`, given what `_anj_dm_bootstrap_validation` returns; the context
-- and the response code
unfoldable pub bootstrap_finish_request : (validation_ok : Bool) → BootstrapCtx → BootstrapCtx × ℕ
bootstrap_finish_request validation_ok ctx =
    if not ctx.in_progress
    then (ctx, code_not_acceptable)
    else if is_no_error ctx.error_code && not validation_ok
    then (record ctx { error_code = err_validation }, code_not_acceptable)
    else (ctx, code_changed)

-- `_anj_bootstrap_connection_lost`
abbrev pub bootstrap_connection_lost : BootstrapCtx → BootstrapCtx
bootstrap_connection_lost ctx = record ctx { error_code = err_network }

-- `_anj_bootstrap_timeout_reset`
unfoldable pub bootstrap_timeout_reset : Monotonic → BootstrapCtx → BootstrapCtx
unfolding duration_add
bootstrap_timeout_reset now ctx = record ctx {
  bootstrap_finish_timeout = duration_add now ctx.bootstrap_lifetime;
}

-- `_anj_bootstrap_reset`
abbrev pub bootstrap_reset : BootstrapCtx → BootstrapCtx
bootstrap_reset ctx = record ctx { in_progress = false }
