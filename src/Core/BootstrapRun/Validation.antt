-- ===== src/Core/BootstrapRun/Validation.antt =====
-- src/anj/core/bootstrap.c: how a run of the bootstrap ends after its Bootstrap-Finish.
use anjay_lite.Base.{Bool, true, false, if◌then◌else◌}
use anjay_lite.Core.{BootstrapCode, bootstrap_finished, err_exchange, err_validation}
use anjay_lite.Core.Register.{is_success}
use anjay_lite.Exchange.{Result}

-- How the run has to end: by the validation of the data model, then by the exchange of the response.
abbrev pub expected_end : (validation_ok : Bool) → Result → BootstrapCode
expected_end false result = err_validation
expected_end true result = if is_success result then bootstrap_finished else err_exchange
