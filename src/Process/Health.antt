-- ===== src/Process/Health.antt =====
-- The health check of the sidecars, internal/cmd/healthcheck, and what it asks.
use plugin_barman_cloud.Base.{arith, some, ◌≡◌, ◌↔◌, refl, Bool, true}
use plugin_barman_cloud.Base.Exec.{Result, ok, err, and_then}
use plugin_barman_cloud.Process.Identity.{HealthStatus, unknown, serving, not_serving, other_status}
use plugin_barman_cloud.Process.Commands.{
  returns, unix_health_check, health_check_status, exit_code,
}

-- An answer that lets the probe pass: that the server serves, or the error of a canceled context.
abbrev pub Passes : {E : Type 0} → (E → Bool) → Result E HealthStatus → Type 0
Passes is_canceled (ok status) = status ≡ serving
Passes is_canceled (err e) = is_canceled e ≡ true

error_code :
    {E : Type 0} (is_canceled : E → Bool) (e : E)
    → (exit_code is_canceled (returns (some e)) ≡ 0) ↔ (is_canceled e ≡ true)
unfolding exit_code
error_code is_canceled e = ground arith

status_code :
    {E : Type 0} (is_canceled : E → Bool) (r : Result E HealthStatus)
    → (exit_code is_canceled (health_check_status r) ≡ 0) ↔ Passes is_canceled r
unfolding exit_code health_check_status
status_code is_canceled (err e) = error_code is_canceled e
status_code is_canceled (ok serving) = (λ e. refl, λ e. refl)
status_code is_canceled (ok unknown) = (λ e. absurd (ground arith), λ e. absurd (ground arith))
status_code is_canceled (ok not_serving) = (λ e. absurd (ground arith), λ e. absurd (ground arith))
status_code is_canceled (ok other_status) = (λ e. absurd (ground arith), λ e. absurd (ground arith))

-- The process exits with 0 if and only if the server answers that it serves, or the call ends by a
-- canceled context; every other status, and every other error of the client or of the call, has a
-- code that is not 0.
pub exit_code-unix_health_check :
    {E C : Type 0} (is_canceled : E → Bool) (new_client : Result E C)
    (check : C → Result E HealthStatus)
    → (exit_code is_canceled (unix_health_check new_client check) ≡ 0)
      ↔ Passes is_canceled (and_then new_client check)
unfolding unix_health_check
exit_code-unix_health_check is_canceled (err e) check = error_code is_canceled e
exit_code-unix_health_check is_canceled (ok c) check = status_code is_canceled (check c)
