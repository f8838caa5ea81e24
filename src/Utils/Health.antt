-- ===== src/Utils/Health.antt =====
-- pkg/utils/health.go: the health checkers and the monitor. Times and durations are numbers of nanoseconds. What
-- a service answers is an argument, and a checker is its name and what it answers in a state of the world.
-- `Details` are shown only; of them the counts of the composite checker are kept.
pub mod Monitor
mod Tests
use lumen_sdk.Base.{
  ℕ, ◌+◌, ◌-◌, ◌^◌, Bool, true, false, ◌&&◌, if◌then◌else◌, List, [], ◌∷◌, ◌++◌, Option, none, some,
  leb, ltb, length,
}
use lumen_sdk.Base.Dict.{insert}
use lumen_sdk.Base.Text.{Text, codes, itoa}

pub data HealthStatus : Type 0 where
  status_healthy status_unhealthy status_unknown : HealthStatus

pub record HealthCheckResult : Type 0 where
  pub status : HealthStatus
  pub message : Text
  pub timestamp : ℕ
  pub duration : ℕ

abbrev pub is_healthy : HealthStatus → Bool
is_healthy status_healthy = true
is_healthy status_unhealthy = false
is_healthy status_unknown = false

abbrev pub is_unhealthy : HealthStatus → Bool
is_unhealthy status_healthy = false
is_unhealthy status_unhealthy = true
is_unhealthy status_unknown = false

-- A result at the end of a check that ran from `start` to `now`.
abbrev pub result_at : (start now : ℕ) → HealthStatus → Text → HealthCheckResult
result_at start now status message = record {
  status = status;
  message = message;
  timestamp = start;
  duration = now - start;
}

-- The check of a gRPC service, whose call ends with an error's text or without one.
unfoldable pub grpc_check : (start now : ℕ) → Option Text → HealthCheckResult
grpc_check start now (some err) = result_at start now status_unhealthy err
grpc_check start now none = result_at start now status_healthy (codes "service is healthy")

-- How an HTTP request ends.
pub data HttpOutcome : Type 0 where
  not_created not_sent : (err : Text) → HttpOutcome
  responded : (status_code : ℕ) → HttpOutcome

abbrev of_status_code : (start now status_code : ℕ) → HealthCheckResult
unfolding itoa
of_status_code start now status_code =
    if leb 200 status_code && ltb status_code 300
    then result_at start now status_healthy (codes "HTTP service is healthy")
    else result_at start now status_unhealthy
        (codes "HTTP service returned status " ++ itoa status_code)

unfoldable pub http_check : (start now : ℕ) → HttpOutcome → HealthCheckResult
unfolding itoa
http_check start now (not_created err) =
    result_at start now status_unhealthy (codes "failed to create request: " ++ err)
http_check start now (not_sent err) = result_at start now status_unhealthy err
http_check start now (responded status_code) = of_status_code start now status_code

pub record HealthChecker (World : Type 0) : Type 0 where
  pub name : Text
  pub check : World → HealthCheckResult

abbrev pub Results : Type 0
Results = List (Text × HealthCheckResult)

module _ {World : Type 0} where
  -- Every checker's result is written under its name, in the order of the list.
  unfoldable pub check_each : World → List (HealthChecker World) → Results → Results
  unfolding insert
  check_each w [] results = results
  check_each w (c ∷ cs) results = check_each w cs (insert c.name (c.check w) results)

  unfoldable pub all_healthy : World → List (HealthChecker World) → Bool
  all_healthy w [] = true
  all_healthy w (c ∷ cs) = is_healthy (c.check w).status && all_healthy w cs

unfoldable pub count_healthy_checks : Results → ℕ
count_healthy_checks [] = 0
count_healthy_checks ((name, result) ∷ results) =
    (if is_healthy result.status then 1 else 0) + count_healthy_checks results

-- The result of a composite check with the details that it keeps.
pub record CompositeResult : Type 0 where
  pub result : HealthCheckResult
  pub checkers : Results
  pub total_checks : ℕ
  pub healthy_checks : ℕ

abbrev composite_status : (start now : ℕ) → Bool → HealthCheckResult
composite_status start now true =
    result_at start now status_healthy (codes "all health checks passed")
composite_status start now false =
    result_at start now status_unhealthy (codes "some health checks failed")

unfoldable pub composite_check :
    {World : Type 0} → (start now : ℕ) → World → List (HealthChecker World) → CompositeResult
unfolding check_each all_healthy count_healthy_checks
composite_check start now w cs =
    let results = check_each w cs [] in
    record {
      result = composite_status start now (all_healthy w cs);
      checkers = results;
      total_checks = length cs;
      healthy_checks = count_healthy_checks results;
    }
