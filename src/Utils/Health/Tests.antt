-- ===== src/Utils/Health/Tests.antt =====
-- Checks of services, and a monitor that is stopped while its loop checks.
use lumen_sdk.Base.{◌≡◌, ◌≢◌, refl, Bool, true, false, List, [], ◌∷◌, none, some}
use lumen_sdk.Base.Text.{codes}
use lumen_sdk.Utils.Health.{
  HealthChecker, HealthCheckResult, status_healthy, status_unhealthy, result_at, http_check,
  responded, not_sent, composite_check, grpc_check,
}
use lumen_sdk.Utils.Health.Monitor.{
  Event, ended, checking, stop, run, is_closed, checker_added, checker_removed, was_started,
  was_stopped, selects, ticks, sees_stop, ends_check, new_health_monitor, get_result, check_all,
}
use lumen_sdk.Utils.Health.Monitor.Order.{history, history-stop_ch}
use lumen_sdk.Utils.Health.Monitor.Laws.{stop-missed}

abbrev answers : Bool → HealthCheckResult
answers true = result_at 10 15 status_healthy (codes "service is healthy")
answers false = result_at 10 15 status_unhealthy (codes "down")

abbrev db : HealthChecker Bool
db = record { name = codes "db"; check = answers }

http_edges :
    ((http_check 1 4 (responded 299)).status ≡ status_healthy)
    × ((http_check 1 4 (responded 300)).message ≡ codes "HTTP service returned status 300")
    × ((http_check 1 4 (not_sent (codes "refused"))).duration ≡ 3)
    × ((grpc_check 1 4 none).status ≡ status_healthy)
unfolding http_check grpc_check
http_edges = (refl, refl, refl, refl)

-- Two checkers of one name count once among the healthy.
same_name :
    ((composite_check 1 4 true (db ∷ db ∷ [])).result.status ≡ status_healthy)
    × ((composite_check 1 4 true (db ∷ db ∷ [])).total_checks ≡ 2)
    × ((composite_check 1 4 true (db ∷ db ∷ [])).healthy_checks ≡ 1)
unfolding composite_check
same_name = (refl, refl, refl)

abbrev until_check : List (Event Bool)
until_check = checker_added db ∷ was_started ∷ selects 0 ∷ ticks 0 ∷ []

abbrev after_stop : List (Event Bool)
after_stop =
    ends_check 0 true ∷ selects 0 ∷ sees_stop 0 ∷ was_stopped ∷ ticks 0 ∷ ends_check 0 false ∷ []

-- A checker that is removed while its check runs has a result again.
removed_result :
    get_result
      (codes "db")
      (run
        (ends_check 0 true ∷ [])
        (run (checker_removed (codes "db") ∷ []) (history 5 until_check))).monitor
    ≡ some (answers true)
unfolding get_result run new_health_monitor check_all
removed_result = refl

is_checking : (history 5 until_check).loops 0 ≡ checking ((codes "db", db) ∷ [])
unfolding run new_health_monitor
is_checking = refl

stop-missed_example :
    ((run after_stop (stop (history 5 until_check))).monitor.running ≡ false)
    × ((run after_stop (stop (history 5 until_check))).loops 0 ≢ ended)
stop-missed_example =
    stop-missed 5 until_check after_stop 0 ((codes "db", db) ∷ []) is_checking
      (tt, (tt, (tt, (tt, (tt, (tt, tt))))))

history-stop_ch_example :
    is_closed
      (history 5 (was_started ∷ was_stopped ∷ until_check)).monitor.stop_ch
      (history 5 (was_started ∷ was_stopped ∷ until_check)).closed
    ≡ false
history-stop_ch_example = history-stop_ch 5 (was_started ∷ was_stopped ∷ until_check)
