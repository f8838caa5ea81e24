-- ===== src/Utils/Health/Monitor.antt =====
-- The HealthMonitor of pkg/utils/health.go and the goroutines that run its loop. A channel is the number of
-- its making, so Stop makes the channel after the one that it closes; `closed` has those that are closed.
-- A loop is a state: it reads `hm.stopCh` each time that it enters its select.
pub mod Order
pub mod Laws
use lumen_sdk.Base.{
  ℕ, ◌+◌, Bool, true, false, ◌||◌, if◌then◌else◌, List, [], ◌∷◌, map, ◌==◌, Option,
}
use lumen_sdk.Base.Dict.{insert, delete, lookup}
use lumen_sdk.Base.Text.{Text}
use lumen_sdk.Utils.Health.{
  HealthChecker, HealthCheckResult, Results, HealthStatus, is_healthy, is_unhealthy,
}

abbrev pub Checkers : Type 0 → Type 0
Checkers World = List (Text × HealthChecker World)

pub record HealthMonitor (World : Type 0) : Type 0 where
  pub checkers : Checkers World
  pub results : Results
  pub interval : ℕ
  pub stop_ch : ℕ
  pub running : Bool

-- A goroutine in Start: before its select, in it with the channel that it has read, in CheckAll with the
-- checkers that it has copied, or returned.
pub data Loop (World : Type 0) : Type 0 where
  at_select : Loop World
  waiting : (channel : ℕ) → Loop World
  checking : Checkers World → Loop World
  ended : Loop World

pub record System (World : Type 0) : Type 0 where
  pub monitor : HealthMonitor World
  pub closed : List ℕ
  pub loops : ℕ → Loop World
  pub started : ℕ

abbrev pub is_closed : ℕ → List ℕ → Bool
is_closed channel [] = false
is_closed channel (c ∷ cs) = (c == channel) || is_closed channel cs

abbrev pub with_results : Results → Results → Results
unfolding insert
with_results [] results = results
with_results ((name, result) ∷ rest) results = with_results rest (insert name result results)

abbrev pub names_of : (HealthStatus → Bool) → Results → List Text
names_of test [] = []
names_of test ((name, result) ∷ results) =
    let rest = names_of test results in if test result.status then name ∷ rest else rest

module _ {World : Type 0} where
  unfoldable pub new_health_monitor : ℕ → HealthMonitor World
  new_health_monitor interval = record {
    checkers = [];
    results = [];
    interval = interval;
    stop_ch = 0;
    running = false;
  }

  abbrev pub idle : HealthMonitor World → System World
  idle hm = record { monitor = hm; closed = []; loops = λ i. ended; started = 0 }

  unfoldable pub add_checker : HealthChecker World → HealthMonitor World → HealthMonitor World
  unfolding insert
  add_checker checker hm = record hm { checkers = insert checker.name checker hm.checkers }

  unfoldable pub remove_checker : Text → HealthMonitor World → HealthMonitor World
  unfolding delete
  remove_checker name hm = record hm {
    checkers = delete name hm.checkers;
    results = delete name hm.results;
  }

  -- What CheckAll gets of the checkers that it has copied.
  unfoldable pub check_all : World → Checkers World → Results
  unfolding insert
  check_all w [] = []
  check_all w ((name, checker) ∷ checkers) = insert name (checker.check w) (check_all w checkers)

  -- The second locked part of CheckAll.
  unfoldable pub keep_results : Results → HealthMonitor World → HealthMonitor World
  unfolding insert
  keep_results results hm = record hm { results = with_results results hm.results }

  unfoldable pub get_result : Text → HealthMonitor World → Option HealthCheckResult
  unfolding lookup
  get_result name hm = lookup name hm.results

  unfoldable pub get_healthy_checkers : HealthMonitor World → List Text
  get_healthy_checkers hm = names_of is_healthy hm.results

  unfoldable pub get_unhealthy_checkers : HealthMonitor World → List Text
  get_unhealthy_checkers hm = names_of is_unhealthy hm.results

  abbrev pub assign : ℕ → Loop World → (ℕ → Loop World) → ℕ → Loop World
  assign i l loops j = if i == j then l else loops j

  abbrev pub move : ℕ → Loop World → System World → System World
  move i l s = record s { loops = assign i l s.loops }

  unfoldable pub start : System World → System World
  start s = if s.monitor.running then s else record s {
    monitor = record s.monitor { running = true };
    loops = assign s.started at_select s.loops;
    started = s.started + 1;
  }

  unfoldable pub stop : System World → System World
  stop s =
      if s.monitor.running
      then record s {
        monitor = record s.monitor { running = false; stop_ch = s.monitor.stop_ch + 1 };
        closed = s.monitor.stop_ch ∷ s.closed;
      }
      else s

  -- The loop `i` enters its select.
  abbrev pub select_in : Loop World → ℕ → System World → System World
  select_in at_select i s = move i (waiting s.monitor.stop_ch) s
  select_in _ i s = s

  -- The ticker's case: CheckAll copies the checkers.
  abbrev pub tick_in : Loop World → ℕ → System World → System World
  tick_in (waiting channel) i s = move i (checking s.monitor.checkers) s
  tick_in _ i s = s

  -- CheckAll is done.
  abbrev pub checked_in : Loop World → ℕ → World → System World → System World
  checked_in (checking checkers) i w s =
      move i at_select (record s { monitor = keep_results (check_all w checkers) s.monitor })
  checked_in _ i w s = s

  -- The case of the stop channel, which is ready when that is closed.
  abbrev pub stop_in : Loop World → ℕ → System World → System World
  stop_in (waiting channel) i s = if is_closed channel s.closed then move i ended s else s
  stop_in _ i s = s

  -- The case of the cancelled context.
  abbrev pub cancel_in : Loop World → ℕ → System World → System World
  cancel_in (waiting channel) i s = move i ended (stop s)
  cancel_in _ i s = s

-- What happens: the calls of the program, a CheckAll of another goroutine that has got its results, and the
-- steps of a loop.
pub data Event (World : Type 0) : Type 0 where
  checker_added : HealthChecker World → Event World
  checker_removed : Text → Event World
  all_checked : Results → Event World
  was_started was_stopped : Event World
  selects ticks sees_stop sees_cancel : ℕ → Event World
  ends_check : ℕ → World → Event World

module _ {World : Type 0} where
  unfoldable pub step : Event World → System World → System World
  unfolding add_checker remove_checker keep_results start stop
  step (checker_added c) s = record s { monitor = add_checker c s.monitor }
  step (checker_removed name) s = record s { monitor = remove_checker name s.monitor }
  step (all_checked results) s = record s { monitor = keep_results results s.monitor }
  step was_started s = start s
  step was_stopped s = stop s
  step (selects i) s = select_in (s.loops i) i s
  step (ticks i) s = tick_in (s.loops i) i s
  step (sees_stop i) s = stop_in (s.loops i) i s
  step (sees_cancel i) s = cancel_in (s.loops i) i s
  step (ends_check i w) s = checked_in (s.loops i) i w s

  unfoldable pub run : List (Event World) → System World → System World
  unfolding step
  run [] s = s
  run (e ∷ events) s = run events (step e s)
