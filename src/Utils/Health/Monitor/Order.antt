-- ===== src/Utils/Health/Monitor/Order.antt =====
-- The stop channels of the monitor: which of them are closed in a history.
use lumen_sdk.Base.{ℕ, ◌+◌, ◌<◌, ◌≡◌, refl, false, List, [], ◌∷◌, arith, inl, inr, Bool-cases, All}
use lumen_sdk.Utils.Health.Monitor.{
  System, Loop, at_select, waiting, checking, ended, new_health_monitor, idle, is_closed, start,
  stop, select_in, tick_in, checked_in, stop_in, cancel_in, Event, add_checker, remove_checker,
  keep_results, checker_added, checker_removed, all_checked, was_started, was_stopped, selects,
  ticks, sees_stop, sees_cancel, ends_check, step, run,
}

-- Every closed channel is older than the one that the monitor has.
abbrev pub Below : ℕ → List ℕ → Type 0
Below stop_ch closed = All (λ c. c < stop_ch) closed

pub is_closed-Below :
    (stop_ch : ℕ) (closed : List ℕ) → Below stop_ch closed → is_closed stop_ch closed ≡ false
is_closed-Below stop_ch [] h = refl
is_closed-Below stop_ch (c ∷ cs) (h, hs) = ground (arith, is_closed-Below stop_ch cs hs)

Below-suc : (stop_ch : ℕ) (closed : List ℕ) → Below stop_ch closed → Below (stop_ch + 1) closed
Below-suc stop_ch [] h = tt
Below-suc stop_ch (c ∷ cs) (h, hs) = (omega arith, Below-suc stop_ch cs hs)

module _ {World : Type 0} where
  -- The channels that are closed are older than the one of the monitor.
  abbrev pub IsOrdered : System World → Type 0
  IsOrdered s = Below s.monitor.stop_ch s.closed

  pub stop-IsOrdered : (s : System World) → IsOrdered s → IsOrdered (stop s)
  unfolding stop
  stop-IsOrdered s h = elim (Bool-cases s.monitor.running) [
    | inl e ↦ rw e (omega arith, Below-suc s.monitor.stop_ch s.closed h)
    | inr e ↦ rw e h
  ]

  start-IsOrdered : (s : System World) → IsOrdered s → IsOrdered (start s)
  unfolding start
  start-IsOrdered s h = elim (Bool-cases s.monitor.running) [ inl e ↦ rw e h | inr e ↦ rw e h ]

  select_in-IsOrdered :
      (l : Loop World) (j : ℕ) (s : System World) → IsOrdered s → IsOrdered (select_in l j s)
  select_in-IsOrdered at_select j s h = h
  select_in-IsOrdered (waiting channel) j s h = h
  select_in-IsOrdered (checking checkers) j s h = h
  select_in-IsOrdered ended j s h = h

  tick_in-IsOrdered :
      (l : Loop World) (j : ℕ) (s : System World) → IsOrdered s → IsOrdered (tick_in l j s)
  tick_in-IsOrdered at_select j s h = h
  tick_in-IsOrdered (waiting channel) j s h = h
  tick_in-IsOrdered (checking checkers) j s h = h
  tick_in-IsOrdered ended j s h = h

  checked_in-IsOrdered :
      (l : Loop World) (j : ℕ) (w : World) (s : System World)
      → IsOrdered s
      → IsOrdered (checked_in l j w s)
  unfolding keep_results
  checked_in-IsOrdered at_select j w s h = h
  checked_in-IsOrdered (waiting channel) j w s h = h
  checked_in-IsOrdered (checking checkers) j w s h = h
  checked_in-IsOrdered ended j w s h = h

  stop_in-IsOrdered :
      (l : Loop World) (j : ℕ) (s : System World) → IsOrdered s → IsOrdered (stop_in l j s)
  stop_in-IsOrdered at_select j s h = h
  stop_in-IsOrdered (waiting channel) j s h = elim (Bool-cases (is_closed channel s.closed)) [
    | inl e ↦ rw e h
    | inr e ↦ rw e h
  ]
  stop_in-IsOrdered (checking checkers) j s h = h
  stop_in-IsOrdered ended j s h = h

  cancel_in-IsOrdered :
      (l : Loop World) (j : ℕ) (s : System World) → IsOrdered s → IsOrdered (cancel_in l j s)
  cancel_in-IsOrdered at_select j s h = h
  cancel_in-IsOrdered (waiting channel) j s h = stop-IsOrdered s h
  cancel_in-IsOrdered (checking checkers) j s h = h
  cancel_in-IsOrdered ended j s h = h

  step-IsOrdered : (e : Event World) (s : System World) → IsOrdered s → IsOrdered (step e s)
  unfolding step add_checker remove_checker keep_results
  step-IsOrdered (checker_added c) s h = h
  step-IsOrdered (checker_removed name) s h = h
  step-IsOrdered (all_checked results) s h = h
  step-IsOrdered was_started s h = start-IsOrdered s h
  step-IsOrdered was_stopped s h = stop-IsOrdered s h
  step-IsOrdered (selects j) s h = select_in-IsOrdered (s.loops j) j s h
  step-IsOrdered (ticks j) s h = tick_in-IsOrdered (s.loops j) j s h
  step-IsOrdered (sees_stop j) s h = stop_in-IsOrdered (s.loops j) j s h
  step-IsOrdered (sees_cancel j) s h = cancel_in-IsOrdered (s.loops j) j s h
  step-IsOrdered (ends_check j w) s h = checked_in-IsOrdered (s.loops j) j w s h

  pub run-IsOrdered :
      (events : List (Event World)) (s : System World) → IsOrdered s → IsOrdered (run events s)
  unfolding run
  run-IsOrdered [] s h = h
  run-IsOrdered (e ∷ events) s h = run-IsOrdered events (step e s) (step-IsOrdered e s h)

  -- What has happened to a new monitor.
  abbrev pub history : ℕ → List (Event World) → System World
  history interval events = run events (idle (new_health_monitor interval))

  pub history-IsOrdered :
      (interval : ℕ) (events : List (Event World)) → IsOrdered (history interval events)
  unfolding new_health_monitor
  history-IsOrdered interval events = run-IsOrdered events (idle (new_health_monitor interval)) tt

  -- In every history of a monitor, whatever the calls and the goroutines do in whatever order, the channel
  -- that Stop would close next is not closed yet, so that close never panics.
  pub history-stop_ch :
      (interval : ℕ) (events : List (Event World))
      → is_closed (history interval events).monitor.stop_ch (history interval events).closed ≡ false
  history-stop_ch interval events =
      is_closed-Below (history interval events).monitor.stop_ch (history interval events).closed
        (history-IsOrdered interval events)
