-- ===== src/Utils/Health/Monitor/Laws.antt =====
-- What a loop of the monitor does that is in CheckAll when Stop is called.
use lumen_sdk.Base.{
  ℕ, ◌≡◌, refl, sym, ap, ◌∙◌, subst, Bool, true, false, List, [], ◌∷◌, ◌==◌, ◌≢◌, inl, inr,
  Bool-cases, ==_iff, All,
}
use lumen_sdk.Utils.Health.{Results}
use lumen_sdk.Utils.Health.Monitor.Order.{
  Below, is_closed-Below, IsOrdered, stop-IsOrdered, history-IsOrdered, history,
}
use lumen_sdk.Utils.Health.Monitor.{
  System, Loop, at_select, waiting, checking, ended, Checkers, is_closed, assign, move, stop,
  select_in, tick_in, checked_in, stop_in, cancel_in, Event, add_checker, remove_checker,
  keep_results, check_all, checker_added, checker_removed, all_checked, was_started, was_stopped,
  selects, ticks, sees_stop, sees_cancel, ends_check, step, run,
}

-- The loop runs, and waits for no other channel.
abbrev pub IsAlive : {World : Type 0} → ℕ → Loop World → Type 0
IsAlive stop_ch at_select = Unit
IsAlive stop_ch (waiting channel) = channel ≡ stop_ch
IsAlive stop_ch (checking checkers) = Unit
IsAlive stop_ch ended = ⊥

-- The program does not call Start again, and the context of the loop is not cancelled.
abbrev pub Leaves : {World : Type 0} → ℕ → Event World → Type 0
Leaves i was_started = ⊥
Leaves i (sees_cancel j) = (j == i) ≡ false
Leaves i _ = Unit

-- A stop that the loop did not see: the monitor does not run, and the loop waits for no closed channel.
record Missed {World : Type 0} (i : ℕ) (s : System World) : Type 0 where
  stopped : s.monitor.running ≡ false
  below : Below s.monitor.stop_ch s.closed
  alive : IsAlive s.monitor.stop_ch (s.loops i)

both_ways : {b : Bool} → b ≡ true → b ≡ false → ⊥
both_ways e f = cc

module _ {World : Type 0} where
  assign-IsAlive :
      (stop_ch i j : ℕ) (l : Loop World) (loops : ℕ → Loop World)
      → ((j == i) ≡ true → IsAlive stop_ch l)
      → IsAlive stop_ch (loops i)
      → IsAlive stop_ch (assign j l loops i)
  assign-IsAlive stop_ch i j l loops hit h = elim (Bool-cases (j == i)) [
    | inl e ↦ rw e (hit e)
    | inr e ↦ rw e h
  ]

  stop-off : (s : System World) → s.monitor.running ≡ false → stop s ≡ s
  unfolding stop
  stop-off s e = rw e refl

  move-Missed :
      (i j : ℕ) (l : Loop World) (s : System World)
      → Missed i s
      → ((j == i) ≡ true → IsAlive s.monitor.stop_ch l)
      → Missed i (move j l s)
  move-Missed i j l s m hit = record {
    stopped = m.stopped;
    below = m.below;
    alive = assign-IsAlive s.monitor.stop_ch i j l s.loops hit m.alive;
  }

  -- What the state of the loop `j` says if it is the loop `i`.
  here-IsAlive :
      (i j : ℕ) (l : Loop World) (s : System World)
      → s.loops j ≡ l
      → Missed i s
      → (j == i) ≡ true
      → IsAlive s.monitor.stop_ch l
  here-IsAlive i j l s e m same =
      subst (IsAlive s.monitor.stop_ch) (sym (ap s.loops ((==_iff j i).0 same)) ∙ e) m.alive

  select_in-Missed :
      (i j : ℕ) (l : Loop World) (s : System World) → Missed i s → Missed i (select_in l j s)
  select_in-Missed i j at_select s m = move-Missed i j (waiting s.monitor.stop_ch) s m (λ _. refl)
  select_in-Missed i j (waiting channel) s m = m
  select_in-Missed i j (checking checkers) s m = m
  select_in-Missed i j ended s m = m

  tick_in-Missed :
      (i j : ℕ) (l : Loop World) (s : System World) → Missed i s → Missed i (tick_in l j s)
  tick_in-Missed i j at_select s m = m
  tick_in-Missed i j (waiting channel) s m =
      move-Missed i j (checking s.monitor.checkers) s m (λ _. tt)
  tick_in-Missed i j (checking checkers) s m = m
  tick_in-Missed i j ended s m = m

  keep_results-Missed :
      (i : ℕ) (results : Results) (s : System World)
      → Missed i s
      → Missed i (record s { monitor = keep_results results s.monitor })
  unfolding keep_results
  keep_results-Missed i results s m = record {
    stopped = m.stopped;
    below = m.below;
    alive = m.alive;
  }

  checked_in-Missed :
      (i j : ℕ) (l : Loop World) (w : World) (s : System World)
      → Missed i s
      → Missed i (checked_in l j w s)
  checked_in-Missed i j at_select w s m = m
  checked_in-Missed i j (waiting channel) w s m = m
  checked_in-Missed i j (checking checkers) w s m =
      move-Missed i j at_select _ (keep_results-Missed i (check_all w checkers) s m) (λ _. tt)
  checked_in-Missed i j ended w s m = m

  stop_in-Missed :
      (i j : ℕ) (l : Loop World) (s : System World)
      → s.loops j ≡ l
      → Missed i s
      → Missed i (stop_in l j s)
  stop_in-Missed i j at_select s e m = m
  stop_in-Missed i j (waiting channel) s e m = elim (Bool-cases (is_closed channel s.closed)) [
    | inl shut ↦ rw shut (
        move-Missed i j ended s m (λ same.
          (let here = here-IsAlive i j (waiting channel) s e m same in
            let open_ = is_closed-Below s.monitor.stop_ch s.closed m.below in
            let shut_ = subst (λ c. is_closed c s.closed ≡ true) here shut in
            both_ways shut_ open_)))
    | inr not_shut ↦ rw not_shut m
  ]
  stop_in-Missed i j (checking checkers) s e m = m
  stop_in-Missed i j ended s e m = m

  cancel_in-Missed :
      (i j : ℕ) (l : Loop World) (s : System World)
      → (j == i) ≡ false
      → Missed i s
      → Missed i (cancel_in l j s)
  cancel_in-Missed i j at_select s other m = m
  cancel_in-Missed i j (waiting channel) s other m =
      rw (stop-off s m.stopped) (move-Missed i j ended s m (λ same. both_ways same other))
  cancel_in-Missed i j (checking checkers) s other m = m
  cancel_in-Missed i j ended s other m = m

  step-Missed :
      (i : ℕ) (e : Event World) (s : System World) → Leaves i e → Missed i s → Missed i (step e s)
  unfolding step add_checker remove_checker
  step-Missed i (checker_added c) s h m = record {
    stopped = m.stopped;
    below = m.below;
    alive = m.alive;
  }
  step-Missed i (checker_removed name) s h m = record {
    stopped = m.stopped;
    below = m.below;
    alive = m.alive;
  }
  step-Missed i (all_checked results) s h m = keep_results-Missed i results s m
  step-Missed i was_started s h m = elim h [ ]
  step-Missed i was_stopped s h m = rw (stop-off s m.stopped) m
  step-Missed i (selects j) s h m = select_in-Missed i j (s.loops j) s m
  step-Missed i (ticks j) s h m = tick_in-Missed i j (s.loops j) s m
  step-Missed i (sees_stop j) s h m = stop_in-Missed i j (s.loops j) s refl m
  step-Missed i (sees_cancel j) s h m = cancel_in-Missed i j (s.loops j) s h m
  step-Missed i (ends_check j w) s h m = checked_in-Missed i j (s.loops j) w s m

  run-Missed :
      (i : ℕ) (events : List (Event World)) (s : System World)
      → All (Leaves i) events
      → Missed i s
      → Missed i (run events s)
  unfolding run
  run-Missed i [] s h m = m
  run-Missed i (e ∷ events) s (h, hs) m = run-Missed i events (step e s) hs (step-Missed i e s h m)

  stop-IsStopped : (s : System World) → (stop s).monitor.running ≡ false
  unfolding stop
  stop-IsStopped s = elim (Bool-cases s.monitor.running) [ inl e ↦ rw e refl | inr e ↦ rw e refl ]

  stop-loops : (s : System World) (i : ℕ) → (stop s).loops i ≡ s.loops i
  unfolding stop
  stop-loops s i = elim (Bool-cases s.monitor.running) [ inl e ↦ rw e refl | inr e ↦ rw e refl ]

  stop-Missed :
      (i : ℕ) (checkers : Checkers World) (s : System World)
      → IsOrdered s
      → s.loops i ≡ checking checkers
      → Missed i (stop s)
  stop-Missed i checkers s h e = record {
    stopped = stop-IsStopped s;
    below = stop-IsOrdered s h;
    alive = subst (IsAlive (stop s).monitor.stop_ch) (sym (stop-loops s i ∙ e)) tt;
  }

  IsAlive-not_ended : (stop_ch : ℕ) (l : Loop World) → IsAlive stop_ch l → l ≢ ended
  IsAlive-not_ended stop_ch l h e = subst (IsAlive stop_ch) e h

  -- A loop of a monitor that is in CheckAll when Stop is called does not see that: whatever happens before
  -- and after, but for a later call of Start and a cancelled context of the loop, it has not returned,
  -- while the monitor says that it does not run.
  pub stop-missed :
      (interval : ℕ) (earlier later : List (Event World)) (i : ℕ) (checkers : Checkers World)
      → (history interval earlier).loops i ≡ checking checkers
      → All (Leaves i) later
      → ((run later (stop (history interval earlier))).monitor.running ≡ false)
        × ((run later (stop (history interval earlier))).loops i ≢ ended)
  stop-missed interval earlier later i checkers e h =
      let m = run-Missed i later (stop (history interval earlier)) h (
        stop-Missed i checkers (history interval earlier) (history-IsOrdered interval earlier) e) in
      (
        m.stopped,
        IsAlive-not_ended (run later (stop (history interval earlier))).monitor.stop_ch
            ((run later (stop (history interval earlier))).loops i) m.alive,
      )
