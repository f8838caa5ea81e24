-- ===== src/Utils/Breaker/Tests.antt =====
-- Runs of the breaker, and the theorems at them.
use lumen_sdk.Base.{◌≡◌, ◌↔◌, refl, true, false, List, [], ◌∷◌, some, arith}
use lumen_sdk.Base.Int.{pos, ltb_ℤ, ◌-ℤ◌}
use lumen_sdk.Utils.Breaker.{
  CircuitBreaker, new_circuit_breaker, run, execute, Call, executed, circuit_open, circuit_closed,
}
use lumen_sdk.Utils.Breaker.Laws.{IsConsistent, run-IsConsistent, execute-rejects_iff}

abbrev twice : List Call
twice = executed 1 2 true ∷ executed 3 4 true ∷ []

abbrev tripped : CircuitBreaker
tripped = run twice (new_circuit_breaker (pos 2) (pos 100))

tripped-state : tripped.state ≡ circuit_open
unfolding run new_circuit_breaker
tripped-state = refl

last_failure : tripped.last_failure ≡ some 4
unfolding run new_circuit_breaker
last_failure = refl

-- After the reset time, one success closes it.
recovered : (execute 105 106 false tripped).0.state ≡ circuit_closed
unfolding run new_circuit_breaker execute
recovered = refl

-- After the reset time, one failure opens it again.
reopened : (execute 105 106 true tripped).0.state ≡ circuit_open
unfolding run new_circuit_breaker execute
reopened = refl

run-IsConsistent_example : IsConsistent 2 (run twice (new_circuit_breaker (pos 2) (pos 100)))
run-IsConsistent_example = run-IsConsistent 2 (pos 100) twice (omega arith) (omega arith)

execute-rejects_iff_example :
    (execute 5 6 true tripped ≡ (tripped, false))
    ↔ ((tripped.state ≡ circuit_open) × (ltb_ℤ tripped.reset_time (pos 5 -ℤ pos 4) ≡ false))
execute-rejects_iff_example = execute-rejects_iff 5 6 true tripped 4 last_failure
