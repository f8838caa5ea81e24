-- ===== src/Utils/Breaker.antt =====
-- pkg/utils/retry.go: the circuit breaker, which has no lock of its own, so a history is a sequence of
-- calls. The failure counter is the bit pattern of an int; a time is a number of nanoseconds, and `none` is
-- the zero time. Whether the function that a call runs fails is an argument.
pub mod Laws
mod Tests
use lumen_sdk.Base.{
  ℕ, ◌+◌, ◌-◌, ◌%◌, ◌^◌, Bool, true, false, not, if◌then◌else◌, List, [], ◌∷◌, Option, none, some,
  leb,
}
use lumen_sdk.Base.Int.{ℤ, pos, negsuc, ltb_ℤ, ◌-ℤ◌}

pub data CircuitState : Type 0 where
  circuit_closed circuit_open circuit_half_open : CircuitState

pub record CircuitBreaker : Type 0 where
  pub max_failures : ℤ
  pub reset_time : ℤ
  pub failures : ℕ
  pub last_failure : Option ℕ
  pub state : CircuitState

unfoldable pub new_circuit_breaker : ℤ → ℤ → CircuitBreaker
new_circuit_breaker max_failures reset_time = record {
  max_failures = max_failures;
  reset_time = reset_time;
  failures = 0;
  last_failure = none;
  state = circuit_closed;
}

-- The int of a bit pattern.
abbrev pub to_int : ℕ → ℤ
to_int n = if leb n (2 ^ 63 - 1) then pos n else negsuc (2 ^ 64 - 1 - n)

-- `time.Since(t)`, which the largest duration bounds for the zero time.
abbrev pub time_since : ℕ → Option ℕ → ℤ
time_since now none = pos (2 ^ 63 - 1)
time_since now (some t) = pos now -ℤ pos t

-- What a call does before it runs its function; `none` rejects the call.
abbrev pub admit_open : ℕ → CircuitBreaker → Option CircuitBreaker
admit_open now cb =
    if ltb_ℤ cb.reset_time (time_since now cb.last_failure)
    then some (record cb { state = circuit_half_open })
    else none

abbrev pub admit_in : CircuitState → ℕ → CircuitBreaker → Option CircuitBreaker
admit_in circuit_open now cb = admit_open now cb
admit_in circuit_half_open now cb = some cb
admit_in circuit_closed now cb = some cb

unfoldable pub admit : ℕ → CircuitBreaker → Option CircuitBreaker
unfolding ◌-ℤ◌
admit now cb = admit_in cb.state now cb

abbrev pub close_half_open : CircuitState → CircuitState
close_half_open circuit_half_open = circuit_closed
close_half_open circuit_open = circuit_open
close_half_open circuit_closed = circuit_closed

unfoldable pub on_success : CircuitBreaker → CircuitBreaker
on_success cb = record cb { failures = 0; state = close_half_open cb.state }

unfoldable pub on_failure : ℕ → CircuitBreaker → CircuitBreaker
on_failure now cb =
    let failures = (cb.failures + 1) % 2 ^ 64 in
    record cb {
      failures = failures;
      last_failure = some now;
      state = if ltb_ℤ (to_int failures) cb.max_failures then cb.state else circuit_open;
    }

-- The breaker after a call, and whether the function ran. `now` is the time at which it starts, `later`
-- that of a failure.
unfoldable pub execute : ℕ → ℕ → Bool → CircuitBreaker → CircuitBreaker × Bool
unfolding admit on_success on_failure
execute now later fails cb = elim (admit now cb) [
  | none ↦ (cb, false)
  | some admitted ↦ (if fails then on_failure later admitted else on_success admitted, true)
]

unfoldable pub reset : CircuitBreaker → CircuitBreaker
reset cb = record cb { failures = 0; state = circuit_closed; last_failure = none }

pub data Call : Type 0 where
  executed : (now later : ℕ) (fails : Bool) → Call
  was_reset : Call

unfoldable pub apply : Call → CircuitBreaker → CircuitBreaker
unfolding execute reset
apply (executed now later fails) cb = (execute now later fails cb).0
apply was_reset cb = reset cb

unfoldable pub run : List Call → CircuitBreaker → CircuitBreaker
unfolding apply
run [] cb = cb
run (c ∷ calls) cb = run calls (apply c cb)
