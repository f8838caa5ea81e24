-- ===== src/Utils/Breaker/Laws.antt =====
-- When the breaker is closed, and when it trips.
use lumen_sdk.Base.{
  ℕ, ◌+◌, ◌-◌, ◌^◌, ◌<◌, ◌≤◌, ◌≡◌, ◌↔◌, ◌≢◌, refl, sym, ap, ◌∙◌, subst, Bool, true, false,
  if◌then◌else◌, List, [], ◌∷◌, Option, none, some, arith, length, Option-cases, inl, inr,
  Bool-cases,
}
use lumen_sdk.Base.Int.{ℤ, pos, ltb_ℤ, ◌-ℤ◌}
use lumen_sdk.Utils.Breaker.{
  CircuitState, circuit_closed, circuit_open, circuit_half_open, CircuitBreaker,
  new_circuit_breaker, admit, admit_in, on_success, on_failure, time_since, execute, reset, Call,
  executed, was_reset, apply, run,
}

-- The breaker trips after `m` failures, and is closed just while there are fewer.
pub record IsConsistent (m : ℕ) (cb : CircuitBreaker) : Type 0 where
  pub limit : cb.max_failures ≡ pos m
  pub closed : (cb.state ≡ circuit_closed) ↔ (cb.failures < m)

on_failure-IsConsistent :
    (m now : ℕ) (cb : CircuitBreaker)
    → cb.failures < 2 ^ 63 - 1
    → IsConsistent m cb
    → IsConsistent m (on_failure now cb)
unfolding on_failure
on_failure-IsConsistent m now cb small c =
    let limit = c.limit in
    let closed = c.closed in
    record { limit = limit; closed = (λ e. ground arith, λ h. ground arith) }

some_eq : {a b : CircuitBreaker} → ◌≡◌ {A = Option CircuitBreaker} (some a) (some b) → a ≡ b
some_eq {a} {b} e = ap (λ o. or_first o) e
  where
    or_first : Option CircuitBreaker → CircuitBreaker
    or_first none = a
    or_first (some c) = c

-- What a call that is admitted starts from.
record IsAdmitted (cb admitted : CircuitBreaker) : Type 0 where
  failures : admitted.failures ≡ cb.failures
  limit : admitted.max_failures ≡ cb.max_failures
  shut : admitted.state ≢ circuit_open
  closed : (admitted.state ≡ circuit_closed) ↔ (cb.state ≡ circuit_closed)

admit_in-some :
    (now : ℕ) (cb : CircuitBreaker) (s : CircuitState) {admitted : CircuitBreaker}
    → cb.state ≡ s
    → admit_in s now cb ≡ some admitted
    → IsAdmitted cb admitted
admit_in-some now cb circuit_closed same e =
    subst (IsAdmitted cb) (some_eq e) (record {
      failures = refl;
      limit = refl;
      shut = λ h. ground arith;
      closed = (λ h. h, λ h. h);
    })
admit_in-some now cb circuit_half_open same e =
    subst (IsAdmitted cb) (some_eq e) (record {
      failures = refl;
      limit = refl;
      shut = λ h. ground arith;
      closed = (λ h. h, λ h. h);
    })
admit_in-some now cb circuit_open same e =
    elim (Bool-cases (ltb_ℤ cb.reset_time (time_since now cb.last_failure))) [
      | inl elapsed ↦ subst (IsAdmitted cb) (some_eq (rw elapsed at e)) (record {
        failures = refl;
        limit = refl;
        shut = λ h. cc;
        closed = (λ h. ground arith, λ h. ground arith);
      })
      | inr waiting ↦ absurd (none_some (rw waiting at e))
    ]
  where
    none_some : {x : CircuitBreaker} → ◌≡◌ {A = Option CircuitBreaker} none (some x) → ⊥
    none_some e = cc

on_success-IsConsistent :
    (m : ℕ) (cb : CircuitBreaker)
    → 0 < m
    → cb.max_failures ≡ pos m
    → cb.state ≢ circuit_open
    → IsConsistent m (on_success cb)
unfolding on_success
on_success-IsConsistent m cb h limit shut = record {
  limit = limit;
  closed = (λ e. h, λ k. ground (arith, shut));
}

execute-IsConsistent :
    (m now later : ℕ) (fails : Bool) (cb : CircuitBreaker)
    → 0 < m
    → cb.failures < 2 ^ 63 - 1
    → IsConsistent m cb
    → IsConsistent m (execute now later fails cb).0
unfolding execute admit
execute-IsConsistent m now later fails cb h small c =
    elim (Option-cases (admit_in cb.state now cb)) [
      | inl refused ↦ rw (refused, execute) c
      | inr (admitted, e) ↦
          rw (e, execute) (go fails admitted (admit_in-some now cb cb.state refl e))
    ]
  where
    go :
        (fails : Bool) (admitted : CircuitBreaker)
        → IsAdmitted cb admitted
        → IsConsistent m (if fails then on_failure later admitted else on_success admitted)
    go true admitted a = on_failure-IsConsistent m later admitted (rw a.failures small) (record {
      limit = a.limit ∙ c.limit;
      closed = (
        λ e. rw a.failures (c.closed.0 (a.closed.0 e)),
        λ k. a.closed.1 (c.closed.1 (rw (← a.failures) k)),
      );
    })
    go false admitted a = on_success-IsConsistent m admitted h (a.limit ∙ c.limit) a.shut

execute_small :
    (now later : ℕ) (fails : Bool) (cb : CircuitBreaker)
    → cb.failures < 2 ^ 63 - 1
    → (execute now later fails cb).0.failures ≤ cb.failures + 1
unfolding execute admit on_failure on_success
execute_small now later fails cb h = elim (Option-cases (admit_in cb.state now cb)) [
  | inl refused ↦ rw (refused, execute) (omega arith)
  | inr (admitted, e) ↦
      rw (e, execute) (go fails admitted (admit_in-some now cb cb.state refl e).failures)
]
  where
    go :
        (fails : Bool) (admitted : CircuitBreaker)
        → admitted.failures ≡ cb.failures
        → (if fails then on_failure later admitted else on_success admitted).failures
          ≤ cb.failures + 1
    go true admitted a = omega (arith, a)
    go false admitted a = omega arith

apply_small :
    (c : Call) (cb : CircuitBreaker)
    → cb.failures < 2 ^ 63 - 1
    → (apply c cb).failures ≤ cb.failures + 1
unfolding apply reset
apply_small was_reset cb h = omega arith
apply_small (executed now later fails) cb h = execute_small now later fails cb h

apply-IsConsistent :
    (m : ℕ) (c : Call) (cb : CircuitBreaker)
    → 0 < m
    → cb.failures < 2 ^ 63 - 1
    → IsConsistent m cb
    → IsConsistent m (apply c cb)
unfolding apply reset
apply-IsConsistent m (executed now later fails) cb h small c =
    execute-IsConsistent m now later fails cb h small c
apply-IsConsistent m was_reset cb h small c = record {
  limit = c.limit;
  closed = (λ e. h, λ k. refl);
}

run-IsConsistent_from :
    (m : ℕ) (calls : List Call) (cb : CircuitBreaker)
    → 0 < m
    → cb.failures + length calls ≤ 2 ^ 63 - 1
    → IsConsistent m cb
    → IsConsistent m (run calls cb)
unfolding run
run-IsConsistent_from m [] cb h small c = c
run-IsConsistent_from m (call ∷ calls) cb h small c =
    let grown = apply_small call cb (omega arith) in
    run-IsConsistent_from m calls (apply call cb) h (omega (arith, grown))
      (apply-IsConsistent m call cb h (omega arith) c)

-- In every history of at most 2 ^ 63 - 1 calls and resets of a new breaker with a positive limit, the
-- breaker is closed exactly while fewer failures than the limit are counted.
pub run-IsConsistent :
    (m : ℕ) (reset_time : ℤ) (calls : List Call)
    → 0 < m
    → length calls ≤ 2 ^ 63 - 1
    → IsConsistent m (run calls (new_circuit_breaker (pos m) reset_time))
unfolding new_circuit_breaker
run-IsConsistent m reset_time calls h small =
    run-IsConsistent_from m calls (new_circuit_breaker (pos m) reset_time) h (omega arith)
      (record { limit = refl; closed = (λ e. h, λ k. refl) })

admit_in-none :
    (s : CircuitState) (now : ℕ) (cb : CircuitBreaker)
    → admit_in s now cb ≡ none
    → (s ≡ circuit_open) × (ltb_ℤ cb.reset_time (time_since now cb.last_failure) ≡ false)
admit_in-none circuit_closed now cb e = cc
admit_in-none circuit_half_open now cb e = cc
admit_in-none circuit_open now cb e =
    elim (Bool-cases (ltb_ℤ cb.reset_time (time_since now cb.last_failure))) [
      | inl elapsed ↦ absurd (some_none (rw elapsed at e))
      | inr waiting ↦ (refl, waiting)
    ]
  where
    some_none : {x : CircuitBreaker} → ◌≡◌ {A = Option CircuitBreaker} (some x) none → ⊥
    some_none e = cc

admit_in_waiting :
    (s : CircuitState) (now : ℕ) (cb : CircuitBreaker)
    → s ≡ circuit_open
    → ltb_ℤ cb.reset_time (time_since now cb.last_failure) ≡ false
    → admit_in s now cb ≡ none
admit_in_waiting s now cb tripped waiting =
    subst (λ s. admit_in s now cb ≡ none) (sym tripped) (rw waiting refl)

-- A call is rejected, and changes nothing, exactly when the breaker is tripped and its last failure lies no
-- longer back than the reset time.
pub execute-rejects_iff :
    (now later : ℕ) (fails : Bool) (cb : CircuitBreaker) (t : ℕ)
    → cb.last_failure ≡ some t
    → (execute now later fails cb ≡ (cb, false))
      ↔ ((cb.state ≡ circuit_open) × (ltb_ℤ cb.reset_time (pos now -ℤ pos t) ≡ false))
unfolding execute admit
execute-rejects_iff now later fails cb t last = (
  λ e. elim (Option-cases (admit_in cb.state now cb)) [
    | inl refused ↦
        let (tripped, waiting) = admit_in-none cb.state now cb refused in
        (tripped, subst (λ l. ltb_ℤ cb.reset_time (time_since now l) ≡ false) last waiting)
    | inr (admitted, a) ↦ absurd (true_false (ap (λ r. r.1) (sym (rw (a, execute) at e))))
  ],
  λ (tripped, waiting).
      let waits = subst (λ l. ltb_ℤ cb.reset_time (time_since now l) ≡ false) (sym last) waiting in
      rw (admit_in_waiting cb.state now cb tripped waits, execute) refl,
)
  where
    true_false : false ≡ true → ⊥
    true_false e = cc
