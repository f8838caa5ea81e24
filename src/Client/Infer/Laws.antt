-- ===== src/Client/Infer/Laws.antt =====
-- How the calls of Infer are counted.
use lumen_sdk.Base.{
  ℕ, ◌+◌, ◌^◌, ◌<◌, ◌≡◌, refl, Bool, true, false, not, List, [], ◌∷◌, Option, none, some, Result,
  ok, err, arith, subst, length,
}
use lumen_sdk.Types.Proto.{InferRequest}
use lumen_sdk.Types.Task.{TaskError, validate_task_request}
use lumen_sdk.Client.Chunker.{chunk_payload}
use lumen_sdk.Client.Infer.{
  Counters, Counting, Surroundings, infer, add_total, after_chunks, after_check, resolve_service,
}
use lumen_sdk.Client.Infer.Counted.{is_ok, number, Counted, after_chunks-Counted}

-- A call and what surrounds it.
abbrev pub Call : Type 0
Call = Surroundings × Option InferRequest

-- The counters after the calls, each of which has ended before the next begins.
unfoldable pub after_calls : List Call → Counters → Counters
unfolding infer
after_calls [] c = c
after_calls ((w, req) ∷ calls) c = after_calls calls (infer w req c).1

abbrev pub new_counters : Counters
new_counters = record { total_reqs = 0; success_reqs = 0; failed_reqs = 0; total_latency_ns = 0 }

-- ValidateTaskRequest accepts the request of the call.
abbrev pub is_valid : Call → Bool
is_valid (w, none) = false
is_valid (w, some req) = is_ok (validate_task_request w.is_image (some req))

-- The call returns a response.
abbrev pub succeeds : Call → Bool
unfolding infer
succeeds (w, req) = is_ok (infer w req new_counters).0

abbrev pub count : (Call → Bool) → List Call → ℕ
count test [] = 0
count test (call ∷ calls) = number (test call) + count test calls

-- The counters agree with each other, and with what has been counted.
pub record Counts (valid successful : ℕ) (c : Counters) : Type 0 where
  pub total : c.total_reqs ≡ valid
  pub success : c.success_reqs ≡ successful
  pub sum : c.success_reqs + c.failed_reqs ≡ c.total_reqs

number-not : (b : Bool) → number b + number (not b) ≡ 1
number-not true = refl
number-not false = refl

after_check-Counts :
    (checked : Result TaskError (Unit {0})) (w : Surroundings) (req : InferRequest) (v s : ℕ)
    (c : Counters)
    → v + 1 < 2 ^ 64
    → Counts v s c
    → Counts
        (number (is_ok checked) + v)
        (number (is_ok (after_check checked w req new_counters).0) + s)
        (after_check checked w req c).1
unfolding after_check
after_check-Counts (err e) w req v s c h k =
    let total = k.total in
    let success = k.success in record { total = omega arith; success = omega arith; sum = k.sum }
after_check-Counts (ok done) w req v s c h k =
    let total = k.total in
    let success = k.success in
    let sum = k.sum in
    let same = part.same (add_total c) (add_total new_counters) in
    let one = number-not (is_ok (run (add_total c)).0) in
    let counted_total = part.total (add_total c) in
    let counted_success = part.success (add_total c) (omega arith) in
    let counted_failed = part.failed (add_total c) (omega arith) in
    subst (λ r. Counts (1 + v) (number (is_ok r) + s) (run (add_total c)).1) same
      (record { total = omega arith; success = omega arith; sum = omega arith })
  where
    resolved : InferRequest
    resolved = resolve_service w.registry req

    run : Counting
    run = after_chunks (chunk_payload resolved.payload w.chunk) w resolved

    part : Counted run
    part = after_chunks-Counted (chunk_payload resolved.payload w.chunk) w resolved

infer-Counts :
    (w : Surroundings) (req : Option InferRequest) (v s : ℕ) (c : Counters)
    → v + 1 < 2 ^ 64
    → Counts v s c
    → Counts (number (is_valid (w, req)) + v) (number (succeeds (w, req)) + s) (infer w req c).1
unfolding infer
infer-Counts w none v s c h k =
    let total = k.total in
    let success = k.success in record { total = omega arith; success = omega arith; sum = k.sum }
infer-Counts w (some req) v s c h k =
    after_check-Counts (validate_task_request w.is_image (some req)) w req v s c h k

number-bound : (b : Bool) → number b < 2
number-bound true = omega arith
number-bound false = omega arith

after_calls-Counts :
    (calls : List Call) (v s : ℕ) (c : Counters)
    → v + length calls < 2 ^ 64
    → Counts v s c
    → Counts (count is_valid calls + v) (count succeeds calls + s) (after_calls calls c)
unfolding after_calls
after_calls-Counts [] v s c h k =
    let total = k.total in
    let success = k.success in record { total = omega arith; success = omega arith; sum = k.sum }
after_calls-Counts ((w, req) ∷ calls) v s c h k =
    let low = number-bound (is_valid (w, req)) in
    let later =
      after_calls-Counts calls (number (is_valid (w, req)) + v) (number (succeeds (w, req)) + s)
        (infer w req c).1 (omega arith) (infer-Counts w req v s c (omega arith) k) in
    let total = later.total in
    let success = later.success in
    record { total = omega arith; success = omega arith; sum = later.sum }

-- After fewer than 2 ^ 64 calls of Infer on a new client, one after the other, the client has counted as
-- requests the calls whose request ValidateTaskRequest accepts, as successes the calls that return a
-- response, and as failures the rest of the requests, whatever the server answers.
pub infer-counts :
    (calls : List Call)
    → length calls < 2 ^ 64
    → ((after_calls calls new_counters).total_reqs ≡ count is_valid calls)
      × ((after_calls calls new_counters).success_reqs ≡ count succeeds calls)
      × ((after_calls calls new_counters).success_reqs
            + (after_calls calls new_counters).failed_reqs
          ≡ count is_valid calls)
infer-counts calls h =
    let k =
      after_calls-Counts calls 0 0 new_counters (omega arith)
        (record { total = refl; success = refl; sum = refl }) in
    let total = k.total in
    let success = k.success in let sum = k.sum in (omega arith, omega arith, omega arith)
