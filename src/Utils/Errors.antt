-- ===== src/Utils/Errors.antt =====
-- pkg/utils/errors.go: the errors of the SDK, and the aggregator of several. A detail of any type is of the type
-- `D`; the nil error is `none`. Recover and SafeExecute, which catch panics, are left out.
mod Tests
use lumen_sdk.Base.{
  ℕ, Bool, true, false, not, if◌then◌else◌, List, [], ◌∷◌, ◌++◌, map, Option, none, some, ltb,
  length,
}
use lumen_sdk.Base.Text.{Text, codes, text_eq, join_with}

-- An ErrorCode is a string.
abbrev pub err_code_internal : Text
err_code_internal = codes "INTERNAL"

abbrev pub err_code_invalid : Text
err_code_invalid = codes "INVALID"

abbrev pub err_code_timeout : Text
err_code_timeout = codes "TIMEOUT"

abbrev pub err_code_unavailable : Text
err_code_unavailable = codes "UNAVAILABLE"

abbrev pub err_code_not_found : Text
err_code_not_found = codes "NOT_FOUND"

abbrev pub err_code_unauthorized : Text
err_code_unauthorized = codes "UNAUTHORIZED"

abbrev pub err_code_forbidden : Text
err_code_forbidden = codes "FORBIDDEN"

abbrev pub err_code_node_not_found : Text
err_code_node_not_found = codes "NODE_NOT_FOUND"

abbrev pub err_code_service_unavailable : Text
err_code_service_unavailable = codes "SERVICE_UNAVAILABLE"

abbrev pub err_code_task_unsupported : Text
err_code_task_unsupported = codes "TASK_UNSUPPORTED"

abbrev pub err_codec_mismatch : Text
err_codec_mismatch = codes "CODEC_MISMATCH"

abbrev pub err_code_discovery_failed : Text
err_code_discovery_failed = codes "DISCOVERY_FAILED"

abbrev pub err_code_connection_failed : Text
err_code_connection_failed = codes "CONNECTION_FAILED"

abbrev pub err_code_request_failed : Text
err_code_request_failed = codes "REQUEST_FAILED"

abbrev pub err_code_response_failed : Text
err_code_response_failed = codes "RESPONSE_FAILED"

-- An error: one of the SDK, without a cause or with one, one that retry.go has marked, or one of another
-- package with its text.
pub data GoError (D : Type 0) : Type 0 where
  lumen_error : (code message : Text) → Option D → GoError D
  wrapped : (code message : Text) → Option D → (cause : GoError D) → GoError D
  retryable_error : GoError D → (should_retry : Bool) → GoError D
  other : Text → GoError D

abbrev with_code : Text → Text → Text
with_code code message = codes "[" ++ (code ++ (codes "] " ++ message))

abbrev pub code_is : Text → Option Text → Bool
code_is code none = false
code_is code (some c) = text_eq c code

module _ {D : Type 0} where
  -- `err.Error()`
  unfoldable pub error_text : GoError D → Text
  error_text (lumen_error code message details) = with_code code message
  error_text (wrapped code message details cause) =
      with_code code message ++ (codes ": " ++ error_text cause)
  error_text (retryable_error err should_retry) = error_text err
  error_text (other text) = text

  -- The first of the variadic details; each may be nil.
  abbrev pub first_detail : List (Option D) → Option D
  first_detail [] = none
  first_detail (d ∷ ds) = d

  unfoldable pub new_lumen_error : (code message : Text) → List (Option D) → GoError D
  new_lumen_error code message details = lumen_error code message (first_detail details)

  unfoldable pub get_first : List (Option D) → Option D
  get_first [] = none
  get_first (none ∷ ds) = get_first ds
  get_first (some d ∷ ds) = some d

  unfoldable pub wrap : Option (GoError D) → (code message : Text) → List (Option D) → GoError D
  unfolding get_first
  wrap none code message details = lumen_error code message (get_first details)
  wrap (some err) code message details = wrapped code message (get_first details) err

  -- The code of the error, if it is one of the SDK itself: no wrapper of it is looked through.
  unfoldable pub get_lumen_error : GoError D → Option Text
  get_lumen_error (lumen_error code message details) = some code
  get_lumen_error (wrapped code message details cause) = some code
  get_lumen_error (retryable_error err should_retry) = none
  get_lumen_error (other text) = none

  unfoldable pub is_lumen_error : GoError D → Bool
  is_lumen_error (lumen_error code message details) = true
  is_lumen_error (wrapped code message details cause) = true
  is_lumen_error (retryable_error err should_retry) = false
  is_lumen_error (other text) = false

  unfoldable pub has_error_code : GoError D → Text → Bool
  unfolding get_lumen_error text_eq
  has_error_code err code = code_is code (get_lumen_error err)

  unfoldable pub internal_error : Text → List (Option D) → GoError D
  unfolding new_lumen_error
  internal_error message details = new_lumen_error err_code_internal message details

  unfoldable pub invalid_error : Text → List (Option D) → GoError D
  unfolding new_lumen_error
  invalid_error message details = new_lumen_error err_code_invalid message details

  unfoldable pub timeout_error : Text → List (Option D) → GoError D
  unfolding new_lumen_error
  timeout_error message details = new_lumen_error err_code_timeout message details

  unfoldable pub unavailable_error : Text → List (Option D) → GoError D
  unfolding new_lumen_error
  unavailable_error message details = new_lumen_error err_code_unavailable message details

  unfoldable pub not_found_error : Text → List (Option D) → GoError D
  unfolding new_lumen_error
  not_found_error message details = new_lumen_error err_code_not_found message details

  unfoldable pub unauthorized_error : Text → List (Option D) → GoError D
  unfolding new_lumen_error
  unauthorized_error message details = new_lumen_error err_code_unauthorized message details

  unfoldable pub forbidden_error : Text → List (Option D) → GoError D
  unfolding new_lumen_error
  forbidden_error message details = new_lumen_error err_code_forbidden message details

  unfoldable pub node_not_found_error : Text → List (Option D) → GoError D
  unfolding new_lumen_error
  node_not_found_error node_id details =
      new_lumen_error err_code_node_not_found (codes "node not found: " ++ node_id) details

  unfoldable pub service_unavailable_error : Text → List (Option D) → GoError D
  unfolding new_lumen_error
  service_unavailable_error service details =
      new_lumen_error err_code_service_unavailable (codes "service unavailable: " ++ service)
        details

  unfoldable pub task_unsupported_error : Text → List (Option D) → GoError D
  unfolding new_lumen_error
  task_unsupported_error task details =
      new_lumen_error err_code_task_unsupported (codes "task not supported: " ++ task) details

  unfoldable pub discovery_failed_error : Text → List (Option D) → GoError D
  unfolding new_lumen_error
  discovery_failed_error message details =
      new_lumen_error err_code_discovery_failed (codes "discovery failed: " ++ message) details

  unfoldable pub connection_failed_error : Text → List (Option D) → GoError D
  unfolding new_lumen_error
  connection_failed_error target details =
      new_lumen_error err_code_connection_failed (codes "connection failed: " ++ target) details

  unfoldable pub request_failed_error : Text → List (Option D) → GoError D
  unfolding new_lumen_error
  request_failed_error message details =
      new_lumen_error err_code_request_failed (codes "request failed: " ++ message) details

  unfoldable pub response_failed_error : Text → List (Option D) → GoError D
  unfolding new_lumen_error
  response_failed_error message details =
      new_lumen_error err_code_response_failed (codes "response failed: " ++ message) details

  unfoldable pub codec_mismatch_error : (expected actual : Text) → List (Option D) → GoError D
  unfolding new_lumen_error
  codec_mismatch_error expected actual details =
      new_lumen_error err_codec_mismatch
        (codes "codec mismatch: expected=" ++ (expected ++ (codes ", actual=" ++ actual))) details

pub record ErrorAggregator (D : Type 0) : Type 0 where
  pub errors : List (GoError D)

module _ {D : Type 0} where
  unfoldable pub new_error_aggregator : ErrorAggregator D
  new_error_aggregator = record { errors = [] }

  unfoldable pub add_error : Option (GoError D) → ErrorAggregator D → ErrorAggregator D
  add_error none ea = ea
  add_error (some err) ea = record { errors = ea.errors ++ err ∷ [] }

  unfoldable pub has_errors : ErrorAggregator D → Bool
  has_errors ea = ltb 0 (length ea.errors)

  unfoldable pub get_errors : ErrorAggregator D → List (GoError D)
  get_errors ea = ea.errors

  abbrev pub texts_joined : List (GoError D) → Text
  unfolding error_text join_with
  texts_joined [] = codes ""
  texts_joined (err ∷ []) = error_text err
  texts_joined (err ∷ next ∷ errs) =
      codes "multiple errors occurred: "
      ++ join_with (codes "; ") (map error_text (err ∷ next ∷ errs))

  unfoldable pub aggregate_text : ErrorAggregator D → Text
  unfolding error_text join_with
  aggregate_text ea = texts_joined ea.errors

  unfoldable pub to_error : ErrorAggregator D → Option (ErrorAggregator D)
  unfolding has_errors
  to_error ea = if has_errors ea then some ea else none

  unfoldable pub reset_errors : ErrorAggregator D → ErrorAggregator D
  reset_errors ea = record { errors = [] }
