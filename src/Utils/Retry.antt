-- ===== src/Utils/Retry.antt =====
-- pkg/utils/retry.go: which errors are retried, and what Retry returns. The loop of attempts is the retry
-- library's: the outcomes of the calls that it has made, and its own result, are arguments.
pub mod Laws
mod Tests
use lumen_sdk.Base.{Bool, true, false, ◌||◌, if◌then◌else◌, List, [], ◌∷◌, Option, none, some}
use lumen_sdk.Base.Text.{Text, codes, text_eq, contains_text, to_lower}
use lumen_sdk.Utils.Errors.{
  GoError, lumen_error, wrapped, retryable_error, other, error_text, err_code_timeout,
  err_code_unavailable, err_code_connection_failed, err_code_internal, err_code_invalid,
  err_code_unauthorized, err_code_forbidden, err_code_service_unavailable,
}

abbrev pub is_one_of : List Text → Text → Bool
is_one_of [] code = false
is_one_of (c ∷ cs) code = text_eq code c || is_one_of cs code

unfoldable pub is_network_error : Text → Bool
unfolding text_eq
is_network_error code =
    is_one_of
      (err_code_timeout ∷ err_code_unavailable ∷ err_code_connection_failed
        ∷ err_code_service_unavailable ∷ [])
      code

abbrev pub network_keywords : List Text
network_keywords =
    codes "timeout"
    ∷ codes "connection refused"
    ∷ codes "network unreachable"
    ∷ codes "connection reset"
    ∷ codes "connection timed out"
    ∷ codes "dns"
    ∷ []

unfoldable pub has_keyword : List Text → Text → Bool
unfolding contains_text
has_keyword [] text = false
has_keyword (k ∷ ks) text = contains_text text k || has_keyword ks text

unfoldable pub is_network_error_string : Text → Bool
unfolding has_keyword to_lower
is_network_error_string text = has_keyword network_keywords (to_lower text)

-- The switch on the code of an error of the SDK.
unfoldable pub is_retryable_code : Text → Bool
unfolding is_network_error text_eq
is_retryable_code code =
    if is_one_of (err_code_timeout ∷ err_code_unavailable ∷ err_code_connection_failed ∷ []) code
    then true
    else if is_one_of
        (err_code_internal ∷ err_code_invalid ∷ err_code_unauthorized ∷ err_code_forbidden ∷ [])
        code
    then false
    else is_network_error code

module _ {D : Type 0} where
  unfoldable pub new_retryable_error : Option (GoError D) → Bool → Option (GoError D)
  new_retryable_error none should_retry = none
  new_retryable_error (some err) should_retry = some (retryable_error err should_retry)

  unfoldable pub is_retryable : Option (GoError D) → Bool
  unfolding is_retryable_code is_network_error_string error_text
  is_retryable none = false
  is_retryable (some (retryable_error err should_retry)) = should_retry
  is_retryable (some (lumen_error code message details)) = is_retryable_code code
  is_retryable (some (wrapped code message details cause)) = is_retryable_code code
  is_retryable (some (other text)) = is_network_error_string text

  -- `lastErr` after the calls: the last error of one.
  abbrev pub last_error : List (Option (GoError D)) → Option (GoError D) → Option (GoError D)
  last_error [] last = last
  last_error (none ∷ outcomes) last = last_error outcomes last
  last_error (some err ∷ outcomes) last = last_error outcomes (some err)

  abbrev pub or_error : Option (GoError D) → GoError D → GoError D
  or_error none err = err
  or_error (some last) err = last

  -- What Retry returns with retrying enabled.
  unfoldable pub retry_result : List (Option (GoError D)) → Option (GoError D) → Option (GoError D)
  retry_result outcomes none = none
  retry_result outcomes (some err) = some (or_error (last_error outcomes none) err)
