-- ===== src/Utils/Retry/Tests.antt =====
-- Errors that are retried and errors that are not.
use lumen_sdk.Base.{◌≡◌, ◌↔◌, refl, Bool, true, false, [], ◌∷◌, some}
use lumen_sdk.Base.Text.{codes}
use lumen_sdk.Utils.Errors.{GoError, other, wrap, retryable_error, err_code_internal}
use lumen_sdk.Utils.Retry.{is_retryable, retry_result}
use lumen_sdk.Utils.Retry.Laws.{IsTransient, is_retryable-wrap_iff}

abbrev marked : GoError Bool
marked = retryable_error (other (codes "x")) true

texts :
    (is_retryable {D = Bool} (some (other (codes "dial: Connection Refused"))) ≡ true)
    × (is_retryable {D = Bool} (some (other (codes "bad input"))) ≡ false)
    × (is_retryable (some marked) ≡ true)
unfolding is_retryable
texts = (refl, refl, refl)

last_wins :
    retry_result {D = Bool} (some marked ∷ some (other (codes "b")) ∷ []) (some (other (codes "c")))
    ≡ some (other (codes "b"))
unfolding retry_result
last_wins = refl

marked_is_wrapped :
    (is_retryable (some (wrap (some marked) err_code_internal (codes "m") [])) ≡ true)
    ↔ IsTransient err_code_internal
marked_is_wrapped = is_retryable-wrap_iff (some marked) err_code_internal (codes "m") []
