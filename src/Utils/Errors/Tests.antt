-- ===== src/Utils/Errors/Tests.antt =====
-- Errors and their texts.
use lumen_sdk.Base.{◌≡◌, refl, Bool, true, [], ◌∷◌, none, some}
use lumen_sdk.Base.Text.{codes}
use lumen_sdk.Utils.Errors.{
  GoError, other, wrap, error_text, has_error_code, err_code_timeout, new_error_aggregator,
  add_error, aggregate_text, to_error, unavailable_error, ErrorAggregator,
}

abbrev refused : GoError Bool
refused = wrap (some (other (codes "eof"))) err_code_timeout (codes "late") (none ∷ some true ∷ [])

refused_text : error_text refused ≡ codes "[TIMEOUT] late: eof"
unfolding error_text wrap
refused_text = refl

refused_code : has_error_code refused err_code_timeout ≡ true
unfolding has_error_code wrap
refused_code = refl

abbrev both : ErrorAggregator Bool
both =
    add_error (some refused)
      (add_error none (add_error (some (unavailable_error (codes "x") [])) new_error_aggregator))

both_text :
    aggregate_text both ≡ codes "multiple errors occurred: [UNAVAILABLE] x; [TIMEOUT] late: eof"
unfolding aggregate_text add_error new_error_aggregator wrap unavailable_error
both_text = refl

no_error : to_error (add_error {D = Bool} none new_error_aggregator) ≡ none
unfolding to_error add_error new_error_aggregator
no_error = refl
