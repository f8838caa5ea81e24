-- ===== src/Utils/Retry/Laws.antt =====
-- Which errors pkg/utils/retry.go takes for transient.
use lumen_sdk.Base.{
  ◌≡◌, ◌⊎◌, ◌↔◌, inl, inr, refl, Bool, true, false, List, [], ◌∷◌, Option, none, some, arith,
  if◌then◌else◌, Bool-cases,
}
use lumen_sdk.Base.Text.{Text, text_eq, text_eq_iff}
use lumen_sdk.Utils.Errors.{
  GoError, wrap, err_code_timeout, err_code_unavailable, err_code_connection_failed,
  err_code_service_unavailable, err_code_internal, err_code_invalid, err_code_unauthorized,
  err_code_forbidden,
}
use lumen_sdk.Utils.Retry.{is_network_error, is_retryable_code, is_retryable, is_one_of}

-- The four codes of errors that may pass.
abbrev pub IsTransient : Text → Type 0
IsTransient code =
    (code ≡ err_code_timeout)
    ⊎ ((code ≡ err_code_unavailable)
        ⊎ ((code ≡ err_code_connection_failed) ⊎ (code ≡ err_code_service_unavailable)))

abbrev four_codes : List Text
four_codes =
    err_code_timeout ∷ err_code_unavailable ∷ err_code_connection_failed
    ∷ err_code_service_unavailable ∷ []

abbrev transient_codes : List Text
transient_codes = err_code_timeout ∷ err_code_unavailable ∷ err_code_connection_failed ∷ []

abbrev refusals : List Text
refusals = err_code_internal ∷ err_code_invalid ∷ err_code_unauthorized ∷ err_code_forbidden ∷ []

abbrev Any : (Text → Type 0) → List Text → Type 0
Any P [] = ⊥
Any P (c ∷ cs) = P c ⊎ Any P cs

is_one_of_iff : (cs : List Text) (code : Text) → (is_one_of cs code ≡ true) ↔ Any (λ c. code ≡ c) cs
is_one_of_iff [] code = (λ e. cc, λ e. absurd e)
is_one_of_iff (c ∷ cs) code = ground (arith, text_eq_iff code c, is_one_of_iff cs code)

-- The transient codes are those for which the switch answers true.
is_retryable_code_iff : (code : Text) → (is_retryable_code code ≡ true) ↔ IsTransient code
unfolding is_retryable_code is_network_error text_eq
is_retryable_code_iff code = (to, from)
  where
    of_three : Any (λ c. code ≡ c) transient_codes → IsTransient code
    of_three (inl e) = inl e
    of_three (inr (inl e)) = inr (inl e)
    of_three (inr (inr (inl e))) = inr (inr (inl e))
    of_three (inr (inr (inr x))) = elim x [ ]

    of_four : Any (λ c. code ≡ c) four_codes → IsTransient code
    of_four (inl e) = inl e
    of_four (inr (inl e)) = inr (inl e)
    of_four (inr (inr (inl e))) = inr (inr (inl e))
    of_four (inr (inr (inr (inl e)))) = inr (inr (inr e))
    of_four (inr (inr (inr (inr x)))) = elim x [ ]

    to : is_retryable_code code ≡ true → IsTransient code
    to = elim (Bool-cases (is_one_of transient_codes code)) [
      | inl three ↦ λ e. of_three ((is_one_of_iff transient_codes code).0 three)
      | inr rest ↦ rw rest (λ e. of_four (
          (is_one_of_iff four_codes code).0
            (no_refusal (is_one_of refusals code) (is_one_of four_codes code) e)))
    ]
      where
        no_refusal : (a b : Bool) → (if a then false else b) ≡ true → b ≡ true
        no_refusal a b e = ground (arith, e)

    from : IsTransient code → is_retryable_code code ≡ true
    from (inl e) = rw e refl
    from (inr (inl e)) = rw e refl
    from (inr (inr (inl e))) = rw e refl
    from (inr (inr (inr e))) = rw e refl

-- An error that is wrapped as one of the SDK is retried exactly if the new code is one of the four
-- transient ones, whatever error is wrapped: a mark of NewRetryableError on it is not read any more.
pub is_retryable-wrap_iff :
    {D : Type 0} (err : Option (GoError D)) (code message : Text) (details : List (Option D))
    → (is_retryable (some (wrap err code message details)) ≡ true) ↔ IsTransient code
unfolding is_retryable wrap
is_retryable-wrap_iff none code message details = is_retryable_code_iff code
is_retryable-wrap_iff (some err) code message details = is_retryable_code_iff code
