-- ===== src/Types/Parsers/Tests.antt =====
-- Responses that are parsed and responses that are refused.
use lumen_sdk.Base.{ℕ, ◌≡◌, refl, true, List, [], ◌∷◌, Option, none, some, ok, err, length}
use lumen_sdk.Base.Text.{codes}
use lumen_sdk.Types.Proto.{InferResponse}
use lumen_sdk.Types.Parsers.{
  parse_infer_response, as_face_response, as_ocr_response, as_tensor_response, unexpected_type,
  nil_dereference, nil_response,
}

abbrev response : InferResponse
response = record {
  correlation_id = [];
  is_final = true;
  result = 1 ∷ 2 ∷ [];
  meta = none;
  error = none;
  seq = 0;
  total = 1;
  offset = 0;
  result_mime = codes "application/json;schema=ocr_v1";
  result_schema = [];
}

-- A decoder for the tests.
abbrev size : List ℕ → Option ℕ
size bytes = some (length bytes)

ocr_is_read :
    (as_ocr_response size (parse_infer_response (some response)) ≡ ok 2)
    × (as_face_response size (parse_infer_response (some response))
        ≡ err (unexpected_type response.result_mime))
    × (as_face_response size (parse_infer_response none) ≡ err nil_dereference)
unfolding as_ocr_response as_face_response parse_infer_response
ocr_is_read = (refl, refl, refl)

raw_is_refused :
    (as_tensor_response (parse_infer_response (some response))
      ≡ err (unexpected_type response.result_mime))
    × (as_tensor_response (parse_infer_response none) ≡ err nil_response)
unfolding as_tensor_response parse_infer_response
raw_is_refused = (refl, refl)
