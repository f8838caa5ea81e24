-- ===== src/Types/Parsers.antt =====
-- pkg/types/parsers.go: the response as the result of a task. Decoding JSON into the result's struct is the
-- argument `unmarshal` of each parser; a nil response that the code dereferences is an error of its own.
mod Tests
use lumen_sdk.Base.{
  ℕ, Bool, true, false, if◌then◌else◌, List, [], ◌∷◌, Option, none, some, Result, ok, err,
}
use lumen_sdk.Base.Text.{Text, codes, text_eq}
use lumen_sdk.Types.Proto.{Meta, InferResponse}
use lumen_sdk.Types.Assembly.{clone_string_map}
use lumen_sdk.Types.Tensor.{TensorDescriptor, TensorError}
use lumen_sdk.Types.Tensor.Payload.{validate_tensor_response, no_options}

pub record InferResponseParser : Type 0 where
  pub resp : Option InferResponse

unfoldable pub parse_infer_response : Option InferResponse → InferResponseParser
parse_infer_response resp = record { resp = resp }

pub data ParserError : Type 0 where
  nil_response nil_dereference not_json : ParserError
  unexpected_type : (result_mime : Text) → ParserError
  bad_tensor : TensorError → ParserError

abbrev pub decoded {ℓ} : {A : Type ℓ} → Option A → Result ParserError A
decoded none = err not_json
decoded (some a) = ok a

module _ {ℓ} {A : Type ℓ} (unmarshal : List ℕ → Option A) where
  -- The parsers differ in the MIME type that they ask for.
  abbrev pub as_schema : Text → Option InferResponse → Result ParserError A
  unfolding text_eq
  as_schema mime none = err nil_dereference
  as_schema mime (some resp) =
      if text_eq resp.result_mime mime
      then decoded (unmarshal resp.result)
      else err (unexpected_type resp.result_mime)

  unfoldable pub as_face_response : InferResponseParser → Result ParserError A
  unfolding text_eq
  as_face_response p = as_schema (codes "application/json;schema=face_v1") p.resp

  unfoldable pub as_embedding_response : InferResponseParser → Result ParserError A
  unfolding text_eq
  as_embedding_response p = as_schema (codes "application/json;schema=embedding_v1") p.resp

  unfoldable pub as_classification_response : InferResponseParser → Result ParserError A
  unfolding text_eq
  as_classification_response p = as_schema (codes "application/json;schema=labels_v1") p.resp

  unfoldable pub as_ocr_response : InferResponseParser → Result ParserError A
  unfolding text_eq
  as_ocr_response p = as_schema (codes "application/json;schema=ocr_v1") p.resp

  unfoldable pub as_text_generation_response : InferResponseParser → Result ParserError A
  unfolding text_eq
  as_text_generation_response p =
      as_schema (codes "application/json;schema=text_generation_v1") p.resp

pub record TensorResponse : Type 0 where
  pub descriptor : TensorDescriptor
  pub tensor_data : List ℕ
  pub result_mime : Text
  pub meta : Meta

abbrev pub tensor_of :
    InferResponse → Result TensorError (Option TensorDescriptor) → Result ParserError TensorResponse
unfolding clone_string_map
tensor_of resp (err e) = err (bad_tensor e)
tensor_of resp (ok none) = err (unexpected_type resp.result_mime)
tensor_of resp (ok (some desc)) = ok (record {
  descriptor = desc;
  tensor_data = resp.result;
  result_mime = resp.result_mime;
  meta = clone_string_map resp.meta;
})

abbrev pub tensor_in : Option InferResponse → Result ParserError TensorResponse
unfolding validate_tensor_response clone_string_map
tensor_in none = err nil_response
tensor_in (some resp) = tensor_of resp (validate_tensor_response (some resp) no_options)

unfoldable pub as_tensor_response : InferResponseParser → Result ParserError TensorResponse
unfolding validate_tensor_response clone_string_map
as_tensor_response p = tensor_in p.resp
