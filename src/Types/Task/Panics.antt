-- ===== src/Types/Task/Panics.antt =====
-- Requests for a tensor that ValidateTaskRequest does not survive.
use lumen_sdk.Base.{◌≡◌, ◌⊎◌, inl, inr, refl, ◌∙◌, Bool, true, false, List, none, some, ok, err}
use lumen_sdk.Base.Text.{Text, codes, text_eq, trim_space, equal_fold, is_empty}
use lumen_sdk.Types.Names
use lumen_sdk.Types.Proto.{InferRequest}
use lumen_sdk.Types.Tensor.{parse_tensor_descriptor}
use lumen_sdk.Types.Tensor.Payload.{validate_tensor_fast_path}
use lumen_sdk.Types.Task.{
  nil_pointer_panic, validate_task_request, validate_for_task, validate_det_tensor_task,
  validate_image_tensor_task,
}

-- The request asks for a tensor by its MIME type alone: the metadata does not say that the input is a
-- tensor.
pub record IsUndeclared (req : InferRequest) : Type 0 where
  pub tensor_mime : trim_space req.payload_mime ≡ Names.default_tensor_mime
  pub undeclared : parse_tensor_descriptor req.meta ≡ ok none

det-panics :
    (req : InferRequest) (id : Text) (letterbox : Bool)
    → parse_tensor_descriptor req.meta ≡ ok none
    → validate_det_tensor_task req id letterbox ≡ err nil_pointer_panic
unfolding validate_det_tensor_task validate_tensor_fast_path
det-panics req id letterbox h = rw h refl

image-panics :
    (req : InferRequest) (ids : List Text) (batch : Bool)
    → parse_tensor_descriptor req.meta ≡ ok none
    → validate_image_tensor_task req ids batch ≡ err nil_pointer_panic
unfolding validate_image_tensor_task validate_tensor_fast_path
image-panics req ids batch h = rw h refl

mime_set : is_empty Names.default_tensor_mime ≡ false
mime_set = refl

mime_current : equal_fold Names.default_tensor_mime Names.deprecated_tensor_json_mime ≡ false
unfolding equal_fold
mime_current = refl

mime_no_json : text_eq Names.default_tensor_mime (codes "application/json") ≡ false
unfolding text_eq
mime_no_json = refl

mime_tensor : equal_fold Names.default_tensor_mime Names.default_tensor_mime ≡ true
unfolding equal_fold
mime_tensor = refl

-- What is left of ValidateTaskRequest for a request with the MIME type of a tensor.
validate_task_request-tensor :
    (is_image : Text → Bool) (req : InferRequest)
    → is_empty (trim_space req.task) ≡ false
    → trim_space req.payload_mime ≡ Names.default_tensor_mime
    → validate_task_request is_image (some req)
      ≡ validate_for_task is_image req Names.default_tensor_mime true
unfolding validate_task_request
validate_task_request-tensor is_image req named mime =
    rw (named, mime, mime_set, mime_current, mime_no_json, mime_tensor) refl

task_set :
    (is_empty (trim_space Names.task_ocr) ≡ false)
    × (is_empty (trim_space Names.task_face_recognition) ≡ false)
unfolding trim_space
task_set = (refl, refl)

for_ocr :
    (is_image : Text → Bool) (req : InferRequest)
    → req.task ≡ Names.task_ocr
    → validate_for_task is_image req Names.default_tensor_mime true
      ≡ validate_det_tensor_task req Names.preprocess_ppocr_detection false
unfolding validate_for_task text_eq
for_ocr is_image req e = rw e refl

for_face :
    (is_image : Text → Bool) (req : InferRequest)
    → req.task ≡ Names.task_face_recognition
    → validate_for_task is_image req Names.default_tensor_mime true
      ≡ validate_det_tensor_task req Names.preprocess_insight_face_det true
unfolding validate_for_task text_eq
for_face is_image req e = rw e refl

-- ValidateTaskRequest panics on every OCR and face recognition request whose MIME type is that of a tensor
-- and whose metadata does not declare a tensor.
pub validate_task_request-panics :
    (is_image : Text → Bool) (req : InferRequest)
    → (req.task ≡ Names.task_ocr) ⊎ (req.task ≡ Names.task_face_recognition)
    → IsUndeclared req
    → validate_task_request is_image (some req) ≡ err nil_pointer_panic
validate_task_request-panics is_image req (inl e) u =
    validate_task_request-tensor is_image req (rw e task_set.0) u.tensor_mime
    ∙ for_ocr is_image req e
    ∙ det-panics req Names.preprocess_ppocr_detection false u.undeclared
validate_task_request-panics is_image req (inr e) u =
    validate_task_request-tensor is_image req (rw e task_set.1) u.tensor_mime
    ∙ for_face is_image req e
    ∙ det-panics req Names.preprocess_insight_face_det true u.undeclared
