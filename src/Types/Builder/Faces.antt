-- ===== src/Types/Builder/Faces.antt =====
-- The requests of ForFaceRecognitionTensor of pkg/types/task_contract.go, under its ValidateTaskRequest.
use lumen_sdk.Base.{ℕ, ◌≡◌, refl, ◌∙◌, Bool, true, false, List, some, ok}
use lumen_sdk.Base.Int.{ℤ, pos}
use lumen_sdk.Base.Text.{Text, text_eq, is_empty, trim_space}
use lumen_sdk.Types.Floats.{Floats}
use lumen_sdk.Types.Names
use lumen_sdk.Types.Proto.{InferRequest}
use lumen_sdk.Types.Tensor.{parse_tensor_descriptor}
use lumen_sdk.Types.Task.{
  validate_task_request, validate_det_tensor_task, require_meta, source_keys, letterbox_keys,
}
use lumen_sdk.Types.Builder.{Builder, with_service}
use lumen_sdk.Types.Builder.Tasks.{for_face_recognition_tensor}
use lumen_sdk.Types.Builder.Values.{meta_get-with_meta}
use lumen_sdk.Types.Builder.Keys.{parse-with_meta, format_int-not_blank}
use lumen_sdk.Types.Builder.Accepted.{
  IsImage, IsStep, IsAligned, det_tensor, det_accepted, typed-IsImage, parse-det_tensor,
  named_model, named_version,
}

is_face :
    (is_image : Text → Bool) (req : InferRequest)
    → req.task ≡ Names.task_face_recognition
    → req.payload_mime ≡ Names.default_tensor_mime
    → validate_task_request is_image (some req)
      ≡ validate_det_tensor_task req Names.preprocess_insight_face_det true
unfolding validate_task_request
is_face is_image req h k = rw (h, k) refl

face-IsStep : IsStep Names.preprocess_insight_face_det
unfolding trim_space
face-IsStep = (refl, refl)

face-IsAligned : (h w : ℕ) → IsAligned Names.preprocess_insight_face_det h w
unfolding text_eq
face-IsAligned h w = refl

module _ (floats : Floats)
    (printed : (x : floats.Float) → is_empty (trim_space (floats.shortest x)) ≡ false)
    (payload : List ℕ) (d_type : Text) (h w : ℕ) (sw sh : ℤ) (scale pad_x pad_y : floats.Float)
    (b : Builder) where
  abbrev face_request : Builder
  face_request =
      for_face_recognition_tensor floats payload d_type (pos h) (pos w) sw sh scale pad_x pad_y b

  face_parse :
      parse_tensor_descriptor face_request.meta
      ≡ parse_tensor_descriptor
          (det_tensor payload d_type h w Names.preprocess_insight_face_det b).meta
  unfolding for_face_recognition_tensor with_service text_eq
  face_parse = simp parse-with_meta

  face_sources : require_meta face_request.meta source_keys ≡ ok tt
  unfolding for_face_recognition_tensor with_service text_eq require_meta
  face_sources = simp (meta_get-with_meta, format_int-not_blank)

  face_letterbox : require_meta face_request.meta letterbox_keys ≡ ok tt
  unfolding for_face_recognition_tensor with_service text_eq require_meta
  face_letterbox = simp (meta_get-with_meta, printed)

  -- ValidateTaskRequest accepts every request that ForFaceRecognitionTensor builds from `fp32` values
  -- with positive dimensions, whose payload has 12 bytes for each pixel and a length that is an int64,
  -- whatever the builder held before, if a printed float is not blank.
  pub for_face_recognition_tensor-accepted :
      (is_image : Text → Bool)
      → IsImage payload d_type h w
      → validate_task_request is_image (some face_request) ≡ ok tt
  unfolding for_face_recognition_tensor
  for_face_recognition_tensor-accepted is_image image =
      is_face is_image face_request refl refl
      ∙ det_accepted face_request Names.preprocess_insight_face_det true h w (named_model b)
          (named_version b)
          (face_parse
            ∙ parse-det_tensor payload d_type h w Names.preprocess_insight_face_det b face-IsStep
                image)
          face-IsStep (typed-IsImage image) (face-IsAligned h w) face_sources face_letterbox
