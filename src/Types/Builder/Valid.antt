-- ===== src/Types/Builder/Valid.antt =====
-- Which requests of the tensor builders of pkg/types/task_contract.go its ValidateTaskRequest accepts.
use lumen_sdk.Base.{ℕ, ◌%◌, ◌≡◌, refl, ◌∙◌, Bool, false, List, some, ok}
use lumen_sdk.Base.Int.{ℤ, pos}
use lumen_sdk.Base.Text.{Text, text_eq, trim_space}
use lumen_sdk.Types.Names
use lumen_sdk.Types.Proto.{InferRequest}
use lumen_sdk.Types.Tensor.{parse_tensor_descriptor}
use lumen_sdk.Types.Task.{
  validate_task_request, validate_det_tensor_task, require_meta, source_keys,
}
use lumen_sdk.Types.Builder.{Builder, with_service}
use lumen_sdk.Types.Builder.Tasks.{for_ocr_tensor}
use lumen_sdk.Types.Builder.Values.{meta_get-with_meta}
use lumen_sdk.Types.Builder.Keys.{parse-with_meta, format_int-not_blank}
use lumen_sdk.Types.Builder.Accepted.{
  IsImage, IsStep, IsAligned, det_tensor, det_accepted, typed-IsImage, parse-det_tensor,
  named_model, named_version,
}

is_det :
    (is_image : Text → Bool) (req : InferRequest)
    → req.task ≡ Names.task_ocr
    → req.payload_mime ≡ Names.default_tensor_mime
    → validate_task_request is_image (some req)
      ≡ validate_det_tensor_task req Names.preprocess_ppocr_detection false
unfolding validate_task_request
is_det is_image req h k = rw (h, k) refl

ocr-IsStep : IsStep Names.preprocess_ppocr_detection
unfolding trim_space
ocr-IsStep = (refl, refl)

ocr-IsAligned : (h w : ℕ) → h % 32 ≡ 0 → w % 32 ≡ 0 → IsAligned Names.preprocess_ppocr_detection h w
unfolding text_eq
ocr-IsAligned h w p q = rw (p, q) refl

module _ (payload : List ℕ) (d_type : Text) (h w : ℕ) (sw sh : ℤ) (b : Builder) where
  abbrev ocr_request : Builder
  ocr_request = for_ocr_tensor payload d_type (pos h) (pos w) sw sh b

  ocr_parse :
      parse_tensor_descriptor ocr_request.meta
      ≡ parse_tensor_descriptor
          (det_tensor payload d_type h w Names.preprocess_ppocr_detection b).meta
  unfolding for_ocr_tensor with_service text_eq
  ocr_parse = simp parse-with_meta

  ocr_sources : require_meta ocr_request.meta source_keys ≡ ok tt
  unfolding for_ocr_tensor with_service text_eq require_meta
  ocr_sources = simp (meta_get-with_meta, format_int-not_blank)

-- ValidateTaskRequest accepts every request that ForOCRTensor builds from `fp32` values (in any case and
-- spacing) with positive dimensions that are multiples of 32, whose payload has 12 bytes for each pixel
-- and a length that is an int64, whatever the builder held before.
pub for_ocr_tensor-accepted :
    (is_image : Text → Bool) (payload : List ℕ) (d_type : Text) (h w : ℕ) (sw sh : ℤ) (b : Builder)
    → IsImage payload d_type h w
    → h % 32 ≡ 0
    → w % 32 ≡ 0
    → validate_task_request is_image (some (for_ocr_tensor payload d_type (pos h) (pos w) sw sh b))
      ≡ ok tt
unfolding for_ocr_tensor
for_ocr_tensor-accepted is_image payload d_type h w sw sh b image p q =
    is_det is_image (for_ocr_tensor payload d_type (pos h) (pos w) sw sh b) refl refl
    ∙ det_accepted (for_ocr_tensor payload d_type (pos h) (pos w) sw sh b)
        Names.preprocess_ppocr_detection false h w (named_model b) (named_version b)
        (ocr_parse payload d_type h w sw sh b
          ∙ parse-det_tensor payload d_type h w Names.preprocess_ppocr_detection b ocr-IsStep image)
        ocr-IsStep (typed-IsImage image) (ocr-IsAligned h w p q)
        (ocr_sources payload d_type h w sw sh b) refl
