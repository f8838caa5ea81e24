-- ===== src/Types/Task/Tests.antt =====
-- Requests that ValidateTaskRequest accepts and rejects, and the theorems at them.
use lumen_sdk.Base.{
  ◌≡◌, ◌≤◌, ◌↔◌, refl, inl, Bool, true, false, [], ◌∷◌, none, some, ok, err, All, replicate,
}
use lumen_sdk.Base.Int.{pos}
use lumen_sdk.Base.Text.{Text, codes, trim_space}
use lumen_sdk.Types.Proto.{InferRequest}
use lumen_sdk.Types.Tensor.{
  TensorDescriptor, tensor_element_count, max_int64, parse_tensor_descriptor,
}
use lumen_sdk.Types.Tensor.Payload.{validate_tensor_payload, input_options}
use lumen_sdk.Types.Tensor.Sound.{
  IsPayload, IsPositive, volume, tensor_element_count_iff, validate_tensor_payload_sound,
}
use lumen_sdk.Types.Task.{
  validate_task_request, validate_det_tensor_task, nil_pointer_panic, wants_text_plain,
}
use lumen_sdk.Types.Task.Sound.{IsDetTensor, validate_det_tensor_task_sound}
use lumen_sdk.Types.Task.Panics.{IsUndeclared, validate_task_request-panics}

abbrev no_images : Text → Bool
no_images mime = false

abbrev bare : InferRequest
bare = record {
  correlation_id = [];
  task = codes "ocr";
  payload = [];
  meta = none;
  payload_mime = codes "application/octet-stream";
  seq = 0;
  total = 0;
  offset = 0;
}

abbrev ocr_tensor : InferRequest
ocr_tensor = record bare {
  payload = replicate 12288 0;
  meta = some (
      (codes "lumen.input.kind", codes "tensor")
      ∷ (codes "lumen.tensor.dtype", codes "FP32")
      ∷ (codes "lumen.tensor.shape", codes "[1,3,32,32]")
      ∷ (codes "lumen.tensor.layout", codes "nchw")
      ∷ (codes "lumen.tensor.format", codes "contiguous")
      ∷ (codes "lumen.tensor.byte_order", codes "little")
      ∷ (codes "lumen.preprocess.id", codes "ppocr_det_v1")
      ∷ (codes "lumen.preprocess.skip", codes "true")
      ∷ (codes "lumen.source.width", codes "640")
      ∷ (codes "lumen.source.height", codes "480")
      ∷ []);
}

accepted : validate_det_tensor_task ocr_tensor (codes "ppocr_det_v1") false ≡ ok tt
unfolding validate_det_tensor_task
accepted = refl

validate_det_tensor_task_sound_example : IsDetTensor ocr_tensor (codes "ppocr_det_v1")
validate_det_tensor_task_sound_example =
    validate_det_tensor_task_sound ocr_tensor (codes "ppocr_det_v1") false accepted

undeclared : IsUndeclared bare
unfolding trim_space parse_tensor_descriptor
undeclared = record { tensor_mime = refl; undeclared = refl }

validate_task_request-panics_example :
    validate_task_request no_images (some bare) ≡ err nil_pointer_panic
validate_task_request-panics_example =
    validate_task_request-panics no_images bare (inl refl) undeclared

text_only :
    validate_task_request no_images
      (some (record bare { task = codes "semantic_text_embed"; payload_mime = codes "text/html" }))
    ≡ err wants_text_plain
unfolding validate_task_request
text_only = refl

tensor_element_count_iff_example :
    (tensor_element_count (pos 1 ∷ pos 3 ∷ pos 224 ∷ pos 224 ∷ []) ≡ ok 150528) ↔ (
      All IsPositive (pos 1 ∷ pos 3 ∷ pos 224 ∷ pos 224 ∷ [])
      × (volume (pos 1 ∷ pos 3 ∷ pos 224 ∷ pos 224 ∷ []) ≤ max_int64)
      × (150528 ≡ volume (pos 1 ∷ pos 3 ∷ pos 224 ∷ pos 224 ∷ [])))
tensor_element_count_iff_example =
    tensor_element_count_iff (pos 1 ∷ pos 3 ∷ pos 224 ∷ pos 224 ∷ []) 150528

abbrev small : TensorDescriptor
small = record {
  d_type = codes "fp16";
  shape = pos 1 ∷ pos 2 ∷ [];
  layout = codes "NCHW";
  format = codes "contiguous";
  byte_order = codes "little";
  preprocess_id = codes "p";
  preprocess_skip = true;
  model_id = [];
  model_version = [];
}

small_valid :
    validate_tensor_payload small
      (1 ∷ 2 ∷ 3 ∷ 4 ∷ [])
      (input_options lumen_sdk.Types.Tensor.Payload.no_options)
    ≡ ok tt
unfolding validate_tensor_payload
small_valid = refl

validate_tensor_payload_sound_example :
    IsPayload small (1 ∷ 2 ∷ 3 ∷ 4 ∷ []) (input_options lumen_sdk.Types.Tensor.Payload.no_options)
validate_tensor_payload_sound_example =
    validate_tensor_payload_sound small (1 ∷ 2 ∷ 3 ∷ 4 ∷ [])
      (input_options lumen_sdk.Types.Tensor.Payload.no_options) small_valid
