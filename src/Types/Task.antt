-- ===== src/Types/Task.antt =====
-- pkg/types/task_contract.go: ValidateTaskRequest, which the client calls before it sends a request. A
-- nil pointer that the code dereferences is the error `nil_pointer_panic`. The MIME library's test for an
-- image type is the argument `is_image`.
pub mod Sound
pub mod Panics
mod Tests
use lumen_sdk.Base.{
  ℕ, zero, suc, ◌%◌, ◌+◌, Bool, true, false, not, ◌&&◌, ◌||◌, if◌then◌else◌, List, [], ◌∷◌, ◌++◌,
  map, drop, Option, none, some, ltb, leb, ◌==◌, Result, ok, err, ◌>>=◌, ◌>>◌, guard, length,
}
use lumen_sdk.Base.Int.{ℤ, pos, negsuc}
use lumen_sdk.Base.Text.{Text, codes, text_eq, is_empty, trim_space, equal_fold, contains_text}
use lumen_sdk.Types.Names
use lumen_sdk.Types.Proto.{Meta, meta_get, InferRequest}
use lumen_sdk.Types.Tensor.{TensorDescriptor, TensorError, parse_tensor_descriptor}
use lumen_sdk.Types.Tensor.Payload.{TensorValidationOptions, no_options, validate_tensor_fast_path}

pub data TaskError : Type 0 where
  nil_request task_required mime_required deprecated_mime json_pixels : TaskError
  no_tensor_input wants_text_plain : TaskError
  wants_service : Text → TaskError
  wants_shape : TaskError
  wants_image_size : (height width : ℕ) → TaskError
  not_multiple_of_32 : TaskError
  missing_meta : (key : Text) → TaskError
  unsupported_image_mime : Text → TaskError
  tensor_error : TensorError → TaskError
  nil_pointer_panic : TaskError

abbrev pub Checked : Type 0
Checked = Result TaskError (Unit {0})

unfoldable pub service_from_meta : Meta → Text
unfolding meta_get trim_space
service_from_meta meta = trim_space (meta_get meta Names.meta_service)

abbrev pub as_task_error {ℓ} : {A : Type ℓ} → Result TensorError A → Result TaskError A
as_task_error (ok a) = ok a
as_task_error (err e) = err (tensor_error e)

-- `desc, _, _ := ParseTensorDescriptor(meta)`; `none` is nil.
abbrev pub or_nil : Result TensorError (Option TensorDescriptor) → Option TensorDescriptor
or_nil (ok d) = d
or_nil (err e) = none

-- The first use of the descriptor's fields.
abbrev pub with_descriptor : Option TensorDescriptor → (TensorDescriptor → Checked) → Checked
with_descriptor none f = err nil_pointer_panic
with_descriptor (some d) f = f d

abbrev pub is : ℕ → ℤ → Bool
is n (pos m) = m == n
is n (negsuc m) = false

-- A test of the four dimensions, if there are four.
abbrev pub four : (ℤ → ℤ → ℤ → ℤ → Bool) → List ℤ → Bool
four test (n ∷ c ∷ h ∷ w ∷ []) = test n c h w
four test _ = false

abbrev pub has_size : ℕ → TensorDescriptor → Checked
has_size side desc =
    guard (four (λ n c h w. is side h && is side w) desc.shape) (wants_image_size side side)

unfoldable pub validate_image_tensor_shape : TensorDescriptor → Checked
unfolding text_eq
validate_image_tensor_shape desc =
    guard (four (λ n c h w. is 3 c) desc.shape) wants_shape
    >> (if text_eq desc.preprocess_id Names.preprocess_siglip_2_so_400m_patch_14_384_image
        then has_size 384 desc
        else has_size 224 desc)

abbrev pub service_is : Text → Text → Checked
service_is wanted service =
    guard (is_empty service || text_eq service wanted) (wants_service wanted)

-- The switch on the preprocessing step in validateImageTensorTask.
unfoldable pub validate_image_service : TensorDescriptor → Text → Checked
unfolding text_eq
validate_image_service desc service =
    if text_eq desc.preprocess_id Names.preprocess_bioclip_224_image
    then service_is Names.service_bioclip service
    else if text_eq desc.preprocess_id Names.preprocess_siglip_2_base_patch_16_224_image
        || text_eq desc.preprocess_id Names.preprocess_siglip_2_so_400m_patch_14_384_image
    then service_is Names.service_siglip service
    else ok tt

abbrev pub image_options : List Text → Bool → TensorValidationOptions
image_options preprocess_ids allow_batch = record no_options {
  allowed_d_types = codes "fp32" ∷ codes "fp16" ∷ [];
  allowed_layouts = codes "NCHW" ∷ [];
  allowed_preprocess_ids = preprocess_ids;
  disable_single_batch_check = allow_batch;
}

unfoldable pub validate_image_tensor_task : InferRequest → List Text → Bool → Checked
unfolding validate_tensor_fast_path parse_tensor_descriptor validate_image_tensor_shape
    validate_image_service service_from_meta
validate_image_tensor_task req preprocess_ids allow_batch =
    as_task_error (validate_tensor_fast_path (some req) (image_options preprocess_ids allow_batch))
    >>= λ _. with_descriptor (or_nil (parse_tensor_descriptor req.meta)) (λ desc.
      validate_image_tensor_shape desc >> validate_image_service desc (service_from_meta req.meta))

abbrev pub is_multiple_of_32 : ℤ → Bool
is_multiple_of_32 (pos n) = n % 32 == 0
is_multiple_of_32 (negsuc n) = (n + 1) % 32 == 0

abbrev pub det_options : Text → TensorValidationOptions
det_options preprocess_id = record no_options {
  allowed_d_types = codes "fp32" ∷ [];
  allowed_layouts = codes "NCHW" ∷ [];
  allowed_preprocess_ids = preprocess_id ∷ [];
}

unfoldable pub require_meta : Meta → List Text → Checked
unfolding meta_get trim_space
require_meta meta [] = ok tt
require_meta meta (key ∷ keys) =
    guard (not (is_empty (trim_space (meta_get meta key)))) (missing_meta key)
    >> require_meta meta keys

abbrev pub source_keys : List Text
source_keys = Names.meta_source_width ∷ Names.meta_source_height ∷ []

abbrev pub letterbox_keys : List Text
letterbox_keys =
    Names.meta_letterbox_scale ∷ Names.meta_letterbox_pad_x ∷ Names.meta_letterbox_pad_y ∷ []

unfoldable pub validate_det_shape : TensorDescriptor → Text → Checked
unfolding text_eq
validate_det_shape desc preprocess_id =
    guard (four (λ n c h w. is 1 n && is 3 c) desc.shape) wants_shape
    >> guard
        (not (text_eq preprocess_id Names.preprocess_ppocr_detection)
          || four (λ n c h w. is_multiple_of_32 h && is_multiple_of_32 w) desc.shape)
        not_multiple_of_32

unfoldable pub validate_det_tensor_task : InferRequest → Text → Bool → Checked
unfolding validate_tensor_fast_path parse_tensor_descriptor validate_det_shape require_meta
validate_det_tensor_task req preprocess_id require_letterbox =
    as_task_error (validate_tensor_fast_path (some req) (det_options preprocess_id)) >>= λ _.
    with_descriptor (or_nil (parse_tensor_descriptor req.meta)) (λ desc.
      validate_det_shape desc preprocess_id
      >> require_meta req.meta source_keys
      >> (if require_letterbox then require_meta req.meta letterbox_keys else ok tt))

abbrev pub is_ascii_space : ℕ → Bool
is_ascii_space b = (b == b' ') || (leb 9 b && leb b 13)

abbrev pub is_two_byte_space : ℕ → ℕ → Bool
is_two_byte_space b c = (b == 0xC2) && ((c == 0x85) || (c == 0xA0))

abbrev pub is_three_byte_space : ℕ → ℕ → ℕ → Bool
is_three_byte_space b c d =
    ((b == 0xE1) && ((c == 0x9A) && (d == 0x80)))
    || (((b == 0xE2)
          && ((c == 0x80)
              && ((leb 0x80 d && leb d 0x8A) || ((d == 0xA8) || ((d == 0xA9) || (d == 0xAF))))))
        || (((b == 0xE2) && ((c == 0x81) && (d == 0x9F)))
            || ((b == 0xE3) && ((c == 0x80) && (d == 0x80)))))

-- The bytes of a white space rune at the start of a UTF-8 text: none, or their number less one.
abbrev pub space_at : List ℕ → Option ℕ
space_at [] = none
space_at (b ∷ []) = if is_ascii_space b then some 0 else none
space_at (b ∷ c ∷ []) =
    if is_ascii_space b then some 0 else if is_two_byte_space b c then some 1 else none
space_at (b ∷ c ∷ d ∷ bytes) =
    if is_ascii_space b
    then some 0
    else if is_two_byte_space b c
    then some 1
    else if is_three_byte_space b c d
    then some 2
    else none

-- Leading white space is cut off; `k` bytes more belong to the rune before.
unfoldable pub skip_space : ℕ → List ℕ → List ℕ
skip_space k [] = []
skip_space (suc k) (b ∷ bytes) = skip_space k bytes
skip_space zero (b ∷ bytes) = elim (space_at (b ∷ bytes)) [
  | none ↦ b ∷ bytes
  | some k ↦ skip_space k bytes
]

abbrev pub starts_with_bracket : List ℕ → Bool
starts_with_bracket [] = false
starts_with_bracket (b ∷ bytes) = b == b'['

-- White space at the end touches neither test.
unfoldable pub looks_like_json_pixel_payload : List ℕ → Bool
unfolding skip_space contains_text
looks_like_json_pixel_payload payload =
    starts_with_bracket (skip_space 0 payload) || contains_text payload (codes "\"pixels\"")

unfoldable pub validate_raw_image_mime : (Text → Bool) → Text → Checked
validate_raw_image_mime is_image mime = guard (is_image mime) (unsupported_image_mime mime)

-- The switch on the task.
unfoldable pub validate_for_task : (Text → Bool) → InferRequest → Text → Bool → Checked
unfolding text_eq service_from_meta validate_image_tensor_task validate_det_tensor_task
    validate_raw_image_mime validate_tensor_fast_path
validate_for_task is_image req mime is_tensor =
    if text_eq req.task Names.task_semantic_text_embed
    then guard (not is_tensor) no_tensor_input
      >> guard (text_eq mime (codes "text/plain")) wants_text_plain
    else if text_eq req.task Names.task_semantic_image_embed
    then (if is_tensor
        then validate_image_tensor_task req
            (Names.preprocess_siglip_2_base_patch_16_224_image
              ∷ Names.preprocess_siglip_2_so_400m_patch_14_384_image ∷ [])
            true
        else validate_raw_image_mime is_image mime)
    else if text_eq req.task Names.task_bioclip_classify
    then service_is Names.service_bioclip (service_from_meta req.meta)
      >> (if is_tensor
          then validate_image_tensor_task req (Names.preprocess_bioclip_224_image ∷ []) true
          else validate_raw_image_mime is_image mime)
    else if text_eq req.task Names.task_ocr
    then (if is_tensor
        then validate_det_tensor_task req Names.preprocess_ppocr_detection false
        else validate_raw_image_mime is_image mime)
    else if text_eq req.task Names.task_face_recognition
    then (if is_tensor
        then validate_det_tensor_task req Names.preprocess_insight_face_det true
        else validate_raw_image_mime is_image mime)
    else as_task_error (validate_tensor_fast_path (some req) no_options) >>= λ _. ok tt

unfoldable pub validate_task_request : (Text → Bool) → Option InferRequest → Checked
unfolding trim_space equal_fold text_eq looks_like_json_pixel_payload validate_for_task
validate_task_request is_image none = err nil_request
validate_task_request is_image (some req) =
    let mime = trim_space req.payload_mime in
    guard (not (is_empty (trim_space req.task))) task_required
    >> guard (not (is_empty mime)) mime_required
    >> guard (not (equal_fold mime Names.deprecated_tensor_json_mime)) deprecated_mime
    >> guard
        (not (text_eq mime (codes "application/json"))
          || not (looks_like_json_pixel_payload req.payload))
        json_pixels
    >> validate_for_task is_image req mime (equal_fold mime Names.default_tensor_mime)
