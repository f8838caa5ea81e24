-- ===== src/Types/Builder/Accepted.antt =====
-- The requests that the tensor builders of pkg/types/task_contract.go make, under its ValidateTaskRequest.
use lumen_sdk.Base.{
  ℕ, ◌*◌, ◌/◌, ◌%◌, ◌^◌, ◌≤◌, ◌<◌, ◌≡◌, refl, sym, ◌∙◌, Bool, true, false, not, ◌&&◌, ◌||◌, List,
  [], ◌∷◌, some, ok, arith, All, length, ltb, ◌==◌, if◌then◌else◌,
}
use lumen_sdk.Base.Int.{ℤ, pos}
use lumen_sdk.Base.Text.{Text, codes, text_eq, text_eq_refl, is_empty, trim_space}
use lumen_sdk.Types.Names
use lumen_sdk.Types.Proto.{meta_get, InferRequest}
use lumen_sdk.Types.Tensor.{
  TensorDescriptor, normalize_lower, normalize_tensor_layout, parse_tensor_descriptor,
  tensor_element_count, max_int64,
}
use lumen_sdk.Types.Tensor.RoundTrip.{IsInt64}
use lumen_sdk.Types.Tensor.Payload.{
  validate_tensor_payload, validate_tensor_fast_path, input_options,
}
use lumen_sdk.Types.Tensor.Sound.{volume, tensor_element_count_iff}
use lumen_sdk.Types.Task.{
  validate_det_tensor_task, det_options, validate_det_shape, require_meta, source_keys,
  letterbox_keys,
}
use lumen_sdk.Types.Builder.{Builder, for_tensor_input}
use lumen_sdk.Types.Builder.Tasks.{image_descriptor}
use lumen_sdk.Types.Builder.Written.{parse-for_tensor_input}

abbrev pub det_shape : (h w : ℕ) → List ℤ
det_shape h w = pos 1 ∷ pos 3 ∷ pos h ∷ pos w ∷ []

-- A detection tensor of `fp32` values, one image of three channels, with a payload of that size.
pub record IsImage (payload : List ℕ) (d_type : Text) (h w : ℕ) : Type 0 where
  pub typed : normalize_lower d_type ≡ codes "fp32"
  pub height : 0 < h
  pub width : 0 < w
  pub exact : length payload ≡ 12 * (h * w)
  pub bounded : 12 * (h * w) ≤ max_int64

volume-det_shape : (h w : ℕ) → volume (det_shape h w) * 4 ≡ 12 * (h * w)
volume-det_shape h w = grind arith

dimension_fits : (h w : ℕ) → 0 < h → 0 < w → 12 * (h * w) ≤ max_int64 → (h < 2 ^ 63) × (w < 2 ^ 63)
dimension_fits h w p q b = grind arith

count_lem :
    (h w : ℕ)
    → 0 < h
    → 0 < w
    → 12 * (h * w) ≤ max_int64
    → tensor_element_count (det_shape h w) ≡ ok (volume (det_shape h w))
count_lem h w p q b =
    (tensor_element_count_iff (det_shape h w) (volume (det_shape h w))).1
      ((omega arith, (omega arith, (p, (q, tt)))), omega (arith, volume-det_shape h w), refl)

abbrev pub det_desc : (id : Text) (h w : ℕ) (model version : Text) → TensorDescriptor
det_desc id h w model version = record {
  d_type = codes "fp32";
  shape = det_shape h w;
  layout = codes "NCHW";
  format = codes "contiguous";
  byte_order = codes "little";
  preprocess_id = id;
  preprocess_skip = true;
  model_id = model;
  model_version = version;
}

within : (n : ℕ) → n * 4 ≤ max_int64 → not (ltb (max_int64 / 4) n) ≡ true
within n h = ground arith

same_length : (m n : ℕ) → m ≡ n → (m == n) ≡ true
same_length m n e = ground arith

-- The step of the request is one of the two that detection tensors have.
abbrev pub IsStep : Text → Type 0
IsStep id = (is_empty id ≡ false) × (trim_space id ≡ id)

payload_accepted :
    (payload : List ℕ) (id : Text) (h w : ℕ) (model version : Text)
    → IsStep id
    → IsImage payload (codes "fp32") h w
    → validate_tensor_payload
        (det_desc id h w model version)
        payload
        (input_options (det_options id))
      ≡ ok tt
unfolding validate_tensor_payload text_eq
payload_accepted payload id h w model version (named, trimmed) image =
    rw
      (
        named,
        trimmed,
        text_eq_refl id,
        count_lem h w image.height image.width image.bounded,
        within (volume (det_shape h w)) (omega (arith, volume-det_shape h w, image.bounded)),
        same_length (length payload) (volume (det_shape h w) * 4)
            (image.exact ∙ sym (volume-det_shape h w)),
      )
      refl

-- OCR images are aligned to 32.
abbrev pub IsAligned : Text → ℕ → ℕ → Type 0
IsAligned id h w =
    (not (text_eq id Names.preprocess_ppocr_detection) || ((h % 32 == 0) && (w % 32 == 0))) ≡ true

pub det_accepted :
    (req : InferRequest) (id : Text) (letterbox : Bool) (h w : ℕ) (model version : Text)
    → parse_tensor_descriptor req.meta ≡ ok (some (det_desc id h w model version))
    → IsStep id
    → IsImage req.payload (codes "fp32") h w
    → IsAligned id h w
    → require_meta req.meta source_keys ≡ ok tt
    → (if letterbox then require_meta req.meta letterbox_keys else ok tt) ≡ ok tt
    → validate_det_tensor_task req id letterbox ≡ ok tt
unfolding validate_det_tensor_task validate_tensor_fast_path validate_det_shape
det_accepted req id letterbox h w model version parsed step image aligned sources rest =
    rw
      (parsed, payload_accepted req.payload id h w model version step image, aligned, sources, rest)
      refl

pub typed-IsImage :
    {payload : List ℕ} {d_type : Text} {h w : ℕ}
    → IsImage payload d_type h w
    → IsImage payload (codes "fp32") h w
unfolding normalize_lower
typed-IsImage image = record {
  typed = refl;
  height = image.height;
  width = image.width;
  exact = image.exact;
  bounded = image.bounded;
}

pub dims_fit : (h w : ℕ) → 0 < h → 0 < w → 12 * (h * w) ≤ max_int64 → All IsInt64 (det_shape h w)
dims_fit h w p q b =
    let (fits, also) = dimension_fits h w p q b in (omega arith, (omega arith, (fits, (also, tt))))

-- A detection tensor as a builder writes it.
abbrev pub det_tensor : List ℕ → Text → ℕ → ℕ → Text → Builder → Builder
det_tensor payload d_type h w id b =
    for_tensor_input payload Names.default_tensor_mime false
      (image_descriptor d_type (det_shape h w) id) b

abbrev pub named_model : Builder → Text
named_model b = trim_space (meta_get b.meta Names.meta_model_id)

abbrev pub named_version : Builder → Text
named_version b = trim_space (meta_get b.meta Names.meta_model_version)

pub parse-det_tensor :
    (payload : List ℕ) (d_type : Text) (h w : ℕ) (id : Text) (b : Builder)
    → IsStep id
    → IsImage payload d_type h w
    → parse_tensor_descriptor (det_tensor payload d_type h w id b).meta
      ≡ ok (some (det_desc id h w (named_model b) (named_version b)))
unfolding normalize_tensor_layout
parse-det_tensor payload d_type h w id b (named, trimmed) image =
    parse-for_tensor_input payload Names.default_tensor_mime false
      (image_descriptor d_type (det_shape h w) id) b
      (dims_fit h w image.height image.width image.bounded)
    ∙ rw (image.typed, named, trimmed) refl
