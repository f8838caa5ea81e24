-- ===== src/Types/Builder/Tasks.antt =====
-- The builders of pkg/types/task_contract.go for each task, and its TensorBatchingKey.
use lumen_sdk.Base.{
  ℕ, ◌+◌, ◌/◌, ◌%◌, Bool, true, false, not, ◌&&◌, ◌||◌, if◌then◌else◌, List, [], ◌∷◌, ◌++◌, map,
  Option, none, some, ltb, ◌==◌, length, drop,
}
use lumen_sdk.Base.Int.{ℤ, pos, ltb_ℤ}
use lumen_sdk.Base.Text.{Text, codes, is_empty, trim_space, join_with}
use lumen_sdk.Types.Floats.{Floats}
use lumen_sdk.Types.Names
use lumen_sdk.Types.Proto.{InferRequest}
use lumen_sdk.Types.Task.{service_from_meta}
use lumen_sdk.Types.Tensor.{TensorDescriptor, TensorError, parse_tensor_descriptor}
use lumen_sdk.Types.Tensor.Marshal.{format_int}
use lumen_sdk.Types.Builder.{
  Builder, ◌▷◌, when, set_payload, set_task, with_meta, with_service, for_tensor_input,
}

abbrev tail_byte : ℕ → ℕ
tail_byte n = 0x80 + n % 64

abbrev pub rune_bytes : ℕ → List ℕ
rune_bytes c =
    if ltb c 0x80
    then c ∷ []
    else if ltb c 0x800
    then (0xc0 + c / 64) ∷ tail_byte c ∷ []
    else if ltb c 0x10000
    then (0xe0 + c / 4096) ∷ tail_byte (c / 64) ∷ tail_byte c ∷ []
    else (0xf0 + c / 262144) ∷ tail_byte (c / 4096) ∷ tail_byte (c / 64) ∷ tail_byte c ∷ []

-- `[]byte(text)`: the text in UTF-8.
abbrev pub text_bytes : Text → List ℕ
text_bytes [] = []
text_bytes (c ∷ text) = rune_bytes c ++ text_bytes text

unfoldable pub for_semantic_text_embed : Text → Builder → Builder
for_semantic_text_embed text b =
    b ▷ set_task Names.task_semantic_text_embed ▷ set_payload (text_bytes text) (codes "text/plain")

unfoldable pub for_semantic_image_embed : List ℕ → Text → Builder → Builder
unfolding trim_space
for_semantic_image_embed payload mime b =
    b ▷ set_task Names.task_semantic_image_embed ▷ set_payload payload (trim_space mime)

-- A descriptor of which the builder gives the element type, the shape and the preprocessing step.
abbrev pub image_descriptor : Text → List ℤ → Text → TensorDescriptor
image_descriptor d_type shape preprocess_id = record {
  d_type = d_type;
  shape = shape;
  layout = codes "NCHW";
  format = codes "";
  byte_order = codes "";
  preprocess_id = preprocess_id;
  preprocess_skip = true;
  model_id = codes "";
  model_version = codes "";
}

abbrev pub image_224 : List ℤ
image_224 = pos 1 ∷ pos 3 ∷ pos 224 ∷ pos 224 ∷ []

unfoldable pub for_semantic_image_tensor : List ℕ → Text → Text → Builder → Builder
unfolding for_tensor_input with_service trim_space
for_semantic_image_tensor payload service d_type b =
    b
    ▷ for_tensor_input payload Names.default_tensor_mime false
        (image_descriptor d_type image_224 Names.preprocess_siglip_2_base_patch_16_224_image)
    ▷ with_service (if is_empty (trim_space service) then Names.service_siglip else service)
    ▷ set_task Names.task_semantic_image_embed

abbrev pub with_top_k : ℤ → Builder → Builder
unfolding with_meta format_int
with_top_k top_k = when (ltb_ℤ (pos 0) top_k) (with_meta Names.meta_top_k (format_int top_k))

unfoldable pub for_bioclip_classify : List ℕ → Text → ℤ → Builder → Builder
unfolding trim_space with_service with_meta format_int
for_bioclip_classify payload mime top_k b =
    b
    ▷ set_task Names.task_bioclip_classify
    ▷ set_payload payload (trim_space mime)
    ▷ with_service Names.service_bioclip
    ▷ with_top_k top_k

unfoldable pub for_bioclip_tensor : List ℕ → Text → ℤ → Builder → Builder
unfolding for_tensor_input with_service with_meta format_int
for_bioclip_tensor payload d_type top_k b =
    b
    ▷ for_tensor_input payload Names.default_tensor_mime false
        (image_descriptor d_type image_224 Names.preprocess_bioclip_224_image)
    ▷ with_service Names.service_bioclip
    ▷ set_task Names.task_bioclip_classify
    ▷ with_top_k top_k

unfoldable pub for_ocr_raw : List ℕ → Text → Builder → Builder
unfolding trim_space
for_ocr_raw payload mime b = b ▷ set_task Names.task_ocr ▷ set_payload payload (trim_space mime)

abbrev pub with_source : (width height : ℤ) → Builder → Builder
unfolding with_meta format_int
with_source width height b =
    b
    ▷ with_meta Names.meta_source_width (format_int width)
    ▷ with_meta Names.meta_source_height (format_int height)

unfoldable pub for_ocr_tensor :
    List ℕ → Text → (h w : ℤ) → (source_width source_height : ℤ) → Builder → Builder
unfolding for_tensor_input with_service with_meta format_int
for_ocr_tensor payload d_type h w source_width source_height b =
    b
    ▷ for_tensor_input payload Names.default_tensor_mime false
        (image_descriptor d_type (pos 1 ∷ pos 3 ∷ h ∷ w ∷ []) Names.preprocess_ppocr_detection)
    ▷ with_service Names.service_ocr
    ▷ set_task Names.task_ocr
    ▷ with_source source_width source_height

unfoldable pub for_face_recognition_raw : List ℕ → Text → Builder → Builder
unfolding trim_space
for_face_recognition_raw payload mime b =
    b ▷ set_task Names.task_face_recognition ▷ set_payload payload (trim_space mime)

module _ (floats : Floats) where
  open floats use {Float, shortest}

  unfoldable pub for_face_recognition_tensor :
      List ℕ
      → Text
      → (h w : ℤ) → (source_width source_height : ℤ) → (scale pad_x pad_y : Float) → Builder
      → Builder
  unfolding for_tensor_input with_service with_meta format_int
  for_face_recognition_tensor payload d_type h w source_width source_height scale pad_x pad_y b =
      b
      ▷ for_tensor_input payload Names.default_tensor_mime false
          (image_descriptor d_type (pos 1 ∷ pos 3 ∷ h ∷ w ∷ []) Names.preprocess_insight_face_det)
      ▷ with_service Names.service_face
      ▷ set_task Names.task_face_recognition
      ▷ with_source source_width source_height
      ▷ with_meta Names.meta_letterbox_scale (shortest scale)
      ▷ with_meta Names.meta_letterbox_pad_x (shortest pad_x)
      ▷ with_meta Names.meta_letterbox_pad_y (shortest pad_y)

-- The dimensions behind the first.
unfoldable pub shape_tail : List ℤ → Text
unfolding format_int join_with
shape_tail [] = codes ""
shape_tail (d ∷ dims) = join_with (codes ",") (map format_int dims)

-- What TensorBatchingKey returns: no tensor, the key of a tensor, or an error.
pub data Batching : Type 0 where
  raw : Batching
  keyed : Text → Batching
  failed : TensorError → Batching

unfoldable pub key_text : (service task : Text) → TensorDescriptor → Text
unfolding join_with shape_tail
key_text service task desc =
    join_with (codes "|") (
      service
      ∷ task
      ∷ desc.model_id
      ∷ desc.d_type
      ∷ shape_tail desc.shape
      ∷ desc.preprocess_id
      ∷ [])

abbrev pub key_of : InferRequest → TensorDescriptor → Text
key_of req desc = key_text (service_from_meta req.meta) req.task desc

unfoldable pub tensor_batching_key : InferRequest → Batching
unfolding parse_tensor_descriptor service_from_meta key_text
tensor_batching_key req = elim (parse_tensor_descriptor req.meta) [
  | lumen_sdk.Base.err e ↦ failed e
  | lumen_sdk.Base.ok none ↦ raw
  | lumen_sdk.Base.ok (some desc) ↦ keyed (key_of req desc)
]
