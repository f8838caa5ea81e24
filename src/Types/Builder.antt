-- ===== src/Types/Builder.antt =====
-- pkg/types/builders.go, with WithService and WithPayload of pkg/types/task_contract.go. A builder is the
-- request that it holds, and each method gives the request after it; a nil argument, on which a
-- method panics, is left out.
pub mod Tasks
pub mod Values
pub mod Written
pub mod Keys
pub mod Accepted
pub mod Valid
pub mod Faces
pub mod Images
pub mod Batch
mod Tests
use lumen_sdk.Base.{
  ℕ, ◌+◌, ◌/◌, ◌%◌, Bool, true, false, not, ◌&&◌, ◌||◌, if◌then◌else◌, List, [], ◌∷◌, ◌++◌, map,
  Option, none, some, ltb, ◌==◌, length, drop,
}
use lumen_sdk.Base.Dict.{insert}
use lumen_sdk.Base.Int.{ℤ, pos, negsuc, ltb_ℤ}
use lumen_sdk.Base.Text.{Text, codes, is_empty, trim_space, to_lower, join_with}
use lumen_sdk.Types.Floats.{Floats}
use lumen_sdk.Types.Names
use lumen_sdk.Types.Proto.{Meta, InferRequest}
use lumen_sdk.Types.Requests.{
  EmbeddingRequest, ClassificationRequest, FaceRecognitionRequest, OcrRequest,
  ImageTextGenerationRequest,
}
use lumen_sdk.Types.Task.{service_from_meta}
use lumen_sdk.Types.Tensor.{
  TensorDescriptor, TensorError, normalize_lower, normalize_tensor_layout, parse_tensor_descriptor,
}
use lumen_sdk.Types.Tensor.Marshal.{format_int, marshal_shape}

abbrev pub Builder : Type 0
Builder = InferRequest

-- A method call.
infixl 20 ◌▷◌
abbrev pub ◌▷◌ : Builder → (Builder → Builder) → Builder
b ▷ f = f b

-- A method call under a condition.
abbrev pub when : Bool → (Builder → Builder) → Builder → Builder
when c f b = if c then f b else b

unfoldable pub new_infer_request : Text → Builder
new_infer_request task = record {
  correlation_id = codes "";
  task = task;
  payload = [];
  meta = some [];
  payload_mime = codes "";
  seq = 0;
  total = 0;
  offset = 0;
}

unfoldable pub with_correlation_id : Text → Builder → Builder
with_correlation_id id b = record b { correlation_id = id }

abbrev pub made : Meta → List (Text × Text)
made none = []
made (some m) = m

unfoldable pub with_meta : (key value : Text) → Builder → Builder
unfolding insert
with_meta key value b = record b { meta = some (insert key value (made b.meta)) }

unfoldable pub with_input_kind : Text → Builder → Builder
unfolding with_meta to_lower trim_space
with_input_kind kind = with_meta Names.meta_input_kind (to_lower (trim_space kind))

unfoldable pub with_tensor_descriptor : Text → Bool → List ℤ → Text → Builder → Builder
unfolding with_input_kind with_meta normalize_lower normalize_tensor_layout marshal_shape
with_tensor_descriptor d_type is_nil shape layout b =
    b
    ▷ with_input_kind (codes "tensor")
    ▷ with_meta Names.meta_tensor_d_type (normalize_lower d_type)
    ▷ with_meta Names.meta_tensor_shape (marshal_shape is_nil shape)
    ▷ with_meta Names.meta_tensor_layout (normalize_tensor_layout layout)
    ▷ with_meta Names.meta_tensor_format (codes "contiguous")
    ▷ with_meta Names.meta_tensor_byte_order (codes "little")

unfoldable pub with_preprocess_id : Text → Builder → Builder
unfolding with_meta trim_space
with_preprocess_id id b =
    b
    ▷ with_meta Names.meta_preprocess_id (trim_space id)
    ▷ with_meta Names.meta_preprocess_skip (codes "true")

unfoldable pub with_service : Text → Builder → Builder
unfolding with_meta trim_space
with_service service = with_meta Names.meta_service (trim_space service)

-- The assignments to the payload and its type.
abbrev pub set_payload : List ℕ → Text → Builder → Builder
set_payload payload mime b = record b { payload = payload; payload_mime = mime }

abbrev pub set_task : Text → Builder → Builder
set_task task b = record b { task = task }

unfoldable pub with_payload : List ℕ → Text → Builder → Builder
unfolding trim_space
with_payload payload mime = set_payload payload (trim_space mime)

unfoldable pub for_embedding : EmbeddingRequest → Text → Builder → Builder
for_embedding req task b = b ▷ set_payload req.payload req.payload_mime ▷ set_task task

unfoldable pub for_classification : ClassificationRequest → Text → Builder → Builder
for_classification req task b = b ▷ set_payload req.payload req.payload_mime ▷ set_task task

-- `is_nil` tells of a shape without dimensions whether it is the nil slice.
unfoldable pub for_tensor_input : List ℕ → Text → Bool → TensorDescriptor → Builder → Builder
unfolding with_tensor_descriptor with_meta with_preprocess_id normalize_lower trim_space
for_tensor_input payload mime is_nil desc b =
    b
    ▷ set_payload payload (if is_empty (trim_space mime) then Names.default_tensor_mime else mime)
    ▷ with_tensor_descriptor desc.d_type is_nil desc.shape desc.layout
    ▷ when (not (is_empty desc.format))
        (with_meta Names.meta_tensor_format (normalize_lower desc.format))
    ▷ when (not (is_empty desc.byte_order))
        (with_meta Names.meta_tensor_byte_order (normalize_lower desc.byte_order))
    ▷ with_meta Names.meta_preprocess_skip (codes "true")
    ▷ when (not (is_empty desc.preprocess_id)) (with_preprocess_id desc.preprocess_id)
    ▷ when (not (is_empty desc.model_id)) (with_meta Names.meta_model_id (trim_space desc.model_id))
    ▷ when (not (is_empty desc.model_version))
        (with_meta Names.meta_model_version (trim_space desc.model_version))

-- The entries of the request's metadata are written in the order in which Go ranges over them.
abbrev pub transfer : List (Text × Text) → Builder → Builder
unfolding with_meta
transfer [] b = b
transfer ((key, value) ∷ entries) b = transfer entries (with_meta key value b)

unfoldable pub for_image_text_generation : ImageTextGenerationRequest → Text → Builder → Builder
unfolding with_meta
for_image_text_generation req task b =
    b ▷ set_payload req.payload req.payload_mime ▷ set_task task ▷ transfer (made req.meta)

module _ (floats : Floats) where
  open floats use {Float, is_positive, fixed, shortest}

  unfoldable pub for_face_detection : FaceRecognitionRequest Float → Text → Builder → Builder
  unfolding with_meta format_int
  for_face_detection req task b =
      b
      ▷ set_payload req.payload req.payload_mime
      ▷ set_task task
      ▷ when (is_positive req.detection_confidence_threshold) (
          with_meta (codes "detection_confidence_threshold")
            (fixed 3 req.detection_confidence_threshold))
      ▷ when (is_positive req.nms_threshold)
          (with_meta (codes "nms_threshold") (fixed 3 req.nms_threshold))
      ▷ when (is_positive req.face_size_min)
          (with_meta (codes "face_size_min") (fixed 1 req.face_size_min))
      ▷ when (is_positive req.face_size_max)
          (with_meta (codes "face_size_max") (fixed 1 req.face_size_max))
      ▷ when
          ((ltb_ℤ req.max_faces (pos 0) || ltb_ℤ (pos 0) req.max_faces)
            && not (ltb_ℤ req.max_faces (negsuc 0)))
          (with_meta (codes "max_faces") (format_int req.max_faces))

  unfoldable pub for_ocr : OcrRequest Float → Text → Builder → Builder
  unfolding with_meta
  for_ocr req task b =
      b
      ▷ set_payload req.payload req.payload_mime
      ▷ set_task task
      ▷ when (is_positive req.detection_threshold)
          (with_meta (codes "detection_threshold") (fixed 3 req.detection_threshold))
      ▷ when (is_positive req.recognition_threshold)
          (with_meta (codes "recognition_threshold") (fixed 3 req.recognition_threshold))
      ▷ when req.use_angle_cls (with_meta (codes "use_angle_cls") (codes "true"))
