-- ===== src/Types/Requests.antt =====
-- The requests of pkg/types/embedding.go, classification.go, detection.go, ocr.go and generation.go: their
-- constructors and options. The MIME library's `Detect` and `EqualsAny` are the arguments `detect` and
-- `equals_any`. The options that write JSON texts are left out.
use lumen_sdk.Base.{ℕ, Bool, true, false, if◌then◌else◌, List, [], ◌∷◌, Option, none, some}
use lumen_sdk.Base.Dict.{insert}
use lumen_sdk.Base.Int.{ℤ, pos}
use lumen_sdk.Base.Text.{Text, codes, text_eq}
use lumen_sdk.Types.Floats.{Floats}
use lumen_sdk.Types.Proto.{Meta}
use lumen_sdk.Types.Tensor.Marshal.{format_int}

abbrev pub supported_image_mime_types : List Text
supported_image_mime_types =
    codes "image/jpeg" ∷ codes "image/png" ∷ codes "image/webp" ∷ codes "image/avif" ∷ []

abbrev pub supported_text_mime_types : List Text
supported_text_mime_types = codes "text/plain" ∷ codes "text/markdown" ∷ codes "text/html" ∷ []

pub record EmbeddingRequest : Type 0 where
  pub payload : List ℕ
  pub payload_mime : Text

pub record ClassificationRequest : Type 0 where
  pub payload : List ℕ
  pub payload_mime : Text

pub record FaceRecognitionRequest (Float : Type 0) : Type 0 where
  pub payload : List ℕ
  pub payload_mime : Text
  pub detection_confidence_threshold : Float
  pub nms_threshold : Float
  pub face_size_min : Float
  pub face_size_max : Float
  pub max_faces : ℤ

pub record OcrRequest (Float : Type 0) : Type 0 where
  pub payload : List ℕ
  pub payload_mime : Text
  pub detection_threshold : Float
  pub recognition_threshold : Float
  pub use_angle_cls : Bool

pub record ImageTextGenerationRequest : Type 0 where
  pub payload : List ℕ
  pub payload_mime : Text
  pub meta : Meta

abbrev pub apply_options {ℓ} : {A : Type ℓ} → List (A → A) → A → A
apply_options [] req = req
apply_options (option ∷ options) req = apply_options options (option req)

-- The options of a face recognition request and of an OCR request.
module _ {Float : Type 0} where
  unfoldable pub with_detection_confidence_threshold :
      Float → FaceRecognitionRequest Float → FaceRecognitionRequest Float
  with_detection_confidence_threshold threshold req = record req {
    detection_confidence_threshold = threshold;
  }

  unfoldable pub with_nms_threshold :
      Float → FaceRecognitionRequest Float → FaceRecognitionRequest Float
  with_nms_threshold threshold req = record req { nms_threshold = threshold }

  unfoldable pub with_face_size_min :
      Float → FaceRecognitionRequest Float → FaceRecognitionRequest Float
  with_face_size_min size req = record req { face_size_min = size }

  unfoldable pub with_face_size_max :
      Float → FaceRecognitionRequest Float → FaceRecognitionRequest Float
  with_face_size_max size req = record req { face_size_max = size }

  unfoldable pub with_max_faces : ℤ → FaceRecognitionRequest Float → FaceRecognitionRequest Float
  with_max_faces max_faces req = record req { max_faces = max_faces }

  unfoldable pub with_detection_threshold : Float → OcrRequest Float → OcrRequest Float
  with_detection_threshold threshold req = record req { detection_threshold = threshold }

  unfoldable pub with_recognition_threshold : Float → OcrRequest Float → OcrRequest Float
  with_recognition_threshold threshold req = record req { recognition_threshold = threshold }

  unfoldable pub with_use_angle_cls : Bool → OcrRequest Float → OcrRequest Float
  with_use_angle_cls use_angle_cls req = record req { use_angle_cls = use_angle_cls }

-- A write into the metadata, which the constructor has made.
abbrev set_meta : Text → Text → ImageTextGenerationRequest → ImageTextGenerationRequest
set_meta key value req = record req {
  meta = some (insert key value (elim req.meta [ none ↦ [] | some m ↦ m ]));
}

abbrev pub format_bool : Bool → Text
format_bool true = codes "true"
format_bool false = codes "false"

unfoldable pub with_max_tokens : ℤ → ImageTextGenerationRequest → ImageTextGenerationRequest
unfolding insert format_int
with_max_tokens max_tokens = set_meta (codes "max_new_tokens") (format_int max_tokens)

unfoldable pub with_do_sample : Bool → ImageTextGenerationRequest → ImageTextGenerationRequest
unfolding insert
with_do_sample do_sample = set_meta (codes "do_sample") (format_bool do_sample)

unfoldable pub with_add_generation_prompt :
    Bool → ImageTextGenerationRequest → ImageTextGenerationRequest
unfolding insert
with_add_generation_prompt add_prompt =
    set_meta (codes "add_generation_prompt") (format_bool add_prompt)

unfoldable pub with_prompt : Text → ImageTextGenerationRequest → ImageTextGenerationRequest
unfolding insert
with_prompt prompt = set_meta (codes "prompt") prompt

module _ (floats : Floats) where
  open floats use {Float, fixed}

  unfoldable pub with_temperature : Float → ImageTextGenerationRequest → ImageTextGenerationRequest
  unfolding insert
  with_temperature temperature = set_meta (codes "temperature") (fixed 1 temperature)

  unfoldable pub with_top_p : Float → ImageTextGenerationRequest → ImageTextGenerationRequest
  unfolding insert
  with_top_p top_p = set_meta (codes "top_p") (fixed 1 top_p)

  unfoldable pub with_repetition_penalty :
      Float → ImageTextGenerationRequest → ImageTextGenerationRequest
  unfolding insert
  with_repetition_penalty penalty = set_meta (codes "repetition_penalty") (fixed 1 penalty)

abbrev pub default_generation_meta : List (Text × Text)
default_generation_meta =
    (codes "max_new_tokens", codes "512")
    ∷ (codes "temperature", codes "0.0")
    ∷ (codes "top_p", codes "1.0")
    ∷ (codes "repetition_penalty", codes "1.0")
    ∷ (codes "do_sample", codes "false")
    ∷ (codes "add_generation_prompt", codes "true")
    ∷ []

-- The constructors; `none` is an unsupported type of payload.
module _ (detect : List ℕ → Text) (equals_any : Text → List Text → Bool) where
  unfoldable pub new_embedding_request : List ℕ → Option EmbeddingRequest
  new_embedding_request payload =
      let mime = detect payload in
      if equals_any mime supported_image_mime_types
      then some (record { payload = payload; payload_mime = mime })
      else if equals_any mime supported_text_mime_types
      then some (record { payload = payload; payload_mime = mime })
      else none

  unfoldable pub new_classification_request : List ℕ → Option ClassificationRequest
  new_classification_request payload =
      let mime = detect payload in
      if equals_any mime supported_image_mime_types
      then some (record { payload = payload; payload_mime = mime })
      else none

  unfoldable pub new_image_text_generation_request :
      List ℕ
      → List (ImageTextGenerationRequest → ImageTextGenerationRequest)
      → Option ImageTextGenerationRequest
  new_image_text_generation_request payload options =
      let mime = detect payload in
      if equals_any mime supported_image_mime_types
      then some (
          apply_options options (record {
            payload = payload;
            payload_mime = mime;
            meta = some default_generation_meta;
          }))
      else none

  -- The floats of a new request are zero.
  module _ {Float : Type 0} (zero_float : Float) where
    unfoldable pub new_face_recognition_request :
        List ℕ
        → List (FaceRecognitionRequest Float → FaceRecognitionRequest Float)
        → Option (FaceRecognitionRequest Float)
    new_face_recognition_request payload options =
        let mime = detect payload in
        if equals_any mime supported_image_mime_types
        then some (
            apply_options options (record {
              payload = payload;
              payload_mime = mime;
              detection_confidence_threshold = zero_float;
              nms_threshold = zero_float;
              face_size_min = zero_float;
              face_size_max = zero_float;
              max_faces = pos 0;
            }))
        else none

    unfoldable pub new_ocr_request :
        List ℕ → List (OcrRequest Float → OcrRequest Float) → Option (OcrRequest Float)
    new_ocr_request payload options =
        let mime = detect payload in
        if equals_any mime supported_image_mime_types
        then some (
            apply_options options (record {
              payload = payload;
              payload_mime = mime;
              detection_threshold = zero_float;
              recognition_threshold = zero_float;
              use_angle_cls = false;
            }))
        else none

abbrev pub valid_finish_reasons : List Text
valid_finish_reasons =
    codes "stop" ∷ codes "length" ∷ codes "eos_token" ∷ codes "stop_sequence" ∷ codes "error" ∷ []

reason_in : List Text → Text → Bool
unfolding text_eq
reason_in [] finish_reason = false
reason_in (reason ∷ reasons) finish_reason =
    let later = reason_in reasons finish_reason in
    if text_eq finish_reason reason then true else later

unfoldable pub is_valid_finish_reason : Text → Bool
unfolding reason_in
is_valid_finish_reason finish_reason = reason_in valid_finish_reasons finish_reason
