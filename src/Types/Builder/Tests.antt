-- ===== src/Types/Builder/Tests.antt =====
-- Requests that the builders make, and the theorems at them.
use lumen_sdk.Base.{
  ℕ, ◌≡◌, ◌⊎◌, ◌↔◌, inr, refl, Bool, true, false, List, [], ◌∷◌, replicate, some, ok, arith,
}
use lumen_sdk.Base.Int.{ℤ, pos, negsuc}
use lumen_sdk.Base.Text.{Text, codes, is_empty, trim_space}
use lumen_sdk.Types.Floats.{Floats}
use lumen_sdk.Types.Names
use lumen_sdk.Types.Tensor.{TensorDescriptor, parse_tensor_descriptor, normalize_lower}
use lumen_sdk.Types.Tensor.Shape.{unmarshal_shape}
use lumen_sdk.Types.Tensor.Marshal.{marshal_shape}
use lumen_sdk.Types.Tensor.RoundTrip.{unmarshal_shape-marshal_shape}
use lumen_sdk.Types.Task.{validate_task_request}
use lumen_sdk.Types.Builder.{Builder, new_infer_request, for_tensor_input}
use lumen_sdk.Types.Builder.Tasks.{
  for_ocr_tensor, for_face_recognition_tensor, for_semantic_image_tensor, for_semantic_text_embed,
  for_bioclip_tensor, image_224, image_descriptor, tensor_batching_key, keyed,
}
use lumen_sdk.Types.Builder.Written.{written, parse-for_tensor_input}
use lumen_sdk.Types.Builder.Accepted.{IsImage}
use lumen_sdk.Types.Builder.Valid.{for_ocr_tensor-accepted}
use lumen_sdk.Types.Builder.Faces.{for_face_recognition_tensor-accepted}
use lumen_sdk.Types.Builder.Images.{IsValue, for_semantic_image_tensor-accepted_iff}

abbrev no_images : Text → Bool
no_images mime = false

abbrev fresh : Builder
fresh = new_infer_request (codes "ocr")

abbrev odd_shape : List ℤ
odd_shape = pos 1 ∷ pos 0 ∷ negsuc 6 ∷ pos 224 ∷ []

odd_shape_text : marshal_shape false odd_shape ≡ codes "[1,0,-7,224]"
unfolding marshal_shape
odd_shape_text = refl

read_shape : unmarshal_shape (marshal_shape false odd_shape) ≡ some odd_shape
read_shape = unmarshal_shape-marshal_shape false odd_shape (omega arith)

abbrev spaced : TensorDescriptor
spaced = record (image_descriptor (codes " FP32") image_224 (codes "ppocr_det_v1")) {
  format = codes "Contiguous ";
  model_id = codes " m1 ";
}

parse-for_tensor_input_example :
    parse_tensor_descriptor (for_tensor_input (1 ∷ []) (codes "") false spaced fresh).meta
    ≡ ok (some (written spaced fresh.meta))
parse-for_tensor_input_example =
    parse-for_tensor_input (1 ∷ []) (codes "") false spaced fresh (omega arith)

abbrev page : List ℕ
page = replicate 12288 0

page-IsImage : IsImage page (codes "FP32 ") 32 32
unfolding normalize_lower
page-IsImage = record {
  typed = refl;
  height = omega arith;
  width = omega arith;
  exact = refl;
  bounded = omega arith;
}

for_ocr_tensor-accepted_example :
    validate_task_request no_images
      (some (for_ocr_tensor page (codes "FP32 ") (pos 32) (pos 32) (pos 640) (pos 480) fresh))
    ≡ ok tt
for_ocr_tensor-accepted_example =
    for_ocr_tensor-accepted no_images page (codes "FP32 ") 32 32 (pos 640) (pos 480) fresh
      page-IsImage refl refl

-- Floats as whole numbers, all printed as one text.
abbrev whole_floats : Floats
whole_floats = record {
  Float = ℕ;
  is_positive = λ x. true;
  fixed = λ n x. codes "1.0";
  shortest = λ x. codes "1";
}

printed_one : (x : ℕ) → is_empty (trim_space (codes "1")) ≡ false
unfolding trim_space
printed_one x = refl

for_face_recognition_tensor-accepted_example :
    validate_task_request no_images (
      some (
        for_face_recognition_tensor whole_floats page
          (codes "FP32 ")
          (pos 32)
          (pos 32)
          (pos 640)
          (pos 480)
          1
          0
          0
          fresh))
    ≡ ok tt
for_face_recognition_tensor-accepted_example =
    for_face_recognition_tensor-accepted whole_floats printed_one page (codes "FP32 ") 32 32
      (pos 640) (pos 480) 1 0 0 fresh no_images page-IsImage

half_typed : IsValue (codes "fp16") 2
unfolding normalize_lower
half_typed = inr (refl, refl)

for_semantic_image_tensor-accepted_iff_example :
    (validate_task_request no_images
        (some (for_semantic_image_tensor (replicate 301056 0) (codes "clip") (codes "fp16") fresh))
      ≡ ok tt)
    ↔ ((is_empty (trim_space (codes "clip")) ≡ true)
        ⊎ (trim_space (codes "clip") ≡ Names.service_siglip))
for_semantic_image_tensor-accepted_iff_example =
    for_semantic_image_tensor-accepted_iff (replicate 301056 0) (codes "clip") (codes "fp16") fresh
      no_images 2 half_typed refl

one_key :
    tensor_batching_key (for_bioclip_tensor [] (codes "fp16") (pos 5) fresh)
    ≡ keyed (codes "bioclip|bioclip_classify||fp16|3,224,224|bioclip2_224_image_v1")
unfolding tensor_batching_key for_bioclip_tensor new_infer_request
one_key = refl

snowman : (for_semantic_text_embed (codes "a☃") fresh).payload ≡ 97 ∷ 226 ∷ 152 ∷ 131 ∷ []
unfolding for_semantic_text_embed
snowman = refl
