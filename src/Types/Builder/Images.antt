-- ===== src/Types/Builder/Images.antt =====
-- The requests of ForSemanticImageTensor of pkg/types/task_contract.go, under its ValidateTaskRequest.
use lumen_sdk.Base.{
  ℕ, ◌*◌, ◌≡◌, ◌⊎◌, ◌↔◌, inl, inr, refl, sym, ap, ◌∙◌, Bool, true, false, ◌||◌, List, [], ◌∷◌, some,
  Result, ok, guard, arith, length, ==_iff, if◌then◌else◌, Bool-cases,
}
use lumen_sdk.Base.Text.{Text, codes, text_eq, text_eq_iff, is_empty, trim_space, trim_space_idem}
use lumen_sdk.Types.Names
use lumen_sdk.Types.Proto.{InferRequest, meta_get}
use lumen_sdk.Types.Tensor.{
  TensorDescriptor, normalize_lower, normalize_tensor_layout, parse_tensor_descriptor,
}
use lumen_sdk.Types.Tensor.Payload.{
  validate_tensor_payload, validate_tensor_fast_path, input_options,
}
use lumen_sdk.Types.Task.{
  TaskError, wants_service, validate_task_request, validate_image_tensor_task, image_options,
  validate_image_tensor_shape, validate_image_service, service_from_meta,
}
use lumen_sdk.Types.Builder.{Builder, with_service}
use lumen_sdk.Types.Builder.Tasks.{for_semantic_image_tensor, image_descriptor, image_224}
use lumen_sdk.Types.Builder.Values.{meta_get-with_meta}
use lumen_sdk.Types.Builder.Written.{parse-for_tensor_input}
use lumen_sdk.Types.Builder.Keys.{parse-with_meta}

abbrev siglip_ids : List Text
siglip_ids =
    Names.preprocess_siglip_2_base_patch_16_224_image
    ∷ Names.preprocess_siglip_2_so_400m_patch_14_384_image ∷ []

-- An element type of images, and its size.
abbrev pub IsValue : Text → ℕ → Type 0
IsValue d_type size =
    ((normalize_lower d_type ≡ codes "fp32") × (size ≡ 4))
    ⊎ ((normalize_lower d_type ≡ codes "fp16") × (size ≡ 2))

is_semantic :
    (is_image : Text → Bool) (req : InferRequest)
    → req.task ≡ Names.task_semantic_image_embed
    → req.payload_mime ≡ Names.default_tensor_mime
    → validate_task_request is_image (some req) ≡ validate_image_tensor_task req siglip_ids true
unfolding validate_task_request
is_semantic is_image req h k = rw (h, k) refl

abbrev siglip_desc : (d_type model version : Text) → TensorDescriptor
siglip_desc d_type model version = record {
  d_type = d_type;
  shape = image_224;
  layout = codes "NCHW";
  format = codes "contiguous";
  byte_order = codes "little";
  preprocess_id = Names.preprocess_siglip_2_base_patch_16_224_image;
  preprocess_skip = true;
  model_id = model;
  model_version = version;
}

payload_accepted :
    (payload : List ℕ) (d_type model version : Text) (size : ℕ)
    → ((d_type ≡ codes "fp32") × (size ≡ 4)) ⊎ ((d_type ≡ codes "fp16") × (size ≡ 2))
    → length payload ≡ 150528 * size
    → validate_tensor_payload
        (siglip_desc d_type model version)
        payload
        (input_options (image_options siglip_ids true))
      ≡ ok tt
unfolding validate_tensor_payload text_eq
payload_accepted payload d_type model version size (inl (p, q)) e =
    rw (p, (==_iff (length payload) 602112).1 (rw q at e)) refl
payload_accepted payload d_type model version size (inr (p, q)) e =
    rw (p, (==_iff (length payload) 301056).1 (rw q at e)) refl

-- With a descriptor that passes, what is left is the test of the service.
service_left :
    (req : InferRequest) (d_type model version : Text)
    → parse_tensor_descriptor req.meta ≡ ok (some (siglip_desc d_type model version))
    → validate_tensor_payload
        (siglip_desc d_type model version)
        req.payload
        (input_options (image_options siglip_ids true))
      ≡ ok tt
    → validate_image_tensor_task req siglip_ids true
      ≡ guard
          (is_empty (service_from_meta req.meta)
            || text_eq (service_from_meta req.meta) Names.service_siglip)
          (wants_service Names.service_siglip)
unfolding validate_image_tensor_task validate_tensor_fast_path validate_image_tensor_shape
    validate_image_service
service_left req d_type model version parsed checked = rw (parsed, checked) (refl_of_guard _)
  where
    refl_of_guard :
        (c : Bool)
        → guard c (wants_service Names.service_siglip)
          ≡ guard c (wants_service Names.service_siglip)
    refl_of_guard c = refl

abbrev service_test : Text → Result TaskError (Unit {0})
service_test s =
    guard (is_empty s || text_eq s Names.service_siglip) (wants_service Names.service_siglip)

abbrev given_or_siglip : Text → Text
given_or_siglip service =
    trim_space
      (trim_space (if is_empty (trim_space service) then Names.service_siglip else service))

passes : (c : Bool) (e : TaskError) → (guard c e ≡ ok tt) ↔ (c ≡ true)
passes c e = ground arith

service_test_iff :
    (service : Text)
    → (service_test (given_or_siglip service) ≡ ok tt)
      ↔ ((is_empty (trim_space service) ≡ true) ⊎ (trim_space service ≡ Names.service_siglip))
service_test_iff service = elim (Bool-cases (is_empty (trim_space service))) [
  | inl blank ↦ rw blank (λ _. inl refl, λ _. unfold trim_space in unfold text_eq in refl)
  | inr named ↦
      rw (named, trim_space_idem service, named)
        (
          λ e. inr ((text_eq_iff (trim_space service) Names.service_siglip).0 ((passes _ _).0 e)),
          λ s. (passes _ _).1 (elim s [
            | inl e ↦ absurd_text e
            | inr e ↦ (text_eq_iff (trim_space service) Names.service_siglip).1 e
          ]),
        )
]
  where
    absurd_text : {A : Type 0} → false ≡ true → A
    absurd_text e = cc

module _ (payload : List ℕ) (service d_type : Text) (b : Builder) where
  abbrev image_request : Builder
  image_request = for_semantic_image_tensor payload service d_type b

  image_parse :
      parse_tensor_descriptor image_request.meta
      ≡ ok (
          some (
            siglip_desc
              (normalize_lower d_type)
              (trim_space (meta_get b.meta Names.meta_model_id))
              (trim_space (meta_get b.meta Names.meta_model_version))))
  unfolding for_semantic_image_tensor with_service text_eq normalize_tensor_layout trim_space
  image_parse = simp parse-with_meta (
      parse-for_tensor_input payload Names.default_tensor_mime false
        (image_descriptor d_type image_224 Names.preprocess_siglip_2_base_patch_16_224_image) b
        (omega arith))

  image_service :
      meta_get image_request.meta Names.meta_service
      ≡ trim_space (if is_empty (trim_space service) then Names.service_siglip else service)
  unfolding for_semantic_image_tensor with_service text_eq
  image_service = simp meta_get-with_meta

  image_service_from_meta : service_from_meta image_request.meta ≡ given_or_siglip service
  unfolding service_from_meta
  image_service_from_meta = ap trim_space image_service

  -- ValidateTaskRequest accepts a request that ForSemanticImageTensor builds from a payload of the right
  -- length, with values `fp32` or `fp16`, exactly when the given service is blank or is siglip, whatever
  -- the builder held before.
  pub for_semantic_image_tensor-accepted_iff :
      (is_image : Text → Bool) (size : ℕ)
      → IsValue d_type size
      → length payload ≡ 150528 * size
      → (validate_task_request is_image (some image_request) ≡ ok tt)
        ↔ ((is_empty (trim_space service) ≡ true) ⊎ (trim_space service ≡ Names.service_siglip))
  unfolding for_semantic_image_tensor
  for_semantic_image_tensor-accepted_iff is_image size typed exact =
      let same =
        is_semantic is_image image_request refl refl
        ∙ service_left image_request (normalize_lower d_type)
            (trim_space (meta_get b.meta Names.meta_model_id))
            (trim_space (meta_get b.meta Names.meta_model_version)) image_parse
            (payload_accepted payload (normalize_lower d_type)
              (trim_space (meta_get b.meta Names.meta_model_id))
              (trim_space (meta_get b.meta Names.meta_model_version)) size typed exact)
        ∙ ap service_test (image_service_from_meta) in
      (λ e. (service_test_iff service).0 (sym same ∙ e), λ s. same ∙ (service_test_iff service).1 s)
