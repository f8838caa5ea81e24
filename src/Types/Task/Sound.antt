-- ===== src/Types/Task/Sound.antt =====
-- What the checks of a detection tensor accept.
use lumen_sdk.Base.{
  ℕ, ◌*◌, ◌%◌, ◌≡◌, inl, inr, refl, sym, ap, ◌∙◌, subst, Bool, true, not, ◌&&◌, ◌||◌, List, [], ◌∷◌,
  Option, some, Result, ok, err, ◌>>◌, guard, >>=-eq-ok, >>-eq-ok, guard-eq-ok, arith, length,
  Option-cases, ==_iff, All,
}
use lumen_sdk.Base.Int.{ℤ, pos, negsuc}
use lumen_sdk.Base.Text.{Text, codes, text_eq, text_eq_iff, trim_space}
use lumen_sdk.Types.Names
use lumen_sdk.Types.Proto.{InferRequest}
use lumen_sdk.Types.Tensor.{
  TensorDescriptor, TensorError, parse_tensor_descriptor, tensor_element_size, contains_normalized,
  any_normalized, default_tensor_d_types, normalize_lower,
}
use lumen_sdk.Types.Tensor.Payload.{
  TensorValidationOptions, validate_tensor_fast_path, validate_tensor_payload, input_options,
}
use lumen_sdk.Types.Tensor.Sound.{IsPayload, validate_tensor_payload_sound, volume, IsPositive}
use lumen_sdk.Types.Task.{
  TaskError, nil_pointer_panic, validate_det_tensor_task, det_options, as_task_error, or_nil,
  validate_det_shape, require_meta, four, is, is_multiple_of_32, wants_shape, source_keys,
}

-- What a detection tensor is: one image of three channels, in which the size of OCR images is a multiple
-- of 32, and its payload of 4 bytes for each value.
pub record IsDetTensor (req : InferRequest) (id : Text) : Type 0 where
  pub desc : TensorDescriptor
  pub height : ℕ
  pub width : ℕ
  pub parsed : parse_tensor_descriptor req.meta ≡ ok (some desc)
  pub shaped : desc.shape ≡ pos 1 ∷ pos 3 ∷ pos height ∷ pos width ∷ []
  pub payload : length req.payload ≡ 1 * (3 * (height * (width * 1))) * 4
  pub aligned : id ≡ Names.preprocess_ppocr_detection → (height % 32 ≡ 0) × (width % 32 ≡ 0)

fp32_size :
    (d_type : Text)
    → contains_normalized (codes "fp32" ∷ []) default_tensor_d_types d_type normalize_lower ≡ true
    → tensor_element_size d_type ≡ some 4
unfolding contains_normalized any_normalized tensor_element_size normalize_lower text_eq trim_space
fp32_size d_type e =
    let same : codes "fp32" ≡ d_type = (text_eq_iff (codes "fp32") d_type).0 (ground (arith, e)) in
    rw (← same) refl

four-true :
    (test : ℤ → ℤ → ℤ → ℤ → Bool) (shape : List ℤ)
    → four test shape ≡ true
    → (n c h w : ℤ) × (shape ≡ n ∷ c ∷ h ∷ w ∷ []) × (test n c h w ≡ true)
four-true test [] e = cc
four-true test (n ∷ []) e = cc
four-true test (n ∷ c ∷ []) e = cc
four-true test (n ∷ c ∷ h ∷ []) e = cc
four-true test (n ∷ c ∷ h ∷ w ∷ []) e = (n, c, h, w, refl, e)
four-true test (n ∷ c ∷ h ∷ w ∷ x ∷ shape) e = cc

is-eq-true : (n : ℕ) (z : ℤ) → is n z ≡ true → z ≡ pos n
is-eq-true n (pos m) e = ap pos ((==_iff m n).0 e)
is-eq-true n (negsuc m) e = cc

or_nil-some :
    (r : Result TensorError (Option TensorDescriptor)) {d : TensorDescriptor}
    → or_nil r ≡ some d
    → r ≡ ok (some d)
or_nil-some (ok o) e = ap ok e
or_nil-some (err x) e = cc

as_task_error-ok :
    (r : Result TensorError (Option TensorDescriptor)) {o : Option TensorDescriptor}
    → as_task_error r ≡ ok o
    → r ≡ ok o
as_task_error-ok (ok a) e = ground (arith, e)
as_task_error-ok (err x) e = cc

-- The fast path has checked the payload against the descriptor that is parsed again.
fast_path-IsPayload :
    (req : InferRequest) (o : TensorValidationOptions) (desc : TensorDescriptor)
    {found : Option TensorDescriptor}
    → parse_tensor_descriptor req.meta ≡ ok (some desc)
    → validate_tensor_fast_path (some req) o ≡ ok found
    → IsPayload desc req.payload (input_options o)
unfolding validate_tensor_fast_path
fast_path-IsPayload req o desc parsed e =
    let (unit, checked, _) =
      >>=-eq-ok (validate_tensor_payload desc req.payload (input_options o)) (λ _. ok (some desc))
        (rw parsed at e) in
    validate_tensor_payload_sound desc req.payload (input_options o) checked

record IsDetShape (desc : TensorDescriptor) (id : Text) : Type 0 where
  h : ℤ
  w : ℤ
  shaped : desc.shape ≡ pos 1 ∷ pos 3 ∷ h ∷ w ∷ []
  aligned :
      id ≡ Names.preprocess_ppocr_detection → (is_multiple_of_32 h && is_multiple_of_32 w) ≡ true

ones_and_threes : (n c : ℤ) → (is 1 n && is 3 c) ≡ true → (is 1 n ≡ true) × (is 3 c ≡ true)
ones_and_threes n c e = ground (arith, e)

implied : {a b : Bool} → a ≡ true → (not a || b) ≡ true → b ≡ true
implied h e = ground (arith, h, e)

IsDetShape-sound :
    (desc : TensorDescriptor) (id : Text) → validate_det_shape desc id ≡ ok tt → IsDetShape desc id
unfolding validate_det_shape text_eq
IsDetShape-sound desc id e =
    let (first, second) =
      >>-eq-ok (guard (four (λ n c h w. is 1 n && is 3 c) desc.shape) wants_shape) _ e in
    let (n, c, h, w, same, test) =
      four-true (λ n c h w. is 1 n && is 3 c) desc.shape (guard-eq-ok _ _ first) in
    let (one, three) = ones_and_threes n c test in
    let shaped : desc.shape ≡ pos 1 ∷ pos 3 ∷ h ∷ w ∷ [] =
      same ∙ cc (is-eq-true 1 n one, is-eq-true 3 c three) in
    record {
      h = h;
      w = w;
      shaped = shaped;
      aligned = λ ocr.
          subst (λ s. four (λ n c h w. is_multiple_of_32 h && is_multiple_of_32 w) s ≡ true) shaped
            (implied ((text_eq_iff id Names.preprocess_ppocr_detection).1 ocr)
              (guard-eq-ok _ _ second));
    }

some_eq : {a b : ℕ} → ◌≡◌ {A = Option ℕ} (some a) (some b) → a ≡ b
some_eq e = ground (arith, e)

multiples :
    (h w : ℕ)
    → (is_multiple_of_32 (pos h) && is_multiple_of_32 (pos w)) ≡ true
    → (h % 32 ≡ 0) × (w % 32 ≡ 0)
multiples h w e = ground (arith, e)

-- A detection tensor that validateDetTensorTask accepts is one image of three channels, and its payload
-- has exactly 4 bytes for each value; an OCR image's height and width are multiples of 32.
pub validate_det_tensor_task_sound :
    (req : InferRequest) (id : Text) (letterbox : Bool)
    → validate_det_tensor_task req id letterbox ≡ ok tt
    → IsDetTensor req id
unfolding validate_det_tensor_task
validate_det_tensor_task_sound req id letterbox e =
    let (found, fast, rest) =
      >>=-eq-ok (as_task_error (validate_tensor_fast_path (some req) (det_options id))) _ e in
    let checked = as_task_error-ok (validate_tensor_fast_path (some req) (det_options id)) fast in
    elim (Option-cases (or_nil (parse_tensor_descriptor req.meta))) [
      | inl nil ↦ absurd (no_panic (rw nil at rest))
      | inr (desc, there) ↦
          let parsed = or_nil-some (parse_tensor_descriptor req.meta) there in
          let shape_checked =
            (>>-eq-ok (validate_det_shape desc id) _
              (>>-eq-ok (validate_det_shape desc id >> require_meta req.meta source_keys) _
                (rw there at rest)).0).0 in
          of_shape desc parsed (fast_path-IsPayload req (det_options id) desc parsed checked)
            (IsDetShape-sound desc id shape_checked)
    ]
  where
    no_panic : ◌≡◌ {A = Result TaskError (Unit {0})} (err nil_pointer_panic) (ok tt) → ⊥
    no_panic e = cc

    of_shape :
        (desc : TensorDescriptor)
        → parse_tensor_descriptor req.meta ≡ ok (some desc)
        → IsPayload desc req.payload (input_options (det_options id))
        → IsDetShape desc id
        → IsDetTensor req id
    of_shape desc parsed p s =
        go s.h s.w s.shaped s.aligned (subst (All IsPositive) s.shaped p.positive)
      where
        go :
            (h w : ℤ)
            → desc.shape ≡ pos 1 ∷ pos 3 ∷ h ∷ w ∷ []
            → (id ≡ Names.preprocess_ppocr_detection
                → (is_multiple_of_32 h && is_multiple_of_32 w) ≡ true)
            → All IsPositive (pos 1 ∷ pos 3 ∷ h ∷ w ∷ [])
            → IsDetTensor req id
        go (negsuc h) w shaped aligned (a, (b, (c, rest))) = absurd c
        go (pos h) (negsuc w) shaped aligned (a, (b, (c, (d, rest)))) = absurd d
        go (pos h) (pos w) shaped aligned q = record {
          desc = desc;
          height = h;
          width = w;
          parsed = parsed;
          shaped = shaped;
          payload =
              p.exact
              ∙ ap (λ s. volume s * p.size) shaped
              ∙ ap (λ n. 1 * (3 * (h * (w * 1))) * n)
                  (some_eq (sym p.sized ∙ fp32_size desc.d_type p.typed));
          aligned = λ ocr. multiples h w (aligned ocr);
        }
