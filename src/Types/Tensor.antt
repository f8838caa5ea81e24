-- ===== src/Types/Tensor.antt =====
-- pkg/types/tensor_metadata.go: the tensor descriptor that a message carries in its metadata, and the
-- check of a tensor payload against it. An int64 dimension is an integer; errors are values.
pub mod Shape
pub mod Marshal
pub mod RoundTrip
pub mod Payload
pub mod Sound
use lumen_sdk.Base.{
  ℕ, ◌+◌, ◌-◌, ◌*◌, ◌/◌, ◌^◌, Bool, true, false, not, ◌&&◌, ◌||◌, if◌then◌else◌, List, [], ◌∷◌,
  Option, none, some, ltb, ◌==◌, Result, ok, err, ◌>>=◌, ◌>>◌, guard, length,
}
use lumen_sdk.Base.Int.{ℤ, pos, negsuc}
use lumen_sdk.Base.Text.{Text, codes, text_eq, is_empty, trim_space, to_lower, to_upper, has_prefix}
use lumen_sdk.Types.Proto.{Meta, meta_get, InferRequest, InferResponse}
use lumen_sdk.Types.Names.{
  meta_input_kind, meta_tensor_d_type, meta_tensor_shape, meta_tensor_layout, meta_tensor_format,
  meta_tensor_byte_order, meta_preprocess_id, meta_preprocess_skip, meta_model_id,
  meta_model_version, meta_output_kind, meta_output_tensor_d_type, meta_output_tensor_shape,
  meta_output_tensor_layout, meta_output_tensor_format, meta_output_tensor_byte_order,
  default_tensor_mime,
}
use lumen_sdk.Types.Tensor.Shape.{unmarshal_shape}

pub record TensorDescriptor : Type 0 where
  pub d_type : Text
  pub shape : List ℤ
  pub layout : Text
  pub format : Text
  pub byte_order : Text
  pub preprocess_id : Text
  pub preprocess_skip : Bool
  pub model_id : Text
  pub model_version : Text

pub data TensorError : Type 0 where
  nil_message : TensorError
  unsupported : (key value : Text) → TensorError
  missing : (key : Text) → TensorError
  invalid_shape : (key : Text) → TensorError
  not_skipped : TensorError
  invalid_dimension : (index : ℕ) → ℤ → TensorError
  count_overflow byte_length_overflow : TensorError
  length_mismatch : (expected got : ℕ) → TensorError
  batched : Option ℤ → TensorError
  wrong_result_mime : Text → TensorError

unfoldable pub normalize_lower : Text → Text
unfolding to_lower trim_space
normalize_lower value = to_lower (trim_space value)

unfoldable pub normalize_tensor_layout : Text → Text
unfolding to_upper trim_space
normalize_tensor_layout value = to_upper (trim_space value)

abbrev pub is_any_of : List Text → Text → Bool
is_any_of [] s = false
is_any_of (t ∷ ts) s = text_eq t s || is_any_of ts s

-- strconv.ParseBool
unfoldable pub bool_meta_is_true : Text → Bool
unfolding trim_space text_eq
bool_meta_is_true value =
    is_any_of (codes "1" ∷ codes "t" ∷ codes "T" ∷ codes "TRUE" ∷ codes "true" ∷ codes "True" ∷ [])
      (trim_space value)

unfoldable pub parse_shape : Text → Text → Result TensorError (List ℤ)
unfolding trim_space unmarshal_shape
parse_shape key value =
    let shape_value = trim_space value in
    if is_empty shape_value then ok [] else elim (unmarshal_shape shape_value) [
      | none ↦ err (invalid_shape key)
      | some shape ↦ ok shape
    ]

-- `none` is a message with no tensor.
abbrev pub kind_is : Text → Text → Text → Result TensorError Bool
kind_is key value kind =
    if is_empty kind || text_eq kind (codes "raw")
    then ok false
    else if text_eq kind (codes "tensor")
    then ok true
    else err (unsupported key value)

unfoldable pub parse_tensor_descriptor : Meta → Result TensorError (Option TensorDescriptor)
unfolding normalize_lower normalize_tensor_layout bool_meta_is_true parse_shape meta_get text_eq
    trim_space
parse_tensor_descriptor meta = do
  is_tensor ←
      kind_is meta_input_kind (meta_get meta meta_input_kind)
        (normalize_lower (meta_get meta meta_input_kind))
  if not is_tensor then ok none else do
    shape ← parse_shape meta_tensor_shape (meta_get meta meta_tensor_shape)
    ok (
        some (record {
          d_type = normalize_lower (meta_get meta meta_tensor_d_type);
          shape = shape;
          layout = normalize_tensor_layout (meta_get meta meta_tensor_layout);
          format = normalize_lower (meta_get meta meta_tensor_format);
          byte_order = normalize_lower (meta_get meta meta_tensor_byte_order);
          preprocess_id = trim_space (meta_get meta meta_preprocess_id);
          preprocess_skip = bool_meta_is_true (meta_get meta meta_preprocess_skip);
          model_id = trim_space (meta_get meta meta_model_id);
          model_version = trim_space (meta_get meta meta_model_version);
        }))

unfoldable pub parse_output_tensor_descriptor : Meta → Result TensorError (Option TensorDescriptor)
unfolding normalize_lower normalize_tensor_layout parse_shape meta_get text_eq trim_space
parse_output_tensor_descriptor meta = do
  is_tensor ←
      kind_is meta_output_kind (meta_get meta meta_output_kind)
        (normalize_lower (meta_get meta meta_output_kind))
  if not is_tensor then ok none else do
    shape ← parse_shape meta_output_tensor_shape (meta_get meta meta_output_tensor_shape)
    ok (
        some (record {
          d_type = normalize_lower (meta_get meta meta_output_tensor_d_type);
          shape = shape;
          layout = normalize_tensor_layout (meta_get meta meta_output_tensor_layout);
          format = normalize_lower (meta_get meta meta_output_tensor_format);
          byte_order = normalize_lower (meta_get meta meta_output_tensor_byte_order);
          preprocess_id = [];
          preprocess_skip = false;
          model_id = trim_space (meta_get meta meta_model_id);
          model_version = trim_space (meta_get meta meta_model_version);
        }))

pub record CoreOptions : Type 0 where
  pub allowed_d_types : List Text
  pub allowed_layouts : List Text
  pub allowed_formats : List Text
  pub allowed_byte_orders : List Text
  pub allowed_preprocess_ids : List Text
  pub d_type_key : Text
  pub shape_key : Text
  pub layout_key : Text
  pub format_key : Text
  pub byte_order_key : Text
  pub disable_single_batch_check : Bool
  pub require_preprocess_contract : Bool

abbrev pub or_key : Text → Text → Text
or_key [] key = key
or_key (c ∷ s) key = c ∷ s

unfoldable pub with_default_keys : CoreOptions → CoreOptions
with_default_keys o = record o {
  d_type_key = or_key o.d_type_key meta_tensor_d_type;
  shape_key = or_key o.shape_key meta_tensor_shape;
  layout_key = or_key o.layout_key meta_tensor_layout;
  format_key = or_key o.format_key meta_tensor_format;
  byte_order_key = or_key o.byte_order_key meta_tensor_byte_order;
}

abbrev pub default_tensor_d_types : List Text
default_tensor_d_types = codes "fp32" ∷ codes "fp16" ∷ codes "uint8" ∷ codes "int64" ∷ []

abbrev pub default_tensor_layouts : List Text
default_tensor_layouts = codes "NCHW" ∷ codes "NHWC" ∷ codes "CHW" ∷ []

unfoldable pub any_normalized : (Text → Text) → List Text → Text → Bool
unfolding text_eq
any_normalized normalize [] target = false
any_normalized normalize (value ∷ values) target =
    text_eq (normalize value) target || any_normalized normalize values target

abbrev pub or_defaults : List Text → List Text → List Text
or_defaults [] defaults = defaults
or_defaults (value ∷ values) defaults = value ∷ values

unfoldable pub contains_normalized : List Text → List Text → Text → (Text → Text) → Bool
unfolding any_normalized
contains_normalized values defaults target normalize =
    any_normalized normalize (or_defaults values defaults) target

unfoldable pub contains_exact : List Text → Text → Bool
unfolding any_normalized trim_space
contains_exact values target = any_normalized trim_space values target

abbrev pub max_int64 : ℕ
max_int64 = 2 ^ 63 - 1

-- The loop of tensorElementCount from the dimension at `index` on.
unfoldable pub count_elements : ℕ → ℕ → List ℤ → Result TensorError ℕ
count_elements index count [] = ok count
count_elements index count (negsuc d ∷ dims) = err (invalid_dimension index (negsuc d))
count_elements index count (pos d ∷ dims) =
    let rest = count_elements (index + 1) (count * d) dims in
    if d == 0
    then err (invalid_dimension index (pos 0))
    else if ltb (max_int64 / d) count
    then err count_overflow
    else rest

unfoldable pub tensor_element_count : List ℤ → Result TensorError ℕ
unfolding count_elements
tensor_element_count shape = count_elements 0 1 shape

abbrev pub size_of : Text → Option ℕ
size_of d_type =
    if text_eq d_type (codes "fp32")
    then some 4
    else if text_eq d_type (codes "fp16")
    then some 2
    else if text_eq d_type (codes "uint8")
    then some 1
    else if text_eq d_type (codes "int64")
    then some 8
    else none

unfoldable pub tensor_element_size : Text → Option ℕ
unfolding normalize_lower text_eq
tensor_element_size d_type = size_of (normalize_lower d_type)

abbrev pub require_size : Text → Text → Option ℕ → Result TensorError ℕ
require_size key value none = err (unsupported key value)
require_size key value (some n) = ok n

abbrev pub first_dimension : List ℤ → Option ℤ
first_dimension [] = none
first_dimension (d ∷ dims) = some d

abbrev pub is_one : Option ℤ → Bool
is_one (some (pos n)) = n == 1
is_one _ = false
