-- ===== src/Types/Tensor/Payload.antt =====
-- pkg/types/tensor_metadata.go: validateTensorPayload, and the two checks of a whole message.
use lumen_sdk.Base.{
  ℕ, ◌*◌, ◌/◌, Bool, true, false, not, ◌||◌, if◌then◌else◌, List, [], ◌∷◌, Option, none, some, ltb,
  ◌==◌, Result, ok, err, ◌>>=◌, ◌>>◌, guard, length,
}
use lumen_sdk.Base.Text.{Text, codes, text_eq, is_empty, trim_space, has_prefix}
use lumen_sdk.Types.Names.{
  meta_tensor_d_type, meta_tensor_shape, meta_tensor_layout, meta_tensor_format,
  meta_tensor_byte_order, meta_preprocess_id, meta_output_tensor_d_type, meta_output_tensor_shape,
  meta_output_tensor_layout, meta_output_tensor_format, meta_output_tensor_byte_order,
  default_tensor_mime,
}
use lumen_sdk.Types.Proto.{InferRequest, InferResponse}
use lumen_sdk.Types.Tensor.{
  TensorDescriptor, TensorError, CoreOptions, nil_message, unsupported, missing, not_skipped,
  byte_length_overflow, length_mismatch, batched, wrong_result_mime, normalize_lower,
  normalize_tensor_layout, parse_tensor_descriptor, parse_output_tensor_descriptor,
  with_default_keys, default_tensor_d_types, default_tensor_layouts, contains_normalized,
  contains_exact, max_int64, tensor_element_count, tensor_element_size, require_size,
  first_dimension, is_one,
}

abbrev pub Checked : Type 0
Checked = Result TensorError (Unit {0})

unfoldable pub check_present : TensorDescriptor → CoreOptions → Checked
check_present desc o =
    guard (not (is_empty desc.d_type)) (missing o.d_type_key)
    >> guard (not (is_empty desc.layout)) (missing o.layout_key)
    >> guard (not (is_empty desc.format)) (missing o.format_key)
    >> guard (not (is_empty desc.byte_order)) (missing o.byte_order_key)
    >> guard (ltb 0 (length desc.shape)) (missing o.shape_key)

unfoldable pub check_contract : TensorDescriptor → CoreOptions → Checked
check_contract desc o =
    if o.require_preprocess_contract
    then guard (not (is_empty desc.preprocess_id)) (missing meta_preprocess_id)
      >> guard desc.preprocess_skip not_skipped
    else ok tt

unfoldable pub check_allowed : TensorDescriptor → CoreOptions → Checked
unfolding contains_normalized contains_exact normalize_lower normalize_tensor_layout
check_allowed desc o =
    guard (contains_normalized o.allowed_d_types default_tensor_d_types desc.d_type normalize_lower)
      (unsupported o.d_type_key desc.d_type)
    >> guard
        (contains_normalized o.allowed_layouts default_tensor_layouts desc.layout
          normalize_tensor_layout)
        (unsupported o.layout_key desc.layout)
    >> guard
        (contains_normalized o.allowed_formats (codes "contiguous" ∷ []) desc.format
          normalize_lower)
        (unsupported o.format_key desc.format)
    >> guard
        (contains_normalized o.allowed_byte_orders (codes "little" ∷ []) desc.byte_order
          normalize_lower)
        (unsupported o.byte_order_key desc.byte_order)
    >> guard
        (not o.require_preprocess_contract
          || (not (ltb 0 (length o.allowed_preprocess_ids))
              || contains_exact o.allowed_preprocess_ids desc.preprocess_id))
        (unsupported meta_preprocess_id desc.preprocess_id)

unfoldable pub check_length : TensorDescriptor → List ℕ → CoreOptions → Checked
unfolding tensor_element_count tensor_element_size
check_length desc payload o = tensor_element_count desc.shape >>= λ count.
    require_size o.d_type_key desc.d_type (tensor_element_size desc.d_type) >>= λ size.
    guard (not (ltb (max_int64 / size) count)) byte_length_overflow
    >> guard (length payload == count * size) (length_mismatch (count * size) (length payload))

unfoldable pub check_batch : TensorDescriptor → CoreOptions → Checked
unfolding has_prefix
check_batch desc o =
    guard
      (o.disable_single_batch_check
        || (not (has_prefix desc.layout (codes "N")) || is_one (first_dimension desc.shape)))
      (batched (first_dimension desc.shape))

-- The checks in the order of the code, with the keys filled in.
unfoldable pub run_checks : TensorDescriptor → List ℕ → CoreOptions → Checked
run_checks desc payload o =
    check_present desc o
    >> check_contract desc o
    >> check_allowed desc o
    >> check_length desc payload o
    >> check_batch desc o

unfoldable pub validate_tensor_payload : TensorDescriptor → List ℕ → CoreOptions → Checked
unfolding run_checks check_present check_contract check_allowed check_length check_batch
    with_default_keys
validate_tensor_payload desc payload o = run_checks desc payload (with_default_keys o)

pub record TensorValidationOptions : Type 0 where
  pub allowed_d_types : List Text
  pub allowed_layouts : List Text
  pub allowed_formats : List Text
  pub allowed_byte_orders : List Text
  pub allowed_preprocess_ids : List Text
  pub disable_single_batch_check : Bool

abbrev pub no_options : TensorValidationOptions
no_options = record {
  allowed_d_types = [];
  allowed_layouts = [];
  allowed_formats = [];
  allowed_byte_orders = [];
  allowed_preprocess_ids = [];
  disable_single_batch_check = false;
}

abbrev pub input_options : TensorValidationOptions → CoreOptions
input_options o = record {
  allowed_d_types = o.allowed_d_types;
  allowed_layouts = o.allowed_layouts;
  allowed_formats = o.allowed_formats;
  allowed_byte_orders = o.allowed_byte_orders;
  allowed_preprocess_ids = o.allowed_preprocess_ids;
  d_type_key = meta_tensor_d_type;
  shape_key = meta_tensor_shape;
  layout_key = meta_tensor_layout;
  format_key = meta_tensor_format;
  byte_order_key = meta_tensor_byte_order;
  disable_single_batch_check = o.disable_single_batch_check;
  require_preprocess_contract = true;
}

abbrev pub output_options : TensorValidationOptions → CoreOptions
output_options o = record {
  allowed_d_types = o.allowed_d_types;
  allowed_layouts = o.allowed_layouts;
  allowed_formats = o.allowed_formats;
  allowed_byte_orders = o.allowed_byte_orders;
  allowed_preprocess_ids = [];
  d_type_key = meta_output_tensor_d_type;
  shape_key = meta_output_tensor_shape;
  layout_key = meta_output_tensor_layout;
  format_key = meta_output_tensor_format;
  byte_order_key = meta_output_tensor_byte_order;
  disable_single_batch_check = o.disable_single_batch_check;
  require_preprocess_contract = false;
}

abbrev pub check_if_tensor :
    Option TensorDescriptor
    → (TensorDescriptor → Checked)
    → Result TensorError (Option TensorDescriptor)
check_if_tensor none check = ok none
check_if_tensor (some desc) check = check desc >>= λ _. ok (some desc)

-- ValidateTensorFastPath
unfoldable pub validate_tensor_fast_path :
    Option InferRequest → TensorValidationOptions → Result TensorError (Option TensorDescriptor)
unfolding parse_tensor_descriptor validate_tensor_payload
validate_tensor_fast_path none o = err nil_message
validate_tensor_fast_path (some req) o = parse_tensor_descriptor req.meta >>= λ found.
    check_if_tensor found (λ desc. validate_tensor_payload desc req.payload (input_options o))

-- ValidateTensorResponse; its options have no list of preprocessing steps, so that one is not read.
unfoldable pub validate_tensor_response :
    Option InferResponse → TensorValidationOptions → Result TensorError (Option TensorDescriptor)
unfolding parse_output_tensor_descriptor validate_tensor_payload text_eq trim_space
validate_tensor_response none o = err nil_message
validate_tensor_response (some resp) o = parse_output_tensor_descriptor resp.meta >>= λ found.
    check_if_tensor found (λ desc.
      guard (text_eq (trim_space resp.result_mime) default_tensor_mime)
        (wrong_result_mime resp.result_mime)
      >> validate_tensor_payload desc resp.result (output_options o))
