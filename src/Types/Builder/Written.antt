-- ===== src/Types/Builder/Written.antt =====
-- The descriptor that pkg/types/builders.go writes into the metadata, as pkg/types/tensor_metadata.go parses it.
use lumen_sdk.Base.{
  ℕ, ◌≡◌, refl, ◌∙◌, Bool, true, false, not, if◌then◌else◌, List, [], ◌∷◌, some, Result, ok, All,
}
use lumen_sdk.Base.Int.{ℤ}
use lumen_sdk.Base.Text.{
  Text, codes, text_eq, is_empty, is_space, trim, trim_space, trim_space_idem,
}
use lumen_sdk.Base.Text.Case.{lower_trimmed_idem, upper_trimmed_idem}
use lumen_sdk.Base.Text.Trimmed.{trim-append}
use lumen_sdk.Types.Names
use lumen_sdk.Types.Proto.{Meta, meta_get}
use lumen_sdk.Types.Tensor.{
  TensorDescriptor, TensorError, normalize_lower, normalize_tensor_layout, parse_tensor_descriptor,
  parse_shape, bool_meta_is_true,
}
use lumen_sdk.Types.Tensor.Marshal.{marshal_shape}
use lumen_sdk.Types.Tensor.RoundTrip.{IsInt64, unmarshal_shape-marshal_shape}
use lumen_sdk.Types.Builder.{Builder, for_tensor_input}
use lumen_sdk.Types.Builder.Values.{
  value_input_kind, value_format, value_byte_order, value_d_type, value_shape, value_layout,
  value_preprocess_id, value_preprocess_skip, value_model_id, value_model_version,
}

-- The descriptor as it is written: in lower or upper case and trimmed, with the values that the v1
-- contract fixes where the descriptor has none, and what `before` says where it names no step or model.
abbrev pub written : TensorDescriptor → Meta → TensorDescriptor
written desc before = record {
  d_type = normalize_lower desc.d_type;
  shape = desc.shape;
  layout = normalize_tensor_layout desc.layout;
  format = if not (is_empty desc.format) then normalize_lower desc.format else codes "contiguous";
  byte_order =
      if not (is_empty desc.byte_order) then normalize_lower desc.byte_order else codes "little";
  preprocess_id =
      if not (is_empty desc.preprocess_id)
      then trim_space desc.preprocess_id
      else trim_space (meta_get before Names.meta_preprocess_id);
  preprocess_skip = true;
  model_id =
      if not (is_empty desc.model_id)
      then trim_space desc.model_id
      else trim_space (meta_get before Names.meta_model_id);
  model_version =
      if not (is_empty desc.model_version)
      then trim_space desc.model_version
      else trim_space (meta_get before Names.meta_model_version);
}

trimmed_shape :
    (is_nil : Bool) (shape : List ℤ)
    → trim_space (marshal_shape is_nil shape) ≡ marshal_shape is_nil shape
unfolding trim_space marshal_shape is_space trim
trimmed_shape true [] = refl
trimmed_shape false [] = refl
trimmed_shape is_nil (d ∷ dims) =
    trim-append is_space (codes "[") _ (codes "]") (λ e. cc) (λ e. cc) refl refl

parse_shape-marshal_shape :
    (key : Text) (is_nil : Bool) (shape : List ℤ)
    → All IsInt64 shape
    → parse_shape key (marshal_shape is_nil shape) ≡ ok shape
unfolding parse_shape marshal_shape
parse_shape-marshal_shape key is_nil shape h =
    rw (trimmed_shape is_nil shape, unmarshal_shape-marshal_shape is_nil shape h)
      (some_text is_nil shape)
  where
    some_text :
        (is_nil : Bool) (shape : List ℤ)
        → ◌≡◌ {A = Result TensorError (List ℤ)}
            (if is_empty (marshal_shape is_nil shape) then ok [] else ok shape)
            (ok shape)
    some_text true [] = refl
    some_text false [] = refl
    some_text is_nil (d ∷ dims) = refl

parse_of :
    (m : Meta) {shape : List ℤ}
    → meta_get m Names.meta_input_kind ≡ codes "tensor"
    → parse_shape Names.meta_tensor_shape (meta_get m Names.meta_tensor_shape) ≡ ok shape
    → parse_tensor_descriptor m
      ≡ ok (
          some (record {
            d_type = normalize_lower (meta_get m Names.meta_tensor_d_type);
            shape = shape;
            layout = normalize_tensor_layout (meta_get m Names.meta_tensor_layout);
            format = normalize_lower (meta_get m Names.meta_tensor_format);
            byte_order = normalize_lower (meta_get m Names.meta_tensor_byte_order);
            preprocess_id = trim_space (meta_get m Names.meta_preprocess_id);
            preprocess_skip = bool_meta_is_true (meta_get m Names.meta_preprocess_skip);
            model_id = trim_space (meta_get m Names.meta_model_id);
            model_version = trim_space (meta_get m Names.meta_model_version);
          }))
unfolding parse_tensor_descriptor normalize_lower text_eq
parse_of m h k = rw (h, k) refl

again :
    (value : Text) (c : Bool) (start : Text)
    → normalize_lower start ≡ start
    → normalize_lower (if c then normalize_lower value else start)
      ≡ (if c then normalize_lower value else start)
unfolding normalize_lower
again value true start h = lower_trimmed_idem value
again value false start h = h

trim_either :
    (value : Text) (c : Bool) (before : Text)
    → trim_space (if c then trim_space value else before)
      ≡ (if c then trim_space value else trim_space before)
trim_either value true before = trim_space_idem value
trim_either value false before = refl

plain_words :
    (normalize_lower (codes "contiguous") ≡ codes "contiguous")
    × (normalize_lower (codes "little") ≡ codes "little")
    × (bool_meta_is_true (codes "true") ≡ true)
unfolding normalize_lower bool_meta_is_true
plain_words = (refl, refl, refl)

-- The descriptor that ParseTensorDescriptor reads from a request that ForTensorInput has built is the one
-- that was given, normalised, whatever metadata the request had before, if the dimensions are int64.
-- Where the given descriptor names no preprocessing step, model or model version, those of the earlier
-- metadata stay.
pub parse-for_tensor_input :
    (payload : List ℕ) (mime : Text) (is_nil : Bool) (desc : TensorDescriptor) (b : Builder)
    → All IsInt64 desc.shape
    → parse_tensor_descriptor (for_tensor_input payload mime is_nil desc b).meta
      ≡ ok (some (written desc b.meta))
unfolding normalize_lower normalize_tensor_layout
parse-for_tensor_input payload mime is_nil desc b h =
    parse_of built.meta {shape = desc.shape} (value_input_kind payload mime is_nil desc b) (
      rw (value_shape payload mime is_nil desc b)
        (parse_shape-marshal_shape Names.meta_tensor_shape is_nil desc.shape h))
    ∙ rw
        (
          value_d_type payload mime is_nil desc b,
          value_layout payload mime is_nil desc b,
          value_format payload mime is_nil desc b,
          value_byte_order payload mime is_nil desc b,
          value_preprocess_id payload mime is_nil desc b,
          value_preprocess_skip payload mime is_nil desc b,
          value_model_id payload mime is_nil desc b,
          value_model_version payload mime is_nil desc b,
          lower_trimmed_idem desc.d_type,
          upper_trimmed_idem desc.layout,
          again desc.format (not (is_empty desc.format)) (codes "contiguous") plain_words.0,
          again desc.byte_order (not (is_empty desc.byte_order)) (codes "little") plain_words.1,
          trim_either desc.preprocess_id (not (is_empty desc.preprocess_id)) _,
          trim_either desc.model_id (not (is_empty desc.model_id)) _,
          trim_either desc.model_version (not (is_empty desc.model_version)) _,
          plain_words.2,
        )
        refl
  where
    built : Builder
    built = for_tensor_input payload mime is_nil desc b
