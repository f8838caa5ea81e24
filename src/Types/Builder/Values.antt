-- ===== src/Types/Builder/Values.antt =====
-- The values that the builders of pkg/types/builders.go leave in the metadata, key by key.
use lumen_sdk.Base.{
  ℕ, ◌≡◌, refl, ◌∙◌, Bool, true, false, not, ◌&&◌, if◌then◌else◌, List, [], none, some, arith,
}
use lumen_sdk.Base.Dict.{lookup, lookup-insert}
use lumen_sdk.Base.Text.{Text, codes, text_eq, is_empty, trim_space}
use lumen_sdk.Types.Names
use lumen_sdk.Types.Proto.{meta_get}
use lumen_sdk.Types.Tensor.{TensorDescriptor, normalize_lower, normalize_tensor_layout}
use lumen_sdk.Types.Tensor.Marshal.{marshal_shape}
use lumen_sdk.Types.Builder.{
  Builder, when, with_meta, with_input_kind, with_tensor_descriptor, with_preprocess_id,
  for_tensor_input,
}

abbrev pub value_of : Builder → Text → Text
value_of b key = meta_get b.meta key

pub meta_get-with_meta :
    (key asked value : Text) (b : Builder)
    → meta_get (with_meta key value b).meta asked
      ≡ (if text_eq key asked then value else meta_get b.meta asked)
unfolding with_meta meta_get lookup
meta_get-with_meta key asked value b = ground (
  arith,
  lookup-insert key asked value [],
  lookup-insert key asked value (elim b.meta [ none ↦ [] | some m ↦ m ]),
)

pub meta_get-when :
    (c : Bool) (key asked value : Text) (b : Builder)
    → meta_get (when c (with_meta key value) b).meta asked
      ≡ (if text_eq key asked && c then value else meta_get b.meta asked)
meta_get-when true key asked value b =
    meta_get-with_meta key asked value b ∙ both (text_eq key asked)
  where
    both :
        (t : Bool)
        → (if t then value else meta_get b.meta asked)
          ≡ (if t && true then value else meta_get b.meta asked)
    both true = refl
    both false = refl
meta_get-when false key asked value b = neither (text_eq key asked)
  where
    neither :
        (t : Bool) → meta_get b.meta asked ≡ (if t && false then value else meta_get b.meta asked)
    neither true = refl
    neither false = refl

meta_get-with_preprocess_id :
    (id asked : Text) (b : Builder)
    → meta_get (with_preprocess_id id b).meta asked ≡ (
        if text_eq Names.meta_preprocess_skip asked
        then codes "true"
        else if text_eq Names.meta_preprocess_id asked
        then trim_space id
        else meta_get b.meta asked)
unfolding with_preprocess_id
meta_get-with_preprocess_id id asked b = simp meta_get-with_meta

meta_get-when-with_preprocess_id :
    (c : Bool) (id asked : Text) (b : Builder)
    → meta_get (when c (with_preprocess_id id) b).meta asked ≡ (
        if text_eq Names.meta_preprocess_skip asked && c
        then codes "true"
        else if text_eq Names.meta_preprocess_id asked && c
        then trim_space id
        else meta_get b.meta asked)
meta_get-when-with_preprocess_id true id asked b =
    ground (arith, meta_get-with_preprocess_id id asked b)
meta_get-when-with_preprocess_id false id asked b = ground arith

ruleset written_values = (meta_get-with_meta, meta_get-when, meta_get-when-with_preprocess_id)

module _ (payload : List ℕ) (mime : Text) (is_nil : Bool) (desc : TensorDescriptor)
    (b : Builder) where
  abbrev pub built : Builder
  built = for_tensor_input payload mime is_nil desc b

  pub value_input_kind : value_of built Names.meta_input_kind ≡ codes "tensor"
  unfolding for_tensor_input with_tensor_descriptor with_input_kind text_eq
  value_input_kind = simp written_values

  pub value_format :
      value_of built Names.meta_tensor_format
      ≡ (if not (is_empty desc.format) then normalize_lower desc.format else codes "contiguous")
  unfolding for_tensor_input with_tensor_descriptor with_input_kind text_eq
  value_format = simp written_values

  pub value_byte_order :
      value_of built Names.meta_tensor_byte_order
      ≡ (if not (is_empty desc.byte_order) then normalize_lower desc.byte_order else codes "little")
  unfolding for_tensor_input with_tensor_descriptor with_input_kind text_eq
  value_byte_order = simp written_values

  pub value_d_type : value_of built Names.meta_tensor_d_type ≡ normalize_lower desc.d_type
  unfolding for_tensor_input with_tensor_descriptor with_input_kind text_eq
  value_d_type = simp written_values

  pub value_shape : value_of built Names.meta_tensor_shape ≡ marshal_shape is_nil desc.shape
  unfolding for_tensor_input with_tensor_descriptor with_input_kind text_eq
  value_shape = simp written_values

  pub value_layout : value_of built Names.meta_tensor_layout ≡ normalize_tensor_layout desc.layout
  unfolding for_tensor_input with_tensor_descriptor with_input_kind text_eq
  value_layout = simp written_values

  pub value_preprocess_id : value_of built Names.meta_preprocess_id ≡ (
      if not (is_empty desc.preprocess_id)
      then trim_space desc.preprocess_id
      else value_of b Names.meta_preprocess_id)
  unfolding for_tensor_input with_tensor_descriptor with_input_kind text_eq
  value_preprocess_id = simp written_values

  pub value_preprocess_skip : value_of built Names.meta_preprocess_skip ≡ codes "true"
  unfolding for_tensor_input with_tensor_descriptor with_input_kind text_eq
  value_preprocess_skip = simp written_values (either (not (is_empty desc.preprocess_id)))
    where
      either : (c : Bool) → (if c then codes "true" else codes "true") ≡ codes "true"
      either true = refl
      either false = refl

  pub value_model_id : value_of built Names.meta_model_id ≡ (
      if not (is_empty desc.model_id)
      then trim_space desc.model_id
      else value_of b Names.meta_model_id)
  unfolding for_tensor_input with_tensor_descriptor with_input_kind text_eq
  value_model_id = simp written_values

  pub value_model_version : value_of built Names.meta_model_version ≡ (
      if not (is_empty desc.model_version)
      then trim_space desc.model_version
      else value_of b Names.meta_model_version)
  unfolding for_tensor_input with_tensor_descriptor with_input_kind text_eq
  value_model_version = simp written_values

  -- Any other key keeps its value.
  pub value_service : value_of built Names.meta_service ≡ value_of b Names.meta_service
  unfolding for_tensor_input with_tensor_descriptor with_input_kind text_eq
  value_service = simp written_values
