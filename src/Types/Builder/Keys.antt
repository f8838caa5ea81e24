-- ===== src/Types/Builder/Keys.antt =====
-- Metadata of other keys beside a tensor descriptor, and the numbers that the builders write there.
use lumen_sdk.Base.{
  ℕ, zero, suc, ◌+◌, ◌/◌, ◌%◌, ◌≤◌, ◌<◌, ◌≡◌, refl, ◌∙◌, Bool, false, ◌||◌, List, [], ◌∷◌, leb,
  arith, Bool-cases, inl, inr, All,
}
use lumen_sdk.Base.Int.{ℤ, pos, negsuc}
use lumen_sdk.Base.Text.{Text, text_eq, is_empty, is_space, trim_space, digits, itoa}
use lumen_sdk.Base.Text.Trimmed.{is_empty-trim}
use lumen_sdk.Types.Names
use lumen_sdk.Types.Proto.{meta_get}
use lumen_sdk.Types.Tensor.{parse_tensor_descriptor}
use lumen_sdk.Types.Tensor.Marshal.{format_int}
use lumen_sdk.Types.Builder.{Builder, with_meta}
use lumen_sdk.Types.Builder.Values.{meta_get-with_meta}

abbrev descriptor_keys : List Text
descriptor_keys =
    Names.meta_input_kind ∷ Names.meta_tensor_d_type ∷ Names.meta_tensor_shape
    ∷ Names.meta_tensor_layout ∷ Names.meta_tensor_format ∷ Names.meta_tensor_byte_order
    ∷ Names.meta_preprocess_id ∷ Names.meta_preprocess_skip ∷ Names.meta_model_id
    ∷ Names.meta_model_version ∷ []

abbrev pub equals_any : Text → List Text → Bool
equals_any key [] = false
equals_any key (asked ∷ rest) = text_eq key asked || equals_any key rest

-- The key is none of the ten that ParseTensorDescriptor reads.
abbrev pub IsOther : Text → Type 0
IsOther key = equals_any key descriptor_keys ≡ false

neither : (s t : Bool) → (s || t) ≡ false → (s ≡ false) × (t ≡ false)
neither s t h = ground (arith, h)

All-other :
    (key : Text) (keys : List Text)
    → equals_any key keys ≡ false
    → All (λ asked. text_eq key asked ≡ false) keys
All-other key [] h = tt
All-other key (asked ∷ rest) h =
    let (first, later) = neither (text_eq key asked) (equals_any key rest) h in
    (first, All-other key rest later)

other_value :
    (key asked value : Text) (b : Builder)
    → text_eq key asked ≡ false
    → meta_get (with_meta key value b).meta asked ≡ meta_get b.meta asked
other_value key asked value b h = meta_get-with_meta key asked value b ∙ rw h

pub parse-with_meta :
    (key value : Text) (b : Builder)
    → IsOther key
    → parse_tensor_descriptor (with_meta key value b).meta ≡ parse_tensor_descriptor b.meta
unfolding parse_tensor_descriptor
parse-with_meta key value b h = go (All-other key descriptor_keys h)
  where
    go :
        All (λ asked. text_eq key asked ≡ false) descriptor_keys
        → parse_tensor_descriptor (with_meta key value b).meta ≡ parse_tensor_descriptor b.meta
    go (kind, (d_type, (shape, (layout, (format, (order, (id, (skip, (model, (version, _)))))))))) =
        rw
          (
            other_value key Names.meta_input_kind value b kind,
            other_value key Names.meta_tensor_d_type value b d_type,
            other_value key Names.meta_tensor_shape value b shape,
            other_value key Names.meta_tensor_layout value b layout,
            other_value key Names.meta_tensor_format value b format,
            other_value key Names.meta_tensor_byte_order value b order,
            other_value key Names.meta_preprocess_id value b id,
            other_value key Names.meta_preprocess_skip value b skip,
            other_value key Names.meta_model_id value b model,
            other_value key Names.meta_model_version value b version,
          )
          refl

digit_is_no_space : (n : ℕ) → n ≤ 9 → is_space (b'0' + n) ≡ false
unfolding is_space
digit_is_no_space n h = ground arith

minus_is_no_space : is_space b'-' ≡ false
unfolding is_space
minus_is_no_space = refl

digits-not_blank :
    (fuel n : ℕ) (s : Text) → n < fuel → is_empty (trim_space (digits fuel n s)) ≡ false
unfolding digits trim_space
digits-not_blank zero n s h = absurd (omega arith)
digits-not_blank (suc fuel) n s h = elim (Bool-cases (leb n 9)) [
  | inl short ↦
      rw short (is_empty-trim is_space (b'0' + n) s (digit_is_no_space n (ground (arith, short))))
  | inr long ↦ rw long (digits-not_blank fuel (n / 10) ((b'0' + n % 10) ∷ s) (ground (arith, long)))
]

pub format_int-not_blank : (z : ℤ) → is_empty (trim_space (format_int z)) ≡ false
unfolding format_int itoa trim_space
format_int-not_blank (pos n) = digits-not_blank (n + 1) n [] (omega arith)
format_int-not_blank (negsuc n) = is_empty-trim is_space b'-' (itoa (n + 1)) minus_is_no_space
