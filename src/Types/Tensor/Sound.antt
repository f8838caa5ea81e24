-- ===== src/Types/Tensor/Sound.antt =====
-- What an accepted tensor payload satisfies.
use native.Mathlib.Nat.{le-div_iff_mul-le, mul_assoc, mul-pos, le-mul_of_pos_right}
use lumen_sdk.Base.{
  ℕ, ◌+◌, ◌*◌, ◌/◌, ◌<◌, ◌≤◌, ◌≡◌, ◌↔◌, inl, inr, sym, ap, ◌∙◌, Bool, true, false, not, ◌||◌, List,
  [], ◌∷◌, Option, some, ltb, ◌==◌, >>-eq-ok, guard-eq-ok, ltb→lt, subst, ==_iff, ok, ◌>>◌,
  >>=-eq-ok, guard, length, arith, Bool-cases, All,
}
use lumen_sdk.Base.Int.{ℤ, pos, negsuc}
use lumen_sdk.Base.Text.{Text, codes, is_empty, has_prefix}
use lumen_sdk.Types.Tensor.{
  require_size, byte_length_overflow, TensorDescriptor, CoreOptions, contains_normalized,
  default_tensor_d_types, normalize_lower, count_elements, tensor_element_count,
  tensor_element_size, max_int64, first_dimension, with_default_keys, is_one,
}
use lumen_sdk.Types.Tensor.Payload.{
  validate_tensor_payload, run_checks, check_present, check_contract, check_allowed, check_length,
  check_batch,
}

abbrev pub IsPositive : ℤ → Type 0
IsPositive (pos n) = 0 < n
IsPositive (negsuc n) = ⊥

-- The product of the dimensions, with no bound; it matters only where all of them are positive.
abbrev pub volume : List ℤ → ℕ
volume [] = 1
volume (pos d ∷ dims) = d * volume dims
volume (negsuc d ∷ dims) = 0

volume_positive : (shape : List ℤ) → All IsPositive shape → 0 < volume shape
volume_positive [] h = omega arith
volume_positive (pos d ∷ dims) (p, h) = mul-pos p (volume_positive dims h)
volume_positive (negsuc d ∷ dims) (p, h) = absurd p

count_elements_iff :
    (index count n : ℕ) (shape : List ℤ)
    → 0 < count
    → count ≤ max_int64
    → (count_elements index count shape ≡ ok n)
      ↔ (All IsPositive shape × (count * volume shape ≤ max_int64) × (n ≡ count * volume shape))
unfolding count_elements
count_elements_iff index count n [] h k =
    (λ e. (tt, omega arith, ground arith), λ (p, q, r). ground arith)
count_elements_iff index count n (negsuc d ∷ dims) h k = (λ e. cc, λ (p, q, r). absurd p.0)
count_elements_iff index count n (pos d ∷ dims) h k = elim (Bool-cases (d == 0)) [
  | inl zero_dim ↦ (λ e. absurd (ground arith), λ (p, q, r). absurd (ground arith))
  | inr some_dim ↦
      let positive : 0 < d = ground arith in
      let fits = le-div_iff_mul-le {k = d} {x = count} {y = max_int64} positive in
      let assoc = mul_assoc count d (volume dims) in
      elim (Bool-cases (ltb (max_int64 / d) count)) [
        | inl over ↦ (
          λ e. absurd (ground arith),
          λ (p, q, r).
              let small = le-mul_of_pos_right (count * d) (volume_positive dims p.1) in
              absurd (ground (arith, fits, assoc, small)),
        )
        | inr under ↦
            let later =
              count_elements_iff (index + 1) (count * d) n dims (mul-pos h positive)
                (fits.0 (ground arith)) in
            rw (some_dim, under)
              (
                λ e. let (p, q, r) = later.0 e in ((positive, p), rw (← assoc) q, r ∙ assoc),
                λ (p, q, r). later.1 (p.1, rw assoc q, r ∙ sym assoc),
              )
      ]
]

-- tensorElementCount answers the product of the dimensions exactly when all of them are positive and the
-- product is an int64; in every other case it is an error.
pub tensor_element_count_iff :
    (shape : List ℤ) (n : ℕ)
    → (tensor_element_count shape ≡ ok n)
      ↔ (All IsPositive shape × (volume shape ≤ max_int64) × (n ≡ volume shape))
unfolding tensor_element_count
tensor_element_count_iff shape n =
    let (to, from) = count_elements_iff 0 1 n shape (omega arith) (omega arith) in
    let whole : 1 * volume shape ≡ volume shape = omega arith in
    (
      λ e. let (p, q, r) = to e in (p, rw (← whole) q, r ∙ whole),
      λ (p, q, r). from (p, rw whole q, r ∙ sym whole),
    )

-- What validateTensorPayload asks of a payload.
pub record IsPayload (desc : TensorDescriptor) (payload : List ℕ) (o : CoreOptions) : Type 0 where
  pub size : ℕ
  pub sized : tensor_element_size desc.d_type ≡ some size
  pub typed :
      contains_normalized o.allowed_d_types default_tensor_d_types desc.d_type normalize_lower
      ≡ true
  pub some_dimension : 0 < length desc.shape
  pub positive : All IsPositive desc.shape
  pub exact : length payload ≡ volume desc.shape * size
  pub bounded : volume desc.shape * size ≤ max_int64
  pub single :
      o.disable_single_batch_check ≡ false
      → has_prefix desc.layout (codes "N") ≡ true
      → first_dimension desc.shape ≡ some (pos 1)
  pub prepared :
      o.require_preprocess_contract ≡ true
      → (is_empty desc.preprocess_id ≡ false) × (desc.preprocess_skip ≡ true)

is_one-eq-true : (d : Option ℤ) → is_one d ≡ true → d ≡ some (pos 1)
is_one-eq-true d e = ground arith

size_positive : (d_type : Text) {n : ℕ} → tensor_element_size d_type ≡ some n → 0 < n
unfolding tensor_element_size
size_positive d_type e = ground arith

not_under : (a b : ℕ) → not (ltb a b) ≡ true → b ≤ a
not_under a b e = ground arith

last_test : {a b c : Bool} → a ≡ false → b ≡ true → (a || (not b || c)) ≡ true → c ≡ true
last_test h k e = ground arith

present_lem :
    (desc : TensorDescriptor) (o : CoreOptions)
    → check_present desc o ≡ ok tt
    → 0 < length desc.shape
unfolding check_present
present_lem desc o e = ltb→lt 0 (length desc.shape) (guard-eq-ok _ _ (>>-eq-ok _ _ e).1)

allowed_lem :
    (desc : TensorDescriptor) (o : CoreOptions)
    → check_allowed desc o ≡ ok tt
    → contains_normalized o.allowed_d_types default_tensor_d_types desc.d_type normalize_lower
      ≡ true
unfolding check_allowed
allowed_lem desc o e =
    let (to_orders, _) = >>-eq-ok _ _ e in
    let (to_formats, _) = >>-eq-ok _ _ to_orders in
    let (to_layouts, _) = >>-eq-ok _ _ to_formats in
    let (to_types, _) = >>-eq-ok _ _ to_layouts in guard-eq-ok _ _ to_types

prepared_lem :
    (desc : TensorDescriptor) (o : CoreOptions)
    → check_contract desc o ≡ ok tt
    → o.require_preprocess_contract ≡ true
    → (is_empty desc.preprocess_id ≡ false) × (desc.preprocess_skip ≡ true)
unfolding check_contract
prepared_lem desc o e h = ground (arith, e, h)

run_checks_sound :
    (desc : TensorDescriptor) (payload : List ℕ) (o : CoreOptions)
    → run_checks desc payload o ≡ ok tt
    → IsPayload desc payload o
unfolding run_checks check_length check_batch
run_checks_sound desc payload o e =
    let (before, batch) =
      >>-eq-ok
        (check_present desc o
          >> check_contract desc o
          >> check_allowed desc o
          >> check_length desc payload o)
        (check_batch desc o) e in
    let (earlier, long) =
      >>-eq-ok (check_present desc o >> check_contract desc o >> check_allowed desc o)
        (check_length desc payload o) before in
    let (first, allowed) =
      >>-eq-ok (check_present desc o >> check_contract desc o) (check_allowed desc o) earlier in
    let (present, contract) = >>-eq-ok (check_present desc o) (check_contract desc o) first in
    let (count, counted, after_count) = >>=-eq-ok (tensor_element_count desc.shape) _ long in
    let (size, sized, after_size) =
      >>=-eq-ok (require_size o.d_type_key desc.d_type (tensor_element_size desc.d_type)) _
        after_count in
    let (small, exact) =
      >>-eq-ok (guard (not (ltb (max_int64 / size) count)) byte_length_overflow) _ after_size in
    let (positive, _, same) = (tensor_element_count_iff desc.shape count).0 counted in
    let is_size : tensor_element_size desc.d_type ≡ some size = ground (arith, sized) in
    let fits =
      le-div_iff_mul-le {k = size} {x = count} {y = max_int64}
        (size_positive desc.d_type is_size) in
    record {
      size = size;
      sized = is_size;
      typed = allowed_lem desc o allowed;
      some_dimension = present_lem desc o present;
      positive = positive;
      exact =
          (==_iff (length payload) (count * size)).0 (guard-eq-ok _ _ exact)
          ∙ ap (λ n. n * size) same;
      bounded =
          subst (λ n. n * size ≤ max_int64) same
            (fits.0 (not_under (max_int64 / size) count (guard-eq-ok _ _ small)));
      single = λ h k.
          is_one-eq-true (first_dimension desc.shape) (last_test h k (guard-eq-ok _ _ batch));
      prepared = λ h. prepared_lem desc o contract h;
    }

-- A payload that validateTensorPayload accepts has exactly as many bytes as the product of its dimensions
-- and its element size, all dimensions are positive and their product in bytes is an int64; the batch
-- dimension is 1 where the layout starts with N and the check is on, and the preprocessing contract
-- holds where it is asked for.
pub validate_tensor_payload_sound :
    (desc : TensorDescriptor) (payload : List ℕ) (o : CoreOptions)
    → validate_tensor_payload desc payload o ≡ ok tt
    → IsPayload desc payload o
unfolding validate_tensor_payload with_default_keys
validate_tensor_payload_sound desc payload o e =
    let p = run_checks_sound desc payload (with_default_keys o) e in
    record {
      size = p.size;
      sized = p.sized;
      typed = p.typed;
      some_dimension = p.some_dimension;
      positive = p.positive;
      exact = p.exact;
      bounded = p.bounded;
      single = p.single;
      prepared = p.prepared;
    }
