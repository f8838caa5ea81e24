-- ===== src/Types/Tensor/Shape.antt =====
-- encoding/json reading an array of int64, as pkg/types/tensor_metadata.go reads a shape: one pass over
-- the text, in which white space has been trimmed at both ends.
use lumen_sdk.Base.{
  ℕ, ◌+◌, ◌-◌, ◌*◌, ◌^◌, ◌≡◌, refl, Bool, true, false, ◌&&◌, ◌||◌, if◌then◌else◌, List, [], ◌∷◌,
  ◌++◌, Option, none, some, ltb, leb, ◌==◌,
}
use lumen_sdk.Base.Int.{ℤ, pos, negsuc}
use lumen_sdk.Base.Text.{Text, codes, text_eq}

-- What has been read.
pub data Phase : Type 0 where
  outside after_bracket after_comma after_value closed : Phase
  after_minus : Phase
  after_zero : Phase
  in_digits : (negative : Bool) → ℕ → Phase
  in_null : Text → Phase

pub record Reading : Type 0 where
  pub phase : Phase
  pub out : List ℤ

abbrev pub is_blank : ℕ → Bool
is_blank c = (c == b' ') || ((c == 9) || ((c == 10) || (c == 13)))

abbrev pub is_digit : ℕ → Bool
is_digit c = leb b'0' c && leb c b'9'

abbrev pub minus : ℕ → ℤ
minus n = if n == 0 then pos 0 else negsuc (n - 1)

-- The number as an int64, if it is one.
abbrev pub to_int64 : Bool → ℕ → Option ℤ
to_int64 true n = if leb n (2 ^ 63) then some (minus n) else none
to_int64 false n = if ltb n (2 ^ 63) then some (pos n) else none

abbrev pub at_phase : List ℤ → Phase → Option Reading
at_phase out p = some (record { phase = p; out = out })

-- A comma, a bracket or white space behind a value.
abbrev pub behind_value : List ℤ → ℕ → Option Reading
behind_value out c =
    if is_blank c
    then at_phase out after_value
    else if c == b','
    then at_phase out after_comma
    else if c == b']'
    then at_phase out closed
    else none

abbrev pub behind_number : List ℤ → ℕ → Option ℤ → Option Reading
behind_number out c none = none
behind_number out c (some z) = behind_value (out ++ z ∷ []) c

-- A value starts. A null element leaves 0.
abbrev pub value_starts : List ℤ → ℕ → Option Reading
value_starts out c =
    if c == b'-'
    then at_phase out after_minus
    else if c == b'0'
    then at_phase out after_zero
    else if is_digit c
    then at_phase out (in_digits false (c - b'0'))
    else if c == b'n'
    then at_phase out (in_null (codes "ull"))
    else none

abbrev pub in_literal : List ℤ → ℕ → Text → Option Reading
in_literal out c [] = behind_value (out ++ pos 0 ∷ []) c
in_literal out c (d ∷ ds) = if c == d then at_phase out (in_null ds) else none

-- After a minus, 0 is a whole number too.
unfoldable pub read_rune : List ℤ → Phase → ℕ → Option Reading
read_rune out outside c = if c == b'[' then at_phase out after_bracket else none
read_rune out after_bracket c =
    if is_blank c
    then at_phase out after_bracket
    else if c == b']'
    then at_phase out closed
    else value_starts out c
read_rune out after_comma c = if is_blank c then at_phase out after_comma else value_starts out c
read_rune out after_value c = behind_value out c
read_rune out closed c = none
read_rune out after_minus c =
    if c == b'0'
    then at_phase out after_zero
    else if is_digit c
    then at_phase out (in_digits true (c - b'0'))
    else none
read_rune out after_zero c = behind_value (out ++ pos 0 ∷ []) c
read_rune out (in_digits negative n) c =
    if is_digit c
    then at_phase out (in_digits negative (n * 10 + (c - b'0')))
    else behind_number out c (to_int64 negative n)
read_rune out (in_null ds) c = in_literal out c ds

unfoldable pub read_runes : Option Reading → Text → Option Reading
unfolding read_rune
read_runes none s = none
read_runes (some r) [] = some r
read_runes (some r) (c ∷ s) = read_runes (read_rune r.out r.phase c) s

abbrev pub if_closed : Phase → List ℤ → Option (List ℤ)
if_closed closed out = some out
if_closed _ out = none

abbrev pub whole : Option Reading → Option (List ℤ)
whole none = none
whole (some r) = if_closed r.phase r.out

-- `json.Unmarshal([]byte(s), &shape)` for a nil `shape`; `none` is an error.
unfoldable pub unmarshal_shape : Text → Option (List ℤ)
unfolding read_runes text_eq
unmarshal_shape s =
    if text_eq s (codes "null")
    then some []
    else whole (read_runes (some (record { phase = outside; out = [] })) s)

image_shape :
    unmarshal_shape (codes "[1, 3,224,-7]") ≡ some (pos 1 ∷ pos 3 ∷ pos 224 ∷ negsuc 6 ∷ [])
unfolding unmarshal_shape
image_shape = refl

no_fraction : unmarshal_shape (codes "[1.5]") ≡ none
unfolding unmarshal_shape
no_fraction = refl
