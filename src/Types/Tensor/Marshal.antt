-- ===== src/Types/Tensor/Marshal.antt =====
-- strconv.FormatInt, and encoding/json writing a slice of int64, as pkg/types/builders.go and
-- pkg/types/task_contract.go use them.
use lumen_sdk.Base.{◌+◌, Bool, if◌then◌else◌, List, [], ◌∷◌, ◌++◌, map}
use lumen_sdk.Base.Int.{ℤ, pos, negsuc}
use lumen_sdk.Base.Text.{Text, codes, itoa, join_with}

unfoldable pub format_int : ℤ → Text
unfolding itoa
format_int (pos n) = itoa n
format_int (negsuc n) = b'-' ∷ itoa (n + 1)

-- `json.Marshal(shape)`. Of the slices without elements, the nil one is written as null.
unfoldable pub marshal_shape : (is_nil : Bool) → List ℤ → Text
unfolding format_int join_with
marshal_shape is_nil [] = if is_nil then codes "null" else codes "[]"
marshal_shape is_nil (d ∷ dims) =
    b'[' ∷ (join_with (codes ",") (map format_int (d ∷ dims)) ++ codes "]")
