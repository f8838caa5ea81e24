-- ===== src/Types/Floats.antt =====
-- Floating-point numbers as pkg/types uses them: a type, the test `x > 0`, and two ways to print.
-- They are a parameter of the model.
use lumen_sdk.Base.{ℕ, Bool}
use lumen_sdk.Base.Text.{Text}

pub record Floats : Type 1 where
  pub Float : Type 0
  pub is_positive : Float → Bool
  -- `fmt.Sprintf("%.3f", x)` and the like, with the number of decimals
  pub fixed : ℕ → Float → Text
  -- `strconv.FormatFloat(x, 'f', -1, 64)`
  pub shortest : Float → Text
