-- ===== src/Base/Dict.antt =====
-- Go maps with string keys as association lists. The order of the list stands for one order in which
-- Go may range over the map.
use mathlib.Core.Path.{◌≡◌, refl}
use mathlib.Core.Option.{Option, none, some}
use mathlib.Core.List.{List, [], ◌∷◌}
use native.Mathlib.Omega.{arith}
use lumen_sdk.Base.Tests.{if◌then◌else◌}
use lumen_sdk.Base.Text.{Text, text_eq, text_eq_iff}

module _ {ℓ} {V : Type ℓ} where
  -- `m[k]` with its second result
  unfoldable pub lookup : Text → List (Text × V) → Option V
  unfolding text_eq
  lookup asked [] = none
  lookup asked ((key, value) ∷ rest) = if text_eq key asked then some value else lookup asked rest

  -- `m[k] = v`
  unfoldable pub insert : Text → V → List (Text × V) → List (Text × V)
  unfolding text_eq
  insert key value ((other, old) ∷ rest) =
      let inserted = insert key value rest in
      if text_eq other key then (key, value) ∷ rest else (other, old) ∷ inserted
  insert key value [] = (key, value) ∷ []

  -- `delete(m, k)`
  unfoldable pub delete : Text → List (Text × V) → List (Text × V)
  unfolding text_eq
  delete key [] = []
  delete key ((other, value) ∷ m) =
      let rest = delete key m in if text_eq other key then rest else (other, value) ∷ rest

  pub lookup-insert :
      (key asked : Text) (value : V) (m : List (Text × V))
      → lookup asked (insert key value m)
        ≡ (if text_eq key asked then some value else lookup asked m)
  unfolding lookup insert
  lookup-insert key asked value [] = refl
  lookup-insert key asked value ((other, old) ∷ rest) = ground (
    arith,
    lookup-insert key asked value rest,
    text_eq_iff other asked,
    text_eq_iff other key,
    text_eq_iff key asked,
  )

  pub lookup-delete :
      (key asked : Text) (m : List (Text × V))
      → lookup asked (delete key m) ≡ (if text_eq key asked then none else lookup asked m)
  unfolding lookup delete
  lookup-delete key asked [] = ground arith
  lookup-delete key asked ((other, value) ∷ rest) = ground (
    arith,
    lookup-delete key asked rest,
    text_eq_iff other asked,
    text_eq_iff other key,
    text_eq_iff key asked,
  )
