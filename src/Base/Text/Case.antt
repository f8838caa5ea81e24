-- ===== src/Base/Text/Case.antt =====
-- How the case mappings of a text meet the trimming of white space.
use lumen_sdk.Base.{
  ℕ, ◌≡◌, refl, ap, ◌∙◌, Bool, true, false, [], ◌∷◌, map, inl, inr, arith, Bool-cases,
}
use lumen_sdk.Base.Text.{
  Text, trim, trim_left, trim_right, cons_unless, trim_space, is_space, to_lower, to_upper,
  lower_rune, upper_rune, trim_space_idem, to_lower_idem,
}

module _ (cut : ℕ → Bool) (f : ℕ → ℕ) (same : (c : ℕ) → cut (f c) ≡ cut c) where
  trim_left-map : (s : Text) → trim_left cut (map f s) ≡ map f (trim_left cut s)
  unfolding trim_left
  trim_left-map [] = refl
  trim_left-map (c ∷ s) = elim (Bool-cases (cut c)) [
    | inl gone ↦ rw (same c, gone) (trim_left-map s)
    | inr kept ↦ rw (same c, kept) refl
  ]

  cons_unless-map :
      (b : Bool) (c : ℕ) (s : Text) → cons_unless b (f c) (map f s) ≡ map f (cons_unless b c s)
  cons_unless-map true c [] = refl
  cons_unless-map true c (d ∷ s) = refl
  cons_unless-map false c s = refl

  trim_right-map : (s : Text) → trim_right cut (map f s) ≡ map f (trim_right cut s)
  unfolding trim_right
  trim_right-map [] = refl
  trim_right-map (c ∷ s) =
      rw (same c, trim_right-map s) (cons_unless-map (cut c) c (trim_right cut s))

  -- A mapping of runes that keeps white space apart from the rest may be made before trimming or after.
  pub trim-map : (s : Text) → trim cut (map f s) ≡ map f (trim cut s)
  unfolding trim
  trim-map s = ap (trim_right cut) (trim_left-map s) ∙ trim_right-map (trim_left cut s)

is_space-lower_rune : (c : ℕ) → is_space (lower_rune c) ≡ is_space c
unfolding is_space lower_rune
is_space-lower_rune c = ground arith

is_space-upper_rune : (c : ℕ) → is_space (upper_rune c) ≡ is_space c
unfolding is_space upper_rune
is_space-upper_rune c = ground arith

upper_rune_idem : (c : ℕ) → upper_rune (upper_rune c) ≡ upper_rune c
unfolding upper_rune
upper_rune_idem c = ground arith

to_upper_idem : (s : Text) → to_upper (to_upper s) ≡ to_upper s
unfolding to_upper
to_upper_idem [] = refl
to_upper_idem (c ∷ s) = cc (upper_rune_idem c, to_upper_idem s)

pub trim_space-to_lower : (s : Text) → trim_space (to_lower s) ≡ to_lower (trim_space s)
unfolding trim_space to_lower
trim_space-to_lower s = trim-map is_space lower_rune is_space-lower_rune s

pub trim_space-to_upper : (s : Text) → trim_space (to_upper s) ≡ to_upper (trim_space s)
unfolding trim_space to_upper
trim_space-to_upper s = trim-map is_space upper_rune is_space-upper_rune s

pub lower_trimmed_idem :
    (s : Text) → to_lower (trim_space (to_lower (trim_space s))) ≡ to_lower (trim_space s)
lower_trimmed_idem s =
    ap to_lower (trim_space-to_lower (trim_space s) ∙ ap to_lower (trim_space_idem s))
    ∙ to_lower_idem (trim_space s)

pub upper_trimmed_idem :
    (s : Text) → to_upper (trim_space (to_upper (trim_space s))) ≡ to_upper (trim_space s)
upper_trimmed_idem s =
    ap to_upper (trim_space-to_upper (trim_space s) ∙ ap to_upper (trim_space_idem s))
    ∙ to_upper_idem (trim_space s)
