-- ===== src/Base/Text/Trimmed.antt =====
-- Texts that trimming leaves as they are, and how prefixes and suffixes are cut off a text.
use lumen_sdk.Base.{
  ℕ, ◌+◌, ◌≡◌, ◌≢◌, refl, sym, ap, ◌∙◌, subst, Bool, true, false, [], ◌∷◌, ◌++◌, inl, inr, arith,
  length, drop, append_assoc, ==_refl,
}
use lumen_sdk.Base.Text.{
  Text, trim, trim_left, trim_right, trim_left_cases, cons_unless, is_empty, has_prefix,
  trim_suffix,
}

module _ (cut : ℕ → Bool) where
  trimmed_parts :
      (c : ℕ) (s : Text)
      → trim cut (c ∷ s) ≡ c ∷ s
      → (cut c ≡ false) × (trim_right cut (c ∷ s) ≡ c ∷ s)
  unfolding trim trim_right trim_left
  trimmed_parts c s e = (other, rw (other, trim_left) at e)
    where
      first : (b : ℕ) (r : Text) → cut b ≡ false → trim_right cut (b ∷ r) ≡ c ∷ s → cut c ≡ false
      first b r h e = ground arith

      other : cut c ≡ false
      other = elim (trim_left_cases cut (c ∷ s)) [
        | inl gone ↦ absurd (some_text (sym (ap (trim_right cut) gone) ∙ e))
        | inr (b, r, f, h) ↦ first b r h (sym (ap (trim_right cut) f) ∙ e)
      ]
        where
          some_text : ◌≡◌ {A = Text} [] (c ∷ s) → ⊥
          some_text e = cc

  trim_right-append :
      (s : Text) (d : ℕ) (t : Text)
      → trim_right cut (d ∷ t) ≡ d ∷ t
      → trim_right cut (s ++ d ∷ t) ≡ s ++ d ∷ t
  unfolding trim_right
  trim_right-append [] d t h = h
  trim_right-append (c ∷ s) d t h = ap (cons_unless (cut c) c) (trim_right-append s d t h) ∙ go s
    where
      go : (s : Text) → cons_unless (cut c) c (s ++ d ∷ t) ≡ c ∷ (s ++ d ∷ t)
      go [] = ground arith
      go (b ∷ s) = ground arith

  cons_unless-ne-nil :
      {b : Bool} (c : ℕ) (s : Text) → b ≡ false → is_empty (cons_unless b c s) ≡ false
  cons_unless-ne-nil c s h = rw h refl

  -- A text whose first rune is kept is not blank.
  pub is_empty-trim : (c : ℕ) (s : Text) → cut c ≡ false → is_empty (trim cut (c ∷ s)) ≡ false
  unfolding trim trim_left trim_right
  is_empty-trim c s h =
      ap (λ t. is_empty (trim_right cut t)) {x = trim_left cut (c ∷ s)} {y = c ∷ s} (rw h refl)
      ∙ cons_unless-ne-nil c (trim_right cut s) h

  -- A text that starts and ends with trimmed ones is trimmed.
  pub trim-append :
      (s m t : Text)
      → s ≢ []
      → t ≢ []
      → trim cut s ≡ s
      → trim cut t ≡ t
      → trim cut (s ++ (m ++ t)) ≡ s ++ (m ++ t)
  unfolding trim trim_left trim_right
  trim-append [] m t h k p q = absurd (h refl)
  trim-append (c ∷ s) m [] h k p q = absurd (k refl)
  trim-append (c ∷ s) m (d ∷ t) h k p q =
      let (other, _) = trimmed_parts c s p in
      let (_, right) = trimmed_parts d t q in
      rw (other, trim_left)
        (subst (λ x. trim_right cut x ≡ x) (append_assoc (c ∷ s) m (d ∷ t))
          (trim_right-append ((c ∷ s) ++ m) d t right))

pub has_prefix-append : (s t : Text) → has_prefix (s ++ t) s ≡ true
unfolding has_prefix
has_prefix-append [] t = ground arith
has_prefix-append (c ∷ s) t = ground (arith, ==_refl c, has_prefix-append s t)

pub drop-length : (s t : Text) → drop (length s) (s ++ t) ≡ t
drop-length [] t = refl
drop-length (c ∷ s) t = drop-length s t

pub length-append : (s t : Text) → length (s ++ t) ≡ length s + length t
length-append [] t = omega arith
length-append (c ∷ s) t = omega (arith, length-append s t)

pub trim_suffix-append :
    (s : Text) (c : ℕ) (t : Text) (d : ℕ) → trim_suffix (s ++ c ∷ t) d ≡ s ++ trim_suffix (c ∷ t) d
unfolding trim_suffix
trim_suffix-append [] c t d = refl
trim_suffix-append (b ∷ []) c t d = refl
trim_suffix-append (b ∷ a ∷ s) c t d = ap (λ r. b ∷ r) (trim_suffix-append (a ∷ s) c t d)
