-- ===== src/Base/Text.antt =====
-- Go strings as lists of code points, and the functions of Go's `strings` package that the program
-- calls. Case mapping is that of ASCII, with the few letters beyond it whose image is ASCII; a text
-- that is compared with an ASCII one is so compared as Go compares it. Invalid UTF-8 is left out.
pub mod Trimmed
pub mod Case
pub mod HostPort
use Prim.Native.Char.{code}
use Prim.Native.String.{String}
use Prim.Native.Nat.{ℕ, zero, suc, ◌+◌, ◌-◌, ◌/◌, ◌%◌}
use mathlib.Core.Path.{◌≡◌, refl}
use mathlib.Core.Logic.{◌↔◌, ◌⊎◌, inl, inr}
use mathlib.Core.Bool.{Bool, true, false, ◌&&◌, ◌||◌}
use mathlib.Core.List.{List, [], ◌∷◌, ◌++◌, map}
use native.Mathlib.Decide.{ℕ_discrete}
use native.Mathlib.Omega.{arith}
use lumen_sdk.Base.Tests.{leb, ◌==◌, if◌then◌else◌, Bool-cases}

abbrev pub Text : Type 0
Text = List ℕ

-- The text of a literal.
abbrev pub codes : String → Text
codes String.[] = []
codes (String.◌∷◌ c s) = code c ∷ codes s

pub Text-discrete : Discrete Text
Text-discrete = hlevel ℕ_discrete

unfoldable pub text_eq : Text → Text → Bool
text_eq [] [] = true
text_eq [] (d ∷ t) = false
text_eq (c ∷ s) [] = false
text_eq (c ∷ s) (d ∷ t) = (c == d) && text_eq s t

pub text_eq_iff : (s t : Text) → (text_eq s t ≡ true) ↔ (s ≡ t)
unfolding text_eq
text_eq_iff [] [] = (λ _. refl, λ _. refl)
text_eq_iff [] (d ∷ t) = (λ h. cc, λ h. cc)
text_eq_iff (c ∷ s) [] = (λ h. cc, λ h. cc)
text_eq_iff (c ∷ s) (d ∷ t) = ground (arith, text_eq_iff s t)

pub text_eq_refl : (s : Text) → text_eq s s ≡ true
text_eq_refl s = (text_eq_iff s s).1 refl

-- `s == ""`
abbrev pub is_empty : Text → Bool
is_empty [] = true
is_empty (c ∷ s) = false

-- unicode.IsSpace
unfoldable pub is_space : ℕ → Bool
is_space c =
    (leb 9 c && leb c 13)
    || (c == 32)
    || (c == 0x85)
    || (c == 0xa0)
    || (c == 0x1680)
    || (leb 0x2000 c && leb c 0x200a)
    || (c == 0x2028)
    || (c == 0x2029)
    || (c == 0x202f)
    || (c == 0x205f)
    || (c == 0x3000)

abbrev before : ℕ → Text → Text
before c [] = []
before c (d ∷ s) = c ∷ d ∷ s

abbrev cons_unless : Bool → ℕ → Text → Text
cons_unless b c s = if b then before c s else c ∷ s

module _ (cut : ℕ → Bool) where
  trim_left : Text → Text
  trim_left [] = []
  trim_left (c ∷ s) = if cut c then trim_left s else c ∷ s

  trim_right : Text → Text
  trim_right [] = []
  trim_right (c ∷ s) = cons_unless (cut c) c (trim_right s)

  -- strings.TrimFunc: the runes for which `cut` holds go from both ends.
  unfoldable pub trim : Text → Text
  unfolding trim_left trim_right
  trim s = trim_right (trim_left s)

  trim_right_idem : (s : Text) → trim_right (trim_right s) ≡ trim_right s
  unfolding trim_right
  trim_right_idem [] = refl
  trim_right_idem (c ∷ s) = go (trim_right s) (trim_right_idem s)
    where
      go :
          (r : Text)
          → trim_right r ≡ r
          → trim_right (cons_unless (cut c) c r) ≡ cons_unless (cut c) c r
      go [] h = ground arith
      go (d ∷ r) h = ground arith

  trim_left-trim_right :
      (c : ℕ) (s : Text) → cut c ≡ false → trim_left (trim_right (c ∷ s)) ≡ trim_right (c ∷ s)
  unfolding trim_left trim_right
  trim_left-trim_right c s h = ground arith

  trim_left_cases :
      (s : Text)
      → (trim_left s ≡ []) ⊎ ((c : ℕ) × (r : Text) × (trim_left s ≡ c ∷ r) × (cut c ≡ false))
  unfolding trim_left
  trim_left_cases [] = inl refl
  trim_left_cases (c ∷ s) = elim (Bool-cases (cut c)) [
    | inl sp ↦ rw (sp, trim_left) (trim_left_cases s)
    | inr other ↦ rw (other, trim_left) (inr (c, s, refl, other))
  ]

  -- Trimming twice is trimming once.
  pub trim_idem : (s : Text) → trim (trim s) ≡ trim s
  unfolding trim
  trim_idem s = elim (trim_left_cases s) [
    | inl none_left ↦ rw none_left
    | inr (c, r, e, h) ↦ rw (e, trim_left-trim_right c r h, trim_right_idem (c ∷ r))
  ]

-- strings.TrimSpace
unfoldable pub trim_space : Text → Text
unfolding trim is_space
trim_space = trim is_space

pub trim_space_idem : (s : Text) → trim_space (trim_space s) ≡ trim_space s
unfolding trim_space
trim_space_idem s = trim_idem is_space s

lower_rune : ℕ → ℕ
lower_rune c =
    if leb b'A' c && leb c b'Z'
    then c + 32
    else if c == 0x212a
    then b'k'
    else if c == 0x130
    then b'i'
    else c

upper_rune : ℕ → ℕ
upper_rune c =
    if leb b'a' c && leb c b'z'
    then c - 32
    else if c == 0x131
    then b'I'
    else if c == 0x17f
    then b'S'
    else c

fold_rune : ℕ → ℕ
fold_rune c =
    if leb b'A' c && leb c b'Z'
    then c + 32
    else if c == 0x212a
    then b'k'
    else if c == 0x17f
    then b's'
    else c

-- strings.ToLower
unfoldable pub to_lower : Text → Text
unfolding lower_rune
to_lower = map lower_rune

-- strings.ToUpper
unfoldable pub to_upper : Text → Text
unfolding upper_rune
to_upper = map upper_rune

-- strings.EqualFold
unfoldable pub equal_fold : Text → Text → Bool
unfolding fold_rune text_eq
equal_fold s t = text_eq (map fold_rune s) (map fold_rune t)

-- strings.HasPrefix
unfoldable pub has_prefix : Text → Text → Bool
has_prefix s [] = true
has_prefix [] (p ∷ pre) = false
has_prefix (c ∷ s) (p ∷ pre) = (c == p) && has_prefix s pre

lower_rune_idem : (c : ℕ) → lower_rune (lower_rune c) ≡ lower_rune c
unfolding lower_rune
lower_rune_idem c = ground arith

pub to_lower_idem : (s : Text) → to_lower (to_lower s) ≡ to_lower s
unfolding to_lower
to_lower_idem [] = refl
to_lower_idem (c ∷ s) = cc (lower_rune_idem c, to_lower_idem s)

-- strings.TrimSuffix with a suffix of one rune
unfoldable pub trim_suffix : Text → ℕ → Text
trim_suffix [] d = []
trim_suffix (c ∷ []) d = if c == d then [] else c ∷ []
trim_suffix (c ∷ b ∷ s) d = c ∷ trim_suffix (b ∷ s) d

abbrev pub add_to_first : ℕ → List Text → List Text
add_to_first c [] = (c ∷ []) ∷ []
add_to_first c (part ∷ parts) = (c ∷ part) ∷ parts

-- strings.Split with a separator of one rune
unfoldable pub split : ℕ → Text → List Text
split d [] = [] ∷ []
split d (c ∷ s) = let parts = split d s in if c == d then [] ∷ parts else add_to_first c parts

-- strings.Join
unfoldable pub join_with : Text → List Text → Text
join_with sep [] = []
join_with sep (s ∷ []) = s
join_with sep (s ∷ t ∷ rest) = s ++ (sep ++ join_with sep (t ∷ rest))

unfoldable pub contains_rune : ℕ → Text → Bool
contains_rune d [] = false
contains_rune d (c ∷ s) = (c == d) || contains_rune d s

-- strings.Contains
unfoldable pub contains_text : Text → Text → Bool
unfolding has_prefix
contains_text [] part = has_prefix [] part
contains_text (c ∷ s) part = has_prefix (c ∷ s) part || contains_text s part

unfoldable pub digits : ℕ → ℕ → Text → Text
digits zero n out = out
digits (suc fuel) n out =
    let more = digits fuel (n / 10) ((b'0' + n % 10) ∷ out) in
    if leb n 9 then (b'0' + n) ∷ out else more

-- strconv.Itoa of a number that is not negative
unfoldable pub itoa : ℕ → Text
unfolding digits
itoa n = digits (n + 1) n []
