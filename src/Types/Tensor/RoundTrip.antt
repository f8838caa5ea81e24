-- ===== src/Types/Tensor/RoundTrip.antt =====
-- A shape that pkg/types/builders.go writes into the metadata, and pkg/types/tensor_metadata.go reads again.
use lumen_sdk.Base.{
  ℕ, zero, suc, ◌+◌, ◌*◌, ◌/◌, ◌%◌, ◌^◌, ◌≤◌, ◌<◌, ◌≡◌, refl, ap, ◌∙◌, ◌⊎◌, inl, inr, Bool, true,
  false, List, [], ◌∷◌, ◌++◌, map, Option, some, leb, arith, All, append_assoc, Bool-cases,
}
use lumen_sdk.Base.Int.{ℤ, pos, negsuc}
use lumen_sdk.Base.Text.{Text, codes, digits, itoa, join_with}
use lumen_sdk.Types.Tensor.Shape.{
  Phase, Reading, after_bracket, after_comma, closed, after_minus, in_digits, read_rune, read_runes,
  behind_number, at_phase, unmarshal_shape, to_int64,
}
use lumen_sdk.Types.Tensor.Marshal.{format_int, marshal_shape}

-- The numbers of an int64.
abbrev pub IsInt64 : ℤ → Type 0
IsInt64 (pos n) = n < 2 ^ 63
IsInt64 (negsuc n) = n < 2 ^ 63

digits-append : (fuel n : ℕ) (s t : Text) → digits fuel n s ++ t ≡ digits fuel n (s ++ t)
unfolding digits
digits-append zero n s t = refl
digits-append (suc fuel) n s t = elim (Bool-cases (leb n 9)) [
  | inl short ↦ rw short
  | inr long ↦ rw long (digits-append fuel (n / 10) ((b'0' + n % 10) ∷ s) t)
]

abbrev reading : List ℤ → Phase → Text → Option Reading
reading out p s = read_runes (some (record { phase = p; out = out })) s

-- A phase in which a number that is not 0 may start, and whether a minus is before it.
data Starts : Bool → Phase → Type 0 where
  first : Starts false after_bracket
  later : Starts false after_comma
  signed : Starts true after_minus

read_rune-digit :
    {negative : Bool} {p : Phase} (out : List ℤ) (n : ℕ)
    → Starts negative p
    → 0 < n
    → n ≤ 9
    → read_rune out p (b'0' + n) ≡ at_phase out (in_digits negative n)
unfolding read_rune
read_rune-digit out n first h k = ground arith
read_rune-digit out n later h k = ground arith
read_rune-digit out n signed h k = ground arith

read_rune-more :
    (negative : Bool) (out : List ℤ) (n d : ℕ)
    → d ≤ 9
    → read_rune out (in_digits negative n) (b'0' + d)
      ≡ at_phase out (in_digits negative (n * 10 + d))
unfolding read_rune
read_rune-more negative out n d h = ground arith

one_digit :
    {negative : Bool} {p : Phase} (out : List ℤ) (n : ℕ) (t : Text)
    → Starts negative p
    → 0 < n
    → n ≤ 9
    → reading out p ((b'0' + n) ∷ t) ≡ reading out (in_digits negative n) t
unfolding read_runes
one_digit out n t s h k = ap (λ r. read_runes r t) (read_rune-digit out n s h k)

more_digits :
    (negative : Bool) (out : List ℤ) (n d : ℕ) (t : Text)
    → d ≤ 9
    → reading out (in_digits negative n) ((b'0' + d) ∷ t)
      ≡ reading out (in_digits negative (n * 10 + d)) t
unfolding read_runes
more_digits negative out n d t h = ap (λ r. read_runes r t) (read_rune-more negative out n d h)

reading-digits :
    {negative : Bool} {p : Phase} (out : List ℤ) (fuel n : ℕ) (t : Text)
    → Starts negative p
    → 0 < n
    → n < fuel
    → reading out p (digits fuel n t) ≡ reading out (in_digits negative n) t
unfolding digits
reading-digits out zero n t s h k = absurd (omega arith)
reading-digits {negative} out (suc fuel) n t s h k = elim (Bool-cases (leb n 9)) [
  | inl short ↦ rw short (one_digit out n t s h (ground (arith, short)))
  | inr long ↦ rw long (
      reading-digits out fuel (n / 10) ((b'0' + n % 10) ∷ t) s (ground (arith, long))
        (ground (arith, long))
      ∙ more_digits negative out (n / 10) (n % 10) t (omega arith)
      ∙ ap (λ m. reading out (in_digits negative m) t) (omega arith))
]

-- What follows a value, and the phase behind it.
abbrev Ends : ℕ → Phase → Type 0
Ends c q = ((c ≡ b',') × (q ≡ after_comma)) ⊎ ((c ≡ b']') × (q ≡ closed))

number-Ends :
    (negative : Bool) (out : List ℤ) (n : ℕ) (z : ℤ) (c : ℕ) (q : Phase) (t : Text)
    → to_int64 negative n ≡ some z
    → Ends c q
    → reading out (in_digits negative n) (c ∷ t) ≡ reading (out ++ z ∷ []) q t
unfolding read_runes read_rune
number-Ends negative out n z c q t e (inl (h, k)) =
    rw (h, k) (ap (λ r. read_runes (behind_number out b',' r) t) e)
number-Ends negative out n z c q t e (inr (h, k)) =
    rw (h, k) (ap (λ r. read_runes (behind_number out b']' r) t) e)

zero-Ends :
    {p : Phase} (out : List ℤ) (c : ℕ) (q : Phase) (t : Text)
    → Starts false p
    → Ends c q
    → reading out p (b'0' ∷ c ∷ t) ≡ reading (out ++ pos 0 ∷ []) q t
unfolding read_runes read_rune
zero-Ends out c q t first (inl (h, k)) = rw (h, k) refl
zero-Ends out c q t first (inr (h, k)) = rw (h, k) refl
zero-Ends out c q t later (inl (h, k)) = rw (h, k) refl
zero-Ends out c q t later (inr (h, k)) = rw (h, k) refl

minus-Starts :
    {p : Phase} (out : List ℤ) (t : Text)
    → Starts false p
    → reading out p (b'-' ∷ t) ≡ reading out after_minus t
unfolding read_runes read_rune
minus-Starts out t first = refl
minus-Starts out t later = refl

to_int64-true : (n : ℕ) → n < 2 ^ 63 → to_int64 true (n + 1) ≡ some (negsuc n)
to_int64-true n h = ground arith

to_int64-false : (n : ℕ) → n < 2 ^ 63 → to_int64 false n ≡ some (pos n)
to_int64-false n h = ground arith

reading-itoa :
    {negative : Bool} {p : Phase} (out : List ℤ) (n : ℕ) (t : Text)
    → Starts negative p
    → 0 < n
    → reading out p (itoa n ++ t) ≡ reading out (in_digits negative n) t
unfolding itoa
reading-itoa {negative} {p} out n t s h =
    ap (reading out p) (digits-append (n + 1) n [] t)
    ∙ reading-digits out (n + 1) n t s h (omega arith)

reading-format_int :
    {p : Phase} (out : List ℤ) (z : ℤ) (c : ℕ) (q : Phase) (t : Text)
    → Starts false p
    → IsInt64 z
    → Ends c q
    → reading out p (format_int z ++ c ∷ t) ≡ reading (out ++ z ∷ []) q t
unfolding format_int
reading-format_int out (pos zero) c q t s h e = zero-Ends out c q t s e
reading-format_int out (pos (suc n)) c q t s h e =
    reading-itoa out (suc n) (c ∷ t) s (omega arith)
    ∙ number-Ends false out (suc n) (pos (suc n)) c q t (to_int64-false (suc n) h) e
reading-format_int out (negsuc n) c q t s h e =
    minus-Starts out (itoa (n + 1) ++ c ∷ t) s
    ∙ reading-itoa out (n + 1) (c ∷ t) signed (omega arith)
    ∙ number-Ends true out (n + 1) (negsuc n) c q t (to_int64-true n h) e

abbrev between : List ℤ → Text
between dims = join_with (codes ",") (map format_int dims)

reading-dims :
    {p : Phase} (out : List ℤ) (d : ℤ) (dims : List ℤ)
    → Starts false p
    → All IsInt64 (d ∷ dims)
    → reading out p (between (d ∷ dims) ++ codes "]")
      ≡ some (record { phase = closed; out = out ++ d ∷ dims })
unfolding join_with read_runes
reading-dims out d [] s h = reading-format_int out d b']' closed [] s h.0 (inr (refl, refl))
reading-dims {p} out d (e ∷ dims) s h =
    ap (reading out p) (append_assoc (format_int d) (codes "," ++ between (e ∷ dims)) (codes "]"))
    ∙ reading-format_int out d b',' after_comma (between (e ∷ dims) ++ codes "]") s h.0
        (inl (refl, refl))
    ∙ reading-dims (out ++ d ∷ []) e dims later h.1
    ∙ rw (append_assoc out (d ∷ []) (e ∷ dims)) refl

-- A shape of int64 dimensions, the nil slice included, is read from the metadata as it was written.
pub unmarshal_shape-marshal_shape :
    (is_nil : Bool) (shape : List ℤ)
    → All IsInt64 shape
    → unmarshal_shape (marshal_shape is_nil shape) ≡ some shape
unfolding unmarshal_shape marshal_shape
unmarshal_shape-marshal_shape true [] h = refl
unmarshal_shape-marshal_shape false [] h = refl
unmarshal_shape-marshal_shape is_nil (d ∷ dims) h =
    rw (reading-dims {p = after_bracket} [] d dims first h) refl
