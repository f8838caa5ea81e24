-- ===== src/Base/Text/HostPort/RoundTrip.antt =====
-- An address that is joined of a host and a port is split into them again, and a printed number is read.
use lumen_sdk.Base.{
  ℕ, zero, suc, ◌+◌, ◌-◌, ◌*◌, ◌/◌, ◌%◌, ◌^◌, ◌≤◌, ◌<◌, ◌≡◌, refl, sym, ap, ◌∙◌, Bool, true, false,
  ◌||◌, [], ◌∷◌, ◌++◌, none, some, leb, leb→le, ◌==◌, arith, inl, inr, Bool-cases, append_assoc,
}
use lumen_sdk.Base.Int.{pos}
use lumen_sdk.Base.Text.{Text, codes, contains_rune, digits, itoa}
use lumen_sdk.Base.Text.HostPort.{
  join_host_port, split_host_port, last_colon, bracketed, has_bracket, host_of, plain_host, decimal,
  positive, atoi,
}

both_false : (a b : Bool) → (a || b) ≡ false → (a ≡ false) × (b ≡ false)
both_false a b e = ground (arith, e)

no_colon : (port : Text) → contains_rune b':' port ≡ false → last_colon port ≡ none
unfolding contains_rune last_colon
no_colon [] h = refl
no_colon (c ∷ s) h =
    let (other, rest) = both_false (c == b':') (contains_rune b':' s) h in
    rw (no_colon s rest, other) refl

last_colon-append :
    (s port : Text)
    → contains_rune b':' port ≡ false
    → last_colon (s ++ b':' ∷ port) ≡ some (s, port)
unfolding last_colon
last_colon-append [] port h = rw (no_colon port h) refl
last_colon-append (c ∷ s) port h = rw (last_colon-append s port h) refl

bracketed-append :
    (host : Text) → contains_rune b']' host ≡ false → bracketed (host ++ codes "]") ≡ some host
unfolding contains_rune bracketed
bracketed-append [] h = refl
bracketed-append (c ∷ []) h = let (other, _) = both_false (c == b']') false h in rw other refl
bracketed-append (c ∷ d ∷ s) h =
    let (other, rest) = both_false (c == b']') (contains_rune b']' (d ∷ s)) h in
    rw (other, bracketed-append (d ∷ s) rest) refl

plain_host_lem :
    (host port : Text)
    → contains_rune b':' host ≡ false
    → has_bracket host ≡ false
    → has_bracket port ≡ false
    → plain_host host port ≡ some (host, port)
plain_host_lem host port h k l = rw (h, k, l) refl

not_open :
    (host : Text) (port : Text)
    → has_bracket host ≡ false
    → host_of host port ≡ plain_host host port
unfolding contains_rune
not_open [] port k = refl
not_open (c ∷ s) port k =
    let (open_free, _) = both_false (contains_rune b'[' (c ∷ s)) (contains_rune b']' (c ∷ s)) k in
    let (other, _) = both_false (c == b'[') (contains_rune b'[' s) open_free in rw other refl

split_of :
    (address before port : Text)
    → last_colon address ≡ some (before, port)
    → split_host_port address ≡ host_of before port
unfolding split_host_port
split_of address before port e = rw (e, split_host_port) refl

-- A host without brackets and a port without brackets and colons, joined, are split again.
pub split_host_port-join_host_port :
    (host port : Text)
    → has_bracket host ≡ false
    → has_bracket port ≡ false
    → contains_rune b':' port ≡ false
    → split_host_port (join_host_port host port) ≡ some (host, port)
unfolding join_host_port
split_host_port-join_host_port host port k l m = elim (Bool-cases (contains_rune b':' host)) [
  | inl v6 ↦ rw v6 (
      ap split_host_port (sym (append_assoc (b'[' ∷ host) (codes "]") (b':' ∷ port)))
      ∙ split_of ((b'[' ∷ (host ++ codes "]")) ++ b':' ∷ port) (b'[' ∷ (host ++ codes "]")) port
          (last_colon-append (b'[' ∷ (host ++ codes "]")) port m)
      ∙ (let (open_free, close_free) =
            both_false (contains_rune b'[' host) (contains_rune b']' host) k in
          rw (bracketed-append host close_free, open_free, l) refl))
  | inr plain ↦ rw plain (
      split_of (host ++ b':' ∷ port) host port (last_colon-append host port m)
      ∙ not_open host port k
      ∙ plain_host_lem host port plain k l)
]

-- Digits are no punctuation above them.
digits-clean :
    (c fuel n : ℕ) (s : Text)
    → b'9' < c
    → contains_rune c s ≡ false
    → contains_rune c (digits fuel n s) ≡ false
unfolding digits contains_rune
digits-clean c zero n s h k = k
digits-clean c (suc fuel) n s h k = elim (Bool-cases (leb n 9)) [
  | inl short ↦ rw short (rw (below c n h ((leb→le n 9 short)), k) refl)
  | inr long ↦ rw long (
      digits-clean c fuel (n / 10) ((b'0' + n % 10) ∷ s) h
        (rw (below c (n % 10) h (omega arith), k) refl))
]
  where
    below : (c d : ℕ) → b'9' < c → d ≤ 9 → ((b'0' + d) == c) ≡ false
    below c d h k = ground arith

pub itoa-clean : (c n : ℕ) → b'9' < c → contains_rune c (itoa n) ≡ false
unfolding itoa contains_rune
itoa-clean c n h = digits-clean c (n + 1) n [] h refl

decimal-step : (n d : ℕ) (t : Text) → d ≤ 9 → decimal n ((b'0' + d) ∷ t) ≡ decimal (n * 10 + d) t
unfolding decimal
decimal-step n d t h = rw (low d, high d h, back d) refl
  where
    low : (d : ℕ) → leb b'0' (b'0' + d) ≡ true
    low d = ground arith

    high : (d : ℕ) → d ≤ 9 → leb (b'0' + d) b'9' ≡ true
    high d h = ground arith

    back : (d : ℕ) → b'0' + d - b'0' ≡ d
    back d = omega arith

decimal-digits : (fuel n : ℕ) (t : Text) → n < fuel → decimal 0 (digits fuel n t) ≡ decimal n t
unfolding digits
decimal-digits zero n t h = absurd (omega arith)
decimal-digits (suc fuel) n t h = elim (Bool-cases (leb n 9)) [
  | inl short ↦
      rw short (decimal-step 0 n t (leb→le n 9 short) ∙ ap (λ m. decimal m t) (omega arith))
  | inr long ↦ rw long (
      decimal-digits fuel (n / 10) ((b'0' + n % 10) ∷ t) (ground (arith, long))
      ∙ decimal-step (n / 10) (n % 10) t (omega arith)
      ∙ ap (λ m. decimal m t) (omega arith))
]

-- The first digit.
digits_first :
    (fuel n : ℕ) (s : Text)
    → n < fuel
    → (d : ℕ) × (r : Text) × (digits fuel n s ≡ (b'0' + d) ∷ r) × (d ≤ 9)
unfolding digits
digits_first zero n s h = absurd (omega arith)
digits_first (suc fuel) n s h = elim (Bool-cases (leb n 9)) [
  | inl short ↦ (n, s, rw short refl, leb→le n 9 short)
  | inr long ↦
      let (d, r, e, k) = digits_first fuel (n / 10) ((b'0' + n % 10) ∷ s) (ground (arith, long)) in
      (d, r, rw long e, k)
]

atoi-digit :
    (d : ℕ) (r : Text) → d ≤ 9 → atoi ((b'0' + d) ∷ r) ≡ positive (decimal 0 ((b'0' + d) ∷ r))
unfolding atoi
atoi-digit d r h = rw (no_minus d, no_plus d) refl
  where
    no_minus : (d : ℕ) → ((b'0' + d) == b'-') ≡ false
    no_minus d = ground arith

    no_plus : (d : ℕ) → ((b'0' + d) == b'+') ≡ false
    no_plus d = ground arith

-- strconv.Atoi reads a number that strconv.Itoa has printed.
pub atoi-itoa : (n : ℕ) → n < 2 ^ 63 → atoi (itoa n) ≡ some (pos n)
unfolding itoa
atoi-itoa n h =
    let (d, r, e, k) = digits_first (n + 1) n [] (omega arith) in
    let read : positive (decimal 0 (digits (n + 1) n [])) ≡ some (pos n) =
      ap positive (decimal-digits (n + 1) n [] (omega arith)) ∙ fits n h in
    ap atoi e ∙ atoi-digit d r k ∙ ap (λ t. positive (decimal 0 t)) (sym e) ∙ read
  where
    fits : (n : ℕ) → n < 2 ^ 63 → positive (decimal n []) ≡ some (pos n)
    fits n h = unfold decimal in ground arith
