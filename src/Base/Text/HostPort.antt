-- ===== src/Base/Text/HostPort.antt =====
-- Addresses with a port, as Go's `net` package splits and joins them, and strconv.Atoi.
pub mod RoundTrip
use lumen_sdk.Base.{
  ℕ, ◌+◌, ◌-◌, ◌*◌, ◌^◌, Bool, true, false, not, ◌&&◌, ◌||◌, if◌then◌else◌, List, [], ◌∷◌, ◌++◌,
  Option, none, some, ltb, leb, ◌==◌,
}
use lumen_sdk.Base.Int.{ℤ, pos, negsuc}
use lumen_sdk.Base.Text.{Text, codes, contains_rune}

-- net.JoinHostPort
unfoldable pub join_host_port : Text → Text → Text
unfolding contains_rune
join_host_port host port =
    if contains_rune b':' host
    then codes "[" ++ (host ++ (codes "]:" ++ port))
    else host ++ (codes ":" ++ port)

-- What is before the last colon, and behind it.
unfoldable pub last_colon : Text → Option (Text × Text)
last_colon [] = none
last_colon (c ∷ s) = elim (last_colon s) [
  | none ↦ if c == b':' then some ([], s) else none
  | some (host, port) ↦ some (c ∷ host, port)
]

-- The host in front of the bracket that ends the text, if it is the first one.
unfoldable pub bracketed : Text → Option Text
bracketed [] = none
bracketed (c ∷ []) = if c == b']' then some [] else none
bracketed (c ∷ d ∷ s) =
    let rest = bracketed (d ∷ s) in
    if c == b']' then none else elim rest [ none ↦ none | some host ↦ some (c ∷ host) ]

abbrev pub has_bracket : Text → Bool
has_bracket s = contains_rune b'[' s || contains_rune b']' s

abbrev pub plain_host : Text → Text → Option (Text × Text)
plain_host host port =
    if contains_rune b':' host || (has_bracket host || has_bracket port)
    then none
    else some (host, port)

abbrev pub in_brackets : Option Text → Text → Option (Text × Text)
in_brackets none port = none
in_brackets (some host) port =
    if contains_rune b'[' host || has_bracket port then none else some (host, port)

abbrev pub host_of : Text → Text → Option (Text × Text)
host_of [] port = plain_host [] port
host_of (c ∷ s) port = if c == b'[' then in_brackets (bracketed s) port else plain_host (c ∷ s) port

-- net.SplitHostPort; `none` is an error.
unfoldable pub split_host_port : Text → Option (Text × Text)
unfolding last_colon bracketed contains_rune
split_host_port address = elim (last_colon address) [
  | none ↦ none
  | some (before, port) ↦ host_of before port
]

-- Decimal digits, from the value of those before.
unfoldable pub decimal : ℕ → Text → Option ℕ
decimal n [] = some n
decimal n (c ∷ s) =
    let rest = decimal (n * 10 + (c - b'0')) s in if leb b'0' c && leb c b'9' then rest else none

abbrev pub decimals : Text → Option ℕ
decimals [] = none
decimals (c ∷ s) = decimal 0 (c ∷ s)

abbrev pub positive : Option ℕ → Option ℤ
positive none = none
positive (some n) = if ltb n (2 ^ 63) then some (pos n) else none

abbrev pub negative : Option ℕ → Option ℤ
negative none = none
negative (some n) = if leb n (2 ^ 63) then some (if n == 0 then pos 0 else negsuc (n - 1)) else none

-- strconv.Atoi; `none` is an error.
unfoldable pub atoi : Text → Option ℤ
unfolding decimal
atoi [] = none
atoi (c ∷ s) =
    if c == b'-'
    then negative (decimals s)
    else if c == b'+'
    then positive (decimals s)
    else positive (decimals (c ∷ s))
