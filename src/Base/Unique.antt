-- ===== src/Base/Unique.antt =====
-- The loops that trim texts and keep the first of each that is not empty: a set of what has been seen
-- and the list that is returned.
use lumen_sdk.Base.{
  ◌≡◌, refl, ap, ◌∙◌, Bool, true, false, not, ◌||◌, ◌&&◌, List, [], ◌∷◌, ◌++◌, Option, none, some,
  arith, if◌then◌else◌,
}
use lumen_sdk.Base.Text.{Text, text_eq, text_eq_iff, text_eq_refl, is_empty}
use lumen_sdk.Base.Dict.{lookup, insert, lookup-insert}

-- A task or another text stands in a list.
unfoldable pub contains : List Text → Text → Bool
unfolding text_eq
contains [] t = false
contains (x ∷ xs) t = text_eq x t || contains xs t

abbrev pub is_some {ℓ} : {A : Type ℓ} → Option A → Bool
is_some none = false
is_some (some a) = true

pub record Visited : Type 0 where
  pub seen : List (Text × Unit {0})
  pub out : List Text

abbrev pub nothing_seen : Visited
nothing_seen = record { seen = []; out = [] }

-- One round, for a text that is trimmed already.
pub visit : Visited → Text → Visited
visit s t =
    if is_empty t || is_some (lookup t s.seen)
    then s
    else record { seen = insert t tt s.seen; out = s.out ++ t ∷ [] }

-- The loop over texts; `clean` trims.
unfoldable pub visit_all : (Text → Text) → Visited → List Text → Visited
unfolding visit lookup insert
visit_all clean s [] = s
visit_all clean s (t ∷ ts) = visit_all clean (visit s (clean t)) ts

-- Of one text, that text is left.
pub visit_all-one :
    (clean : Text → Text) (t u : Text)
    → clean t ≡ u
    → is_empty u ≡ false
    → (visit_all clean nothing_seen (t ∷ [])).out ≡ u ∷ []
unfolding visit_all
visit_all-one clean t u e h = rw (e, h) refl

contains-last :
    (xs : List Text) (t u : Text) → contains (xs ++ t ∷ []) u ≡ (contains xs u || text_eq t u)
unfolding contains
contains-last [] t u = ground arith
contains-last (x ∷ xs) t u = ground (arith, contains-last xs t u)

-- The set holds what the list holds.
pub record Agrees (s : Visited) : Type 0 where
  pub same : (t : Text) → is_some (lookup t s.seen) ≡ contains s.out t

pub nothing_seen-Agrees : Agrees nothing_seen
unfolding lookup contains
nothing_seen-Agrees = record { same = λ t. refl }

pub visit-Agrees : (s : Visited) (t : Text) → Agrees s → Agrees (visit s t)
unfolding visit
visit-Agrees s t a = record {
  same = λ u. ground (arith, a.same u, lookup-insert t u tt s.seen, contains-last s.out t u);
}

-- What is in the list after a round.
visit-contains :
    (s : Visited) (t u : Text)
    → Agrees s
    → contains (visit s t).out u ≡ (contains s.out u || (not (is_empty t) && text_eq t u))
unfolding visit
visit-contains s t u a = ground (arith, a.same t, contains-last s.out t u, text_eq_iff t u)

-- Some text of the list is cleaned to `u`, which is not empty.
abbrev pub cleans_to : (Text → Text) → List Text → Text → Bool
cleans_to clean [] u = false
cleans_to clean (t ∷ ts) u =
    (not (is_empty (clean t)) && text_eq (clean t) u) || cleans_to clean ts u

pub visit_all-Agrees :
    (clean : Text → Text) (s : Visited) (ts : List Text) → Agrees s → Agrees (visit_all clean s ts)
unfolding visit_all
visit_all-Agrees clean s [] a = a
visit_all-Agrees clean s (t ∷ ts) a =
    visit_all-Agrees clean (visit s (clean t)) ts (visit-Agrees s (clean t) a)

-- What is in the list after the loop: what was, and what the texts are cleaned to.
pub visit_all-contains :
    (clean : Text → Text) (s : Visited) (ts : List Text) (u : Text)
    → Agrees s
    → contains (visit_all clean s ts).out u ≡ (contains s.out u || cleans_to clean ts u)
unfolding visit_all
visit_all-contains clean s [] u a = ground arith
visit_all-contains clean s (t ∷ ts) u a = ground (
  arith,
  visit_all-contains clean (visit s (clean t)) ts u (visit-Agrees s (clean t) a),
  visit-contains s (clean t) u a,
)

-- No text stands in the list twice.
abbrev pub IsUnique : List Text → Type 0
IsUnique [] = Unit {0}
IsUnique (x ∷ xs) = (contains xs x ≡ false) × IsUnique xs

IsUnique-last :
    (xs : List Text) (t : Text) → IsUnique xs → contains xs t ≡ false → IsUnique (xs ++ t ∷ [])
unfolding contains
IsUnique-last [] t h e = (refl, tt)
IsUnique-last (x ∷ xs) t h e = (
  ground (arith, contains-last xs t x, text_eq_iff t x, text_eq_iff x t, h.0),
  IsUnique-last xs t h.1 (ground arith),
)

visit-IsUnique : (s : Visited) (t : Text) → Agrees s → IsUnique s.out → IsUnique (visit s t).out
unfolding visit
visit-IsUnique s t a h = ground (arith, a.same t, IsUnique-last s.out t h)

pub visit_all-IsUnique :
    (clean : Text → Text) (s : Visited) (ts : List Text)
    → Agrees s
    → IsUnique s.out
    → IsUnique (visit_all clean s ts).out
unfolding visit_all
visit_all-IsUnique clean s [] a h = h
visit_all-IsUnique clean s (t ∷ ts) a h =
    visit_all-IsUnique clean (visit s (clean t)) ts (visit-Agrees s (clean t) a)
      (visit-IsUnique s (clean t) a h)

-- A round over texts that are all in the list changes nothing.
pub visit_all_known :
    (clean : Text → Text) (s : Visited) (ts : List Text)
    → Agrees s
    → ((u : Text) → cleans_to clean ts u ≡ true → contains s.out u ≡ true)
    → visit_all clean s ts ≡ s
unfolding visit_all
visit_all_known clean s [] a h = refl
visit_all_known clean s (t ∷ ts) a h =
    ap (λ v. visit_all clean v ts) known ∙ visit_all_known clean s ts a (λ u e. h u (ground arith))
  where
    known : visit s (clean t) ≡ s
    known = unfold visit in ground (arith, h (clean t), text_eq_refl (clean t), a.same (clean t))
