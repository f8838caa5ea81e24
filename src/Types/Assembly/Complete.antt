-- ===== src/Types/Assembly/Complete.antt =====
-- AssembleInferResponses on the chunks of one response.
use mathlib.Core.List.{Permᴰ}
use mathlib.Core.Logic.{∥∥₁_elim}
use lumen_sdk.Base.{
  ℕ, suc, ◌+◌, ◌<◌, ◌≤◌, ◌≡◌, ◌≢◌, refl, ap, ◌∙◌, List, [], ◌∷◌, map, Perm, Option, some, Result,
  ok, arith, length, get_elem?, All, length-map,
}
use lumen_sdk.Types.Proto.{InferResponse}
use lumen_sdk.Types.Assembly.{
  AssemblyError, assemble_infer_responses, assemble_chunks, scan_totals, declare_total, fill, join,
  merged, chunk_at, max_int,
}
use lumen_sdk.Types.Assembly.Spec.{IsStream, IsStream-IsNumbered, bytes}
use lumen_sdk.Types.Assembly.Fill.{fill_all, fill_perm, empty_array}
use lumen_sdk.Types.Assembly.Join.{join_complete}

-- The chunks `first ∷ rest` of one response, in the order of their numbers.
pub record IsChunked (first : InferResponse) (rest : List InferResponse) : Type 0 where
  pub several : rest ≢ []
  pub countable : length (first ∷ rest) ≤ max_int
  pub stream : IsStream first (length (first ∷ rest)) 0 0 (first ∷ rest)

-- The last chunk.
abbrev pub last_of : InferResponse → List InferResponse → InferResponse
last_of c [] = c
last_of c (d ∷ cs) = last_of d cs

scan_totals_later :
    (index total : ℕ) (rs : List InferResponse)
    → 1 < total
    → All (λ r. r.total ≡ total) rs
    → scan_totals index total (map some rs) ≡ ok (total, rs)
unfolding scan_totals
scan_totals_later index total [] h d = refl
scan_totals_later index total (r ∷ rs) h d =
    ground (arith, scan_totals_later (index + 1) total rs h d.1, declared)
  where
    declared : declare_total total r ≡ ok total
    declared = unfold declare_total in ground arith

scan_totals_first :
    (index total : ℕ) (r : InferResponse) (rs : List InferResponse)
    → 1 < total
    → All (λ r. r.total ≡ total) (r ∷ rs)
    → scan_totals index 0 (map some (r ∷ rs)) ≡ ok (total, r ∷ rs)
unfolding scan_totals
scan_totals_first index total r rs h d =
    ground (arith, scan_totals_later (index + 1) total rs h d.1, declared)
  where
    declared : declare_total 0 r ≡ ok total
    declared = unfold declare_total in ground arith

pub get_elem?-last :
    (c : InferResponse) (cs : List InferResponse)
    → get_elem? (map some (c ∷ cs)) (length cs) ≡ some (some (last_of c cs))
get_elem?-last c [] = refl
get_elem?-last c (d ∷ cs) = get_elem?-last d cs

chunk_at-some :
    (chunks : List (Option InferResponse)) (i : ℕ) {c : InferResponse}
    → get_elem? chunks i ≡ some (some c)
    → chunk_at chunks i ≡ ok c
unfolding chunk_at
chunk_at-some chunks i e = rw (e, chunk_at)

pub chunk_at-eq-ok :
    (chunks : List (Option InferResponse)) (i : ℕ) {c : InferResponse}
    → chunk_at chunks i ≡ ok c
    → get_elem? chunks i ≡ some (some c)
unfolding chunk_at
chunk_at-eq-ok chunks i e = ground arith

All-perm :
    (total : ℕ) {rs rs' : List InferResponse}
    → Permᴰ rs rs'
    → All (λ r. r.total ≡ total) rs
    → All (λ r. r.total ≡ total) rs'
All-perm total Permᴰ.nil h = tt
All-perm total (Permᴰ.cons e p) h = (rw (← e) h.0, All-perm total p h.1)
All-perm total (Permᴰ.swap e f) h = (rw (← f) h.1.0, (rw (← e) h.0, h.1.1))
All-perm total (Permᴰ.trans p q) h = All-perm total q (All-perm total p h)

length-perm : {rs rs' : List InferResponse} → Permᴰ rs rs' → length rs ≡ length rs'
length-perm Permᴰ.nil = refl
length-perm (Permᴰ.cons e p) = ap suc (length-perm p)
length-perm (Permᴰ.swap e f) = refl
length-perm (Permᴰ.trans p q) = length-perm p ∙ length-perm q

IsStream-total :
    (first : InferResponse) (count seq offset : ℕ) (cs : List InferResponse)
    → IsStream first count seq offset cs
    → All (λ r. r.total ≡ count) cs
IsStream-total first count seq offset [] s = tt
IsStream-total first count seq offset (c ∷ cs) s =
    (s.1, IsStream-total first count (seq + 1) _ cs s.5)

assemble_chunks_complete :
    (first : InferResponse) (rest rs : List InferResponse)
    → IsChunked first rest
    → Permᴰ (first ∷ rest) rs
    → assemble_chunks (length (first ∷ rest)) rs
      ≡ ok (merged (last_of first rest) (bytes (first ∷ rest)))
unfolding assemble_chunks
assemble_chunks_complete first rest rs v p = ground (
  arith,
  v.countable,
  length-perm p,
  filled,
  joined,
  length-map (first ∷ rest) (λ c. some c),
  chunk_at-some (map some (first ∷ rest)) 0 {c = first} refl,
  chunk_at-some (map some (first ∷ rest)) (length rest) (get_elem?-last first rest),
)
  where
    count : ℕ
    count = length (first ∷ rest)

    filled : fill count rs (empty_array count) ≡ ok (map some (first ∷ rest))
    filled = fill_perm count p (empty_array count) (
        fill_all count (first ∷ rest) (omega arith)
          (IsStream-IsNumbered first count 0 0 (first ∷ rest) v.stream))

    joined : join first count 0 0 [] (map some (first ∷ rest)) ≡ ok (bytes (first ∷ rest))
    joined = join_complete first count 0 0 [] (first ∷ rest) v.stream

Result-set : IsSet (Result AssemblyError InferResponse)
Result-set = hlevel

-- The chunks of a response, whatever the order in which they arrive, are assembled into one final
-- response with the last chunk's fields and the bytes of all chunks in the order of their numbers.
pub assemble_any_order :
    (first : InferResponse) (rest rs : List InferResponse)
    → IsChunked first rest
    → Perm (first ∷ rest) rs
    → assemble_infer_responses (map some rs)
      ≡ ok (merged (last_of first rest) (bytes (first ∷ rest)))
unfolding assemble_infer_responses
assemble_any_order first rest rs v perm = ∥∥₁_elim perm (Result-set _ _) (go rs)
  where
    count : ℕ
    count = length (first ∷ rest)

    several : 1 < count
    several =
        elim rest as (λ xs. xs ≢ [] → 1 < length (first ∷ xs)) [
          | [] ↦ λ h. absurd (h refl)
          | x ∷ xs ↦ λ _. omega arith
        ]
          v.several

    go :
        (rs : List InferResponse)
        → Permᴰ (first ∷ rest) rs
        → assemble_infer_responses (map some rs)
          ≡ ok (merged (last_of first rest) (bytes (first ∷ rest)))
    go [] p = absurd (omega (arith, length-perm p))
    go (r ∷ rs) p = ground (
      arith,
      several,
      scan_totals_first 0 count r rs several
          (All-perm count p (IsStream-total first count 0 0 (first ∷ rest) v.stream)),
      assemble_chunks_complete first rest (r ∷ rs) v p,
    )
