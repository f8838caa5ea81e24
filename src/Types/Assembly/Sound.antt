-- ===== src/Types/Assembly/Sound.antt =====
-- What a successful AssembleInferResponses has seen.
use lumen_sdk.Base.{
  ℕ, zero, suc, ◌+◌, ◌-◌, ◌<◌, ◌≤◌, ◌≡◌, ◌≢◌, refl, sym, ap, ◌∙◌, subst, List, [], ◌∷◌, ◌++◌, map,
  Perm, Option, none, some, ok, ◌>>=◌, >>=-eq-ok, arith, length, get_elem?, All, All-get_elem?,
  present, append-nil, length-map, ◌⊎◌, inl, inr, length-replicate,
}
use lumen_sdk.Types.Proto.{InferResponse}
use lumen_sdk.Types.Assembly.{
  assemble_infer_responses, assemble_chunks, scan_totals, declare_total, fill, join, merged,
  chunk_at, max_int,
}
use lumen_sdk.Types.Assembly.Spec.{IsStream, bytes}
use lumen_sdk.Types.Assembly.Fill.{
  fill-IsPlaced, present-fill-perm, length-fill, empty_array, replicate-IsPlaced,
}
use lumen_sdk.Types.Assembly.Join.{join_sound}
use lumen_sdk.Types.Assembly.Complete.{IsChunked, last_of, chunk_at-eq-ok, get_elem?-last}

-- What the first loop has found: the responses, and their total, which is 0 if none declares one.
record Scanned (before : ℕ) (responses : List (Option InferResponse)) (total : ℕ)
    (rs : List InferResponse) : Type 0 where
  listed : responses ≡ map some rs
  declared : (total ≡ 0) ⊎ (1 < total)
  kept : before ≢ 0 → total ≡ before
  quiet : total ≡ 0 → All (λ r. r.total ≤ 1) rs

declare_total_lem :
    (before total : ℕ) (r : InferResponse)
    → declare_total before r ≡ ok total
    → (before ≢ 0 → total ≡ before)
      × (total ≡ 0 → r.total ≤ 1)
      × ((before ≡ 0) ⊎ (1 < before) → (total ≡ 0) ⊎ (1 < total))
unfolding declare_total
declare_total_lem before total r e = (λ h. ground arith, λ h. ground arith, λ h. ground arith)

scan_totals-cons :
    (index before : ℕ) (r : InferResponse) (os : List (Option InferResponse)) {total : ℕ}
    {out : List InferResponse}
    → scan_totals index before (some r ∷ os) ≡ ok (total, out)
    → (declared : ℕ) × (rs : List InferResponse) × (declare_total before r ≡ ok declared)
      × (scan_totals (index + 1) declared os ≡ ok (total, rs))
      × (out ≡ r ∷ rs)
unfolding scan_totals
scan_totals-cons index before r os e =
    let (declared, first, later) =
      >>=-eq-ok (declare_total before r)
        (λ declared. scan_totals (index + 1) declared os >>= (λ p. ok (p.0, r ∷ p.1))) e in
    let (p, next, done) =
      >>=-eq-ok (scan_totals (index + 1) declared os) (λ p. ok (p.0, r ∷ p.1)) later in
    (declared, p.1, first, ground (arith, next, done), ground (arith, done))

scan_totals_sound :
    (index before : ℕ) (os : List (Option InferResponse)) {total : ℕ} {rs : List InferResponse}
    → (before ≡ 0) ⊎ (1 < before)
    → scan_totals index before os ≡ ok (total, rs)
    → Scanned before os total rs
unfolding scan_totals
scan_totals_sound index before [] {total} {rs} h e =
    let same : before ≡ total = ground arith in
    let none_left : rs ≡ [] = ground arith in
    record {
      listed = rw none_left;
      declared = rw (← same) h;
      kept = λ _. sym same;
      quiet = λ _. rw none_left tt;
    }
scan_totals_sound index before (none ∷ os) h e = cc
scan_totals_sound index before (some r ∷ os) {total} {rs} h e =
    let (declared, out, first, next, same) = scan_totals-cons index before r os e in
    let (keeps, small, range) = declare_total_lem before declared r first in
    let later = scan_totals_sound (index + 1) declared os (range h) next in
    record {
      listed = rw (same, later.listed);
      declared = later.declared;
      kept = λ p. ground (arith, keeps, later.kept);
      quiet = λ z. rw same (small (ground (arith, later.kept)), later.quiet z);
    }

assemble_chunks-eq-ok :
    (total : ℕ) (rs : List InferResponse) {out : InferResponse}
    → assemble_chunks total rs ≡ ok out
    → (chunks : List (Option InferResponse)) × (first : InferResponse) × (result : List ℕ)
      × (last : InferResponse) × (total ≤ max_int)
      × (length rs ≡ total)
      × (fill total rs (empty_array total) ≡ ok chunks)
      × (chunk_at chunks 0 ≡ ok first)
      × (join first (length chunks) 0 0 [] chunks ≡ ok result)
      × (chunk_at chunks (length chunks - 1) ≡ ok last)
      × (out ≡ merged last result)
unfolding assemble_chunks
assemble_chunks-eq-ok total rs e = ground arith

record Streamed (total : ℕ) (rs : List InferResponse) (out : InferResponse) : Type 0 where
  first : InferResponse
  rest : List InferResponse
  chunked : IsChunked first rest
  perm : Perm (first ∷ rest) rs
  answer : out ≡ merged (last_of first rest) (bytes (first ∷ rest))

present-empty_array : (n : ℕ) → present (empty_array n) ≡ []
present-empty_array zero = refl
present-empty_array (suc n) = present-empty_array n

Streamed-of_stream :
    (total : ℕ) (rs cs : List InferResponse) (first last out : InferResponse)
    → 1 < total
    → total ≤ max_int
    → length (map {B = Option InferResponse} some cs) ≡ total
    → chunk_at (map some cs) 0 ≡ ok first
    → chunk_at (map some cs) (length (map {B = Option InferResponse} some cs) - 1) ≡ ok last
    → IsStream first (length (map {B = Option InferResponse} some cs)) 0 0 cs
    → Perm cs rs
    → out ≡ merged last (bytes cs)
    → Streamed total rs out
Streamed-of_stream total rs [] first last out several small long head final stream perm same =
    absurd (omega arith)
Streamed-of_stream total rs (c ∷ cs) first last out several small long head final stream perm same =
    record {
      first = c;
      rest = cs;
      chunked = record {
        several = λ e. absurd (omega (arith, ap length e, counted));
        countable = omega (arith, counted);
        stream =
            subst (λ f. IsStream f (length (c ∷ cs)) 0 0 (c ∷ cs)) (sym is_first)
              (subst (λ n. IsStream first n 0 0 (c ∷ cs)) (ap suc counted) stream);
      };
      perm = perm;
      answer = same ∙ ap (λ l. merged l (bytes (c ∷ cs))) (sym is_last);
    }
  where
    counted : length (map {B = Option InferResponse} some cs) ≡ length cs
    counted = length-map cs (λ c. some c)

    is_first : c ≡ first
    is_first = ground (arith, chunk_at-eq-ok (map some (c ∷ cs)) 0 head)

    is_last : last_of c cs ≡ last
    is_last = ground (
      arith,
      get_elem?-last c cs,
      chunk_at-eq-ok (map some (c ∷ cs)) (length cs)
          (subst (λ n. chunk_at (map some (c ∷ cs)) n ≡ ok last) (omega (arith, counted)) final),
    )

assemble_chunks_sound :
    (total : ℕ) (rs : List InferResponse) {out : InferResponse}
    → 1 < total
    → assemble_chunks total rs ≡ ok out
    → Streamed total rs out
assemble_chunks_sound total rs {out} several e =
    let (chunks, first, result, last, small, counted, filled, head, joined, final, same) =
      assemble_chunks-eq-ok total rs e in
    let long : length chunks ≡ total =
      length-fill total rs (empty_array total) filled ∙ length-replicate total none in
    let placed =
      fill-IsPlaced total rs (empty_array total) filled (replicate-IsPlaced total total) in
    let (whole, stream, read) =
      join_sound first (length chunks) 0 0 [] result chunks joined
        (λ i r h. let at = placed i r h in (omega arith, at.1 ∙ sym long)) in
    let perm : Perm (present chunks) rs =
      subst (Perm (present chunks)) (ap (◌++◌ rs) (present-empty_array total) ∙ append-nil rs)
        (present-fill-perm total rs (empty_array total) filled) in
    Streamed-of_stream total rs (present chunks) first last out several small
      (ap length (sym whole) ∙ long) (subst (λ xs. chunk_at xs 0 ≡ ok first) whole head)
      (subst (λ xs. chunk_at xs (length xs - 1) ≡ ok last) whole final)
      (subst (λ xs. IsStream first (length xs) 0 0 (present chunks)) whole stream) perm
      (same ∙ ap (merged last) read)

get_elem?-map-some :
    (rs : List InferResponse) (i : ℕ) {c : InferResponse}
    → get_elem? (map {B = Option InferResponse} some rs) i ≡ some (some c)
    → get_elem? rs i ≡ some c
get_elem?-map-some [] i e = cc
get_elem?-map-some (r ∷ rs) zero e = cc
get_elem?-map-some (r ∷ rs) (suc i) e = get_elem?-map-some rs i e

-- If a response that is returned comes from a stream in which some response declares more than one
-- chunk, then no response is nil, the responses are a permutation of the numbered chunks
-- `first ∷ rest` of one response, and the answer has the bytes of all of them in order.
pub assemble_sound :
    (os : List (Option InferResponse)) (i : ℕ) (c out : InferResponse)
    → get_elem? os i ≡ some (some c)
    → 1 < c.total
    → assemble_infer_responses os ≡ ok out
    → (first : InferResponse) × (rest rs : List InferResponse) × (os ≡ map some rs)
      × IsChunked first rest
      × Perm (first ∷ rest) rs
      × (out ≡ merged (last_of first rest) (bytes (first ∷ rest)))
unfolding assemble_infer_responses
assemble_sound [] i c out at many e = cc
assemble_sound (o ∷ os) i c out at many e =
    let (p, scanned, rest) = >>=-eq-ok (scan_totals 0 0 (o ∷ os)) _ e in
    let found = scan_totals_sound 0 0 (o ∷ os) {total = p.0} {rs = p.1} (inl refl) scanned in
    let listed : get_elem? p.1 i ≡ some c =
      get_elem?-map-some p.1 i (subst (λ xs. get_elem? xs i ≡ some (some c)) found.listed at) in
    elim found.declared [
      | inl undeclared ↦
          absurd
            (omega (arith, All-get_elem? (λ r. r.total ≤ 1) p.1 i (found.quiet undeclared) listed))
      | inr several ↦
          let s = assemble_chunks_sound p.0 p.1 several (ground arith) in
          (s.first, s.rest, p.1, found.listed, s.chunked, s.perm, s.answer)
    ]
