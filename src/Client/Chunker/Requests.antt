-- ===== src/Client/Chunker/Requests.antt =====
-- The requests that Infer sends for a payload, whether it has one chunk or several.
use lumen_sdk.Base.{
  ℕ, zero, suc, ◌+◌, ◌^◌, ◌≤◌, ◌≡◌, ◌==◌, ◌⊎◌, inl, inr, refl, sym, ap, ◌∙◌, subst, true, false,
  List, [], ◌∷◌, leb, length, All, concat, append-nil, Result, ok, err, arith, Bool-cases,
}
use lumen_sdk.Base.Int.{ℤ, pos, negsuc, ltb_ℤ}
use lumen_sdk.Types.Proto.{InferRequest}
use lumen_sdk.Client.Chunker.{
  ChunkConfig, ChunkError, largest_int, chunk_payload, chunks_of, sent_requests,
}
use lumen_sdk.Client.Chunker.Laws.{
  IsChunk, AreNumbered, payloads, chunk_payload_lem, chunk_requests_lem, length-concat_cons,
}

-- The largest size of a chunk is an int.
abbrev pub IsInt : ℤ → Type 0
IsInt (pos n) = n ≤ largest_int
IsInt (negsuc n) = Unit

-- The chunks give the payload back, and there are not more of them than bytes, or one.
record Cut (payload : List ℕ) (chunks : List (List ℕ)) : Type 0 where
  whole : concat chunks ≡ payload
  few : length chunks ≤ length payload + 1

ok_eq : {a b : List (List ℕ)} → ◌≡◌ {A = Result ChunkError (List (List ℕ))} (ok a) (ok b) → a ≡ b
ok_eq {a} {b} e = ap (λ r. or_first r) e
  where
    or_first : Result ChunkError (List (List ℕ)) → List (List ℕ)
    or_first (err e) = a
    or_first (ok c) = c

length-IsChunk :
    (size : ℕ) (chunks : List (List ℕ))
    → All (IsChunk size) chunks
    → length chunks ≤ length (concat chunks)
length-IsChunk size [] h = omega arith
length-IsChunk size (c ∷ cs) h =
    omega (arith, h.0.0, length-IsChunk size cs h.1, length-concat_cons c cs)

one-Cut : (payload : List ℕ) → Cut payload (payload ∷ [])
one-Cut payload = record { whole = append-nil payload; few = omega arith }

chunks_of-Cut :
    (payload : List ℕ) (threshold max : ℤ) (chunks : List (List ℕ))
    → length payload ≤ 2 ^ 62
    → IsInt max
    → chunk_payload payload
        (record { enable_auto = true; threshold = threshold; max_chunk_bytes = max })
      ≡ ok chunks
    → Cut payload chunks
unfolding chunk_payload
chunks_of-Cut payload threshold (negsuc n) chunks small int e = cc
chunks_of-Cut payload threshold (pos zero) chunks small int e = cc
chunks_of-Cut payload threshold (pos (suc n)) chunks small int e =
    elim (Bool-cases (ltb_ℤ threshold (pos (length payload)))) [
      | inl above ↦
          let (cs, found, whole, sizes) =
            chunk_payload_lem payload threshold (suc n) (omega arith) int small above in
          let same : cs ≡ chunks = ok_eq (sym found ∙ e) in
          subst (Cut payload) same (record {
            whole = whole;
            few = omega (arith, length-IsChunk (suc n) cs sizes, ap length whole);
          })
      | inr below ↦ subst (Cut payload) (ok_eq (sym (uncut below) ∙ e)) (one-Cut payload)
    ]
  where
    uncut :
        ltb_ℤ threshold (pos (length payload)) ≡ false
        → chunks_of payload threshold (pos (suc n)) ≡ ok (payload ∷ [])
    uncut below = rw below (rw some_size refl)
      where
        some_size : leb (suc n) 0 ≡ false
        some_size = ground arith

chunk_payload-Cut :
    (payload : List ℕ) (cfg : ChunkConfig) (chunks : List (List ℕ))
    → length payload ≤ 2 ^ 62
    → IsInt cfg.max_chunk_bytes
    → chunk_payload payload cfg ≡ ok chunks
    → Cut payload chunks
unfolding chunk_payload
chunk_payload-Cut payload cfg chunks small int e = elim (Bool-cases cfg.enable_auto) [
  | inl on ↦
      chunks_of-Cut payload cfg.threshold cfg.max_chunk_bytes chunks small int
        (subst (λ b. chunk_payload payload (record cfg { enable_auto = b }) ≡ ok chunks) on e)
  | inr off ↦
      subst (Cut payload)
        (ok_eq
          (subst (λ b. chunk_payload payload (record cfg { enable_auto = b }) ≡ ok chunks) off e))
        (one-Cut payload)
]

-- The requests that Infer sends, unless it stops before it has sent them all, for a payload of at most
-- 2 ^ 62 bytes that ChunkPayload has cut, with any configuration whose largest size is an int, carry its
-- bytes in order. If there is one chunk, the only request is the given one, unchanged; else there is one
-- for each chunk, with its number, the number of all, the number of bytes before it, and nothing else
-- changed.
pub sent_requests_lem :
    (req : InferRequest) (cfg : ChunkConfig) (chunks : List (List ℕ))
    → length req.payload ≤ 2 ^ 62
    → IsInt cfg.max_chunk_bytes
    → chunk_payload req.payload cfg ≡ ok chunks
    → (concat (payloads (sent_requests req chunks)) ≡ req.payload)
      × ((((length chunks == 1) ≡ true) × (sent_requests req chunks ≡ req ∷ []))
          ⊎ (((length chunks == 1) ≡ false)
              × AreNumbered req (length chunks) 0 0 (sent_requests req chunks)
              × (payloads (sent_requests req chunks) ≡ chunks)))
unfolding sent_requests
sent_requests_lem req cfg chunks small int e = elim (Bool-cases (length chunks == 1)) [
  | inl one ↦ rw one (append-nil req.payload, inl (refl, refl))
  | inr several ↦ rw several (
      let (numbered, same) =
        chunk_requests_lem req chunks (omega (arith, cut.few))
          (omega (arith, ap length cut.whole)) in
      (ap concat same ∙ cut.whole, inr (refl, numbered, same)))
]
  where
    cut : Cut req.payload chunks
    cut = chunk_payload-Cut req.payload cfg chunks small int e
