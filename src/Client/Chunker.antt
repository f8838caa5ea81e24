-- ===== src/Client/Chunker.antt =====
-- pkg/client/chunker.go, and the requests that LumenClient.Infer of pkg/client/client.go sends for the
-- chunks. An int that the loop computes is the bit pattern of an int64. The loop runs on fuel, which
-- `chunk_payload` gives as the length of the payload; running out of it is an error of its own.
pub mod Laws
pub mod Requests
mod Tests
use lumen_sdk.Base.{
  ◌==◌, ℕ, zero, suc, ◌+◌, ◌-◌, ◌%◌, ◌^◌, Bool, true, false, not, ◌&&◌, ◌||◌, if◌then◌else◌, List,
  [], ◌∷◌, ltb, leb, take, drop, length, Result, ok, err, ◌>>=◌,
}
use lumen_sdk.Base.Int.{ℤ, pos, negsuc, ltb_ℤ}
use lumen_sdk.Types.Proto.{InferRequest}

pub record ChunkConfig : Type 0 where
  pub enable_auto : Bool
  pub threshold : ℤ
  pub max_chunk_bytes : ℤ

pub data ChunkError : Type 0 where
  invalid_max_chunk_bytes : ChunkError
  slice_panic : ChunkError
  out_of_fuel : ChunkError

abbrev pub largest_int : ℕ
largest_int = 2 ^ 63 - 1

-- `off < n` of an int64 and a length.
abbrev pub is_before_end : ℕ → ℕ → Bool
is_before_end off n = ltb largest_int off || ltb off n

-- `if end > n { end = n }`
abbrev pub cap_end : ℕ → ℕ → ℕ
cap_end end n = if leb end largest_int && ltb n end then n else end

-- `payload[off:end]`, which panics for bounds that are negative or not in order.
unfoldable pub slice : List ℕ → ℕ → ℕ → Result ChunkError (List ℕ)
slice payload off end =
    if leb off end && leb end (length payload)
    then ok (take (end - off) (drop off payload))
    else err slice_panic

unfoldable pub chunks_from : ℕ → List ℕ → ℕ → ℕ → Result ChunkError (List (List ℕ))
unfolding slice
chunks_from zero payload size off =
    if is_before_end off (length payload) then err out_of_fuel else ok []
chunks_from (suc fuel) payload size off =
    let rest = chunks_from fuel payload size ((off + size) % 2 ^ 64) in
    if is_before_end off (length payload)
    then slice payload off (cap_end ((off + size) % 2 ^ 64) (length payload))
      >>= (λ chunk. rest >>= (λ chunks. ok (chunk ∷ chunks)))
    else ok []

abbrev pub chunks_of : List ℕ → ℤ → ℤ → Result ChunkError (List (List ℕ))
chunks_of payload threshold (negsuc n) = err invalid_max_chunk_bytes
chunks_of payload threshold (pos size) =
    if leb size 0
    then err invalid_max_chunk_bytes
    else if not (ltb_ℤ threshold (pos (length payload)))
    then ok (payload ∷ [])
    else chunks_from (length payload) payload size 0

unfoldable pub chunk_payload : List ℕ → ChunkConfig → Result ChunkError (List (List ℕ))
unfolding chunks_from
chunk_payload payload cfg =
    if not cfg.enable_auto
    then ok (payload ∷ [])
    else chunks_of payload cfg.threshold cfg.max_chunk_bytes

-- The sending loop of Infer from chunk `i` on, at the offset; counters are uint64.
unfoldable pub requests_from : InferRequest → ℕ → ℕ → ℕ → List (List ℕ) → List InferRequest
requests_from req total i offset [] = []
requests_from req total i offset (chunk ∷ chunks) =
    record req { payload = chunk; seq = i; total = total; offset = offset }
    ∷ requests_from req total ((i + 1) % 2 ^ 64) ((offset + length chunk) % 2 ^ 64) chunks

unfoldable pub chunk_requests : InferRequest → List (List ℕ) → List InferRequest
unfolding requests_from
chunk_requests req chunks = requests_from req (length chunks % 2 ^ 64) 0 0 chunks

-- The requests that Infer sends: the request itself if there is one chunk, and else one for each chunk.
unfoldable pub sent_requests : InferRequest → List (List ℕ) → List InferRequest
unfolding chunk_requests
sent_requests req chunks = if length chunks == 1 then req ∷ [] else chunk_requests req chunks
