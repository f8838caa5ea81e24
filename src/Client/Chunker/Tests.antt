-- ===== src/Client/Chunker/Tests.antt =====
-- The theorems on chunks at concrete payloads, and runs of the chunker.
use lumen_sdk.Base.{
  ℕ, ◌≡◌, ◌==◌, ◌⊎◌, refl, true, false, length, List, [], ◌∷◌, concat, All, ok, none, arith,
}
use lumen_sdk.Base.Int.{pos, negsuc}
use lumen_sdk.Types.Proto.{InferRequest}
use lumen_sdk.Client.Chunker.{ChunkConfig, chunk_payload, sent_requests}
use lumen_sdk.Client.Chunker.Laws.{IsChunk, AreNumbered, payloads, chunk_payload_lem}
use lumen_sdk.Client.Chunker.Requests.{sent_requests_lem}

abbrev bytes : List ℕ
bytes = 1 ∷ 2 ∷ 3 ∷ 4 ∷ 5 ∷ []

abbrev pairs : ChunkConfig
pairs = record { enable_auto = true; threshold = pos 3; max_chunk_bytes = pos 2 }

abbrev cut : List (List ℕ)
cut = (1 ∷ 2 ∷ []) ∷ (3 ∷ 4 ∷ []) ∷ (5 ∷ []) ∷ []

in_pairs : chunk_payload bytes pairs ≡ ok cut
unfolding chunk_payload
in_pairs = refl

-- An empty payload has no chunk at all where the threshold is negative.
no_chunks : chunk_payload [] (record pairs { threshold = negsuc 0 }) ≡ ok []
unfolding chunk_payload
no_chunks = refl

chunk_payload_lem_example :
    (chunks : List (List ℕ)) × (chunk_payload bytes pairs ≡ ok chunks)
    × (concat chunks ≡ bytes)
    × All (IsChunk 2) chunks
chunk_payload_lem_example =
    chunk_payload_lem bytes (pos 3) 2 (omega arith) (omega arith) (omega arith) refl

abbrev request : InferRequest
request = record {
  correlation_id = [];
  task = [];
  payload = bytes;
  meta = none;
  payload_mime = [];
  seq = 0;
  total = 0;
  offset = 0;
}

sent_requests_lem_example :
    (concat (payloads (sent_requests request cut)) ≡ bytes)
    × ((((length cut == 1) ≡ true) × (sent_requests request cut ≡ request ∷ []))
        ⊎ (((length cut == 1) ≡ false)
            × AreNumbered request (length cut) 0 0 (sent_requests request cut)
            × (payloads (sent_requests request cut) ≡ cut)))
sent_requests_lem_example = sent_requests_lem request pairs cut (omega arith) (omega arith) in_pairs
