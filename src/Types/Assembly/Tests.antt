-- ===== src/Types/Assembly/Tests.antt =====
-- Runs of AssembleInferResponses, and the theorems at concrete streams.
use mathlib.Core.List.Perm
use lumen_sdk.Base.{
  ℕ, ◌≡◌, refl, Bool, true, false, List, [], ◌∷◌, map, Perm, Option, none, some, ok, err, arith,
}
use lumen_sdk.Base.Text.{codes}
use lumen_sdk.Types.Proto.{InferResponse}
use lumen_sdk.Types.Assembly.{assemble_infer_responses, merged, duplicate_seq, wrong_count}
use lumen_sdk.Types.Assembly.{scan_totals, declare_total, fill, assemble_chunks}
use lumen_sdk.Types.Assembly.Spec.{SameContract, metadata_same, bytes}
use lumen_sdk.Types.Assembly.Complete.{IsChunked, last_of, assemble_any_order}
use lumen_sdk.Types.Assembly.Sound.{assemble_sound}

abbrev piece : (seq offset : ℕ) → List ℕ → Bool → InferResponse
piece seq offset result is_final = record {
  correlation_id = codes "req-1";
  is_final = is_final;
  result = result;
  meta = some ((codes "lumen.model.id", codes "clip") ∷ []);
  error = none;
  seq = seq;
  total = 2;
  offset = offset;
  result_mime = codes "application/octet-stream";
  result_schema = codes "embedding_v1";
}

abbrev head : InferResponse
head = piece 0 0 (1 ∷ 2 ∷ 3 ∷ []) false

abbrev tail : InferResponse
tail = piece 1 3 (4 ∷ 5 ∷ []) true

agrees :
    (c : InferResponse)
    → c.correlation_id ≡ head.correlation_id
    → c.result_mime ≡ head.result_mime
    → c.result_schema ≡ head.result_schema
    → c.meta ≡ head.meta
    → SameContract head c
agrees c p q r s = record {
  correlation = p;
  mime = q;
  schema = r;
  metadata = metadata_same c head s _;
}

head-IsChunked : IsChunked head (tail ∷ [])
head-IsChunked = record {
  several = λ e. cc;
  countable = omega arith;
  stream = (
    refl,
    refl,
    refl,
    refl,
    agrees head refl refl refl refl,
    (refl, refl, refl, refl, agrees tail refl refl refl refl, tt),
  );
}

assemble_any_order_example :
    assemble_infer_responses (some tail ∷ some head ∷ [])
    ≡ ok (merged tail (1 ∷ 2 ∷ 3 ∷ 4 ∷ 5 ∷ []))
assemble_any_order_example =
    assemble_any_order head (tail ∷ []) (tail ∷ head ∷ []) head-IsChunked (Perm.swap tail head [])

assemble_sound_example :
    (first : InferResponse) × (rest rs : List InferResponse) × (◌≡◌
      {A = List (Option InferResponse)}
      (some tail ∷ some head ∷ [])
      (map some rs))
    × IsChunked first rest
    × Perm (first ∷ rest) rs
    × (merged tail (1 ∷ 2 ∷ 3 ∷ 4 ∷ 5 ∷ []) ≡ merged (last_of first rest) (bytes (first ∷ rest)))
assemble_sound_example =
    assemble_sound (some tail ∷ some head ∷ []) 0 tail (merged tail (1 ∷ 2 ∷ 3 ∷ 4 ∷ 5 ∷ [])) refl
      (omega arith) assemble_any_order_example

twice : assemble_infer_responses (some head ∷ some head ∷ []) ≡ err (duplicate_seq 0)
unfolding assemble_infer_responses scan_totals declare_total assemble_chunks fill
twice = refl

missing : assemble_infer_responses (some head ∷ []) ≡ err (wrong_count 2 1)
unfolding assemble_infer_responses scan_totals declare_total assemble_chunks
missing = refl
