-- ===== src/Types/Assembly/Spec.antt =====
-- What a stream of response chunks promises, independently of the code that checks it.
use lumen_sdk.Base.{ℕ, ◌+◌, ◌%◌, ◌≡◌, ap, ◌==◌, List, [], ◌∷◌, length, map, All, concat}
use lumen_sdk.Base.Text.{Text}
use lumen_sdk.Types.Proto.{InferResponse, meta_get}
use lumen_sdk.Types.Assembly.{output_contract_meta_keys, uint64_mod}

-- The chunk agrees with the first one on what describes the output.
pub record SameContract (first c : InferResponse) : Type 0 where
  pub correlation : c.correlation_id ≡ first.correlation_id
  pub mime : c.result_mime ≡ first.result_mime
  pub schema : c.result_schema ≡ first.result_schema
  pub metadata :
      All (λ key. meta_get c.meta key ≡ meta_get first.meta key) output_contract_meta_keys

-- The chunks from `seq` and `offset` on, of `count` in all: numbered in order, with the byte offset of
-- what came before, the last one and no other marked final, each under the contract of the first.
abbrev pub IsStream : InferResponse → ℕ → ℕ → ℕ → List InferResponse → Type 0
IsStream first count seq offset [] = Unit
IsStream first count seq offset (c ∷ cs) =
    (c.seq ≡ seq)
    × (c.total ≡ count)
    × (c.offset ≡ offset)
    × (c.is_final ≡ (seq + 1 == count))
    × SameContract first c
    × IsStream first count (seq + 1) ((offset + length c.result) % uint64_mod) cs

-- Each response declares the total and is numbered from `seq` on.
abbrev pub IsNumbered : ℕ → ℕ → List InferResponse → Type 0
IsNumbered count seq [] = Unit
IsNumbered count seq (c ∷ cs) = (c.seq ≡ seq) × (c.total ≡ count) × IsNumbered count (seq + 1) cs

pub IsStream-IsNumbered :
    (first : InferResponse) (count seq offset : ℕ) (cs : List InferResponse)
    → IsStream first count seq offset cs
    → IsNumbered count seq cs
IsStream-IsNumbered first count seq offset [] s = tt
IsStream-IsNumbered first count seq offset (c ∷ cs) s =
    (s.0, s.1, IsStream-IsNumbered first count (seq + 1) _ cs s.5)

-- The bytes of the chunks, in order.
abbrev pub bytes : List InferResponse → List ℕ
bytes cs = concat (map (λ c. c.result) cs)

-- Chunks that carry the same metadata agree on every key.
pub metadata_same :
    (c first : InferResponse)
    → c.meta ≡ first.meta
    → (keys : List Text) → All (λ key. meta_get c.meta key ≡ meta_get first.meta key) keys
metadata_same c first e [] = tt
metadata_same c first e (key ∷ keys) = (ap (λ m. meta_get m key) e, metadata_same c first e keys)
