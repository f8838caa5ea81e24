-- ===== src/Types/Proto.antt =====
-- The messages of proto/ml_service.pb.go that the SDK reads and writes: their exported fields.
use lumen_sdk.Base.{ℕ, Bool, List, Option, none, some}
use lumen_sdk.Base.Text.{Text}
use lumen_sdk.Base.Dict.{lookup}

-- `map[string]string`, which may be nil.
abbrev pub Meta : Type 0
Meta = Option (List (Text × Text))

-- `m[k]`: the empty string where the map is nil or lacks the key.
unfoldable pub meta_get : Meta → Text → Text
unfolding lookup
meta_get none k = lumen_sdk.Base.Text.codes ""
meta_get (some m) k = elim (lookup k m) [ none ↦ lumen_sdk.Base.Text.codes "" | some v ↦ v ]

-- A message of `Error`; its code is the number of the protobuf enum.
pub record PbError : Type 0 where
  pub code : ℕ
  pub message : Text
  pub detail : Text

pub record IoTask : Type 0 where
  pub name : Text
  pub input_mimes : List Text
  pub output_mimes : List Text
  pub limits : Meta
  pub tensor_preprocess_id : Text
  pub tensor_batching_supported : Bool

pub record Capability : Type 0 where
  pub service_name : Text
  pub model_ids : List Text
  pub runtime : Text
  pub max_concurrency : ℕ
  pub precisions : List Text
  pub extra : Meta
  pub tasks : List IoTask
  pub protocol_version : Text

-- Bytes are numbers below 256; `seq`, `total` and `offset` are numbers below 2 ^ 64.
pub record InferRequest : Type 0 where
  pub correlation_id : Text
  pub task : Text
  pub payload : List ℕ
  pub meta : Meta
  pub payload_mime : Text
  pub seq : ℕ
  pub total : ℕ
  pub offset : ℕ

pub record InferResponse : Type 0 where
  pub correlation_id : Text
  pub is_final : Bool
  pub result : List ℕ
  pub meta : Meta
  pub error : Option PbError
  pub seq : ℕ
  pub total : ℕ
  pub offset : ℕ
  pub result_mime : Text
  pub result_schema : Text
