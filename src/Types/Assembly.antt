-- ===== src/Types/Assembly.antt =====
-- pkg/types/response_assembly.go: the chunks of a response stream are put together. A response is a
-- pointer, which may be nil; an error is a constructor with the values of its message.
pub mod Spec
mod Fill
mod Join
pub mod Complete
pub mod Sound
mod Tests
use mathlib.Core.List.{reverse}
use lumen_sdk.Base.{
  ℕ, zero, suc, ◌+◌, ◌-◌, ◌%◌, ◌^◌, Bool, true, false, List, [], ◌∷◌, ◌++◌, Option, none, some,
  Result, ok, err, ◌>>=◌, ◌>>◌, guard, leb, ltb, ◌==◌, if◌then◌else◌, length, get_elem?, set,
  replicate,
}
use lumen_sdk.Base.Text.{Text, codes, text_eq}
use lumen_sdk.Base.Dict.{insert}
use lumen_sdk.Types.Proto.{InferResponse, PbError, Meta, meta_get}

pub data AssemblyError : Type 0 where
  no_responses : AssemblyError
  nil_response : (index : ℕ) → AssemblyError
  inconsistent_total : (got want : ℕ) → AssemblyError
  total_too_large : (total : ℕ) → AssemblyError
  wrong_count : (want got : ℕ) → AssemblyError
  undeclared_total : (total : ℕ) → AssemblyError
  seq_out_of_range : (seq total : ℕ) → AssemblyError
  duplicate_seq : (seq : ℕ) → AssemblyError
  missing_seq : (seq : ℕ) → AssemblyError
  offset_mismatch : (seq got want : ℕ) → AssemblyError
  final_unmarked : (seq : ℕ) → AssemblyError
  early_final : (seq : ℕ) → AssemblyError
  correlation_id_mismatch : (seq : ℕ) → AssemblyError
  result_mime_mismatch : (seq : ℕ) → AssemblyError
  result_schema_mismatch : (seq : ℕ) → AssemblyError
  metadata_mismatch : (seq : ℕ) (key : Text) → AssemblyError

abbrev pub max_int : ℕ
max_int = 2 ^ 63 - 1

abbrev pub uint64_mod : ℕ
uint64_mod = 2 ^ 64

unfoldable pub output_contract_meta_keys : List Text
output_contract_meta_keys =
    codes "lumen.output.kind"
    ∷ codes "lumen.output.tensor.dtype"
    ∷ codes "lumen.output.tensor.shape"
    ∷ codes "lumen.output.tensor.layout"
    ∷ codes "lumen.output.tensor.format"
    ∷ codes "lumen.output.tensor.byte_order"
    ∷ codes "lumen.model.id"
    ∷ codes "lumen.model.version"
    ∷ []

-- The first loop, one round: the total that the responses so far declare, 0 for none.
pub declare_total : ℕ → InferResponse → Result AssemblyError ℕ
declare_total total r =
    if ltb 1 r.total
    then (if total == 0
        then ok r.total
        else if r.total == total
        then ok total
        else err (inconsistent_total r.total total))
    else ok total

-- The first loop. With the total it returns the responses, now known not to be nil.
pub scan_totals :
    ℕ → ℕ → List (Option InferResponse) → Result AssemblyError (ℕ × List InferResponse)
scan_totals index total [] = ok (total, [])
scan_totals index total (none ∷ rs) = err (nil_response index)
scan_totals index total (some r ∷ rs) = do
  declared ← declare_total total r
  (last, out) ← scan_totals (index + 1) declared rs
  ok (last, r ∷ out)

final_from_end : List InferResponse → Option InferResponse
final_from_end [] = none
final_from_end (r ∷ rs) = if r.is_final then some r else final_from_end rs

pub final_or_last_response : List InferResponse → Option InferResponse
unfolding final_from_end
final_or_last_response rs = elim (final_from_end (reverse rs)) [
  | none ↦ get_elem? (reverse rs) 0
  | some r ↦ some r
]

-- `chunks[i] == nil`
abbrev pub is_vacant : Option (Option InferResponse) → Bool
is_vacant (some none) = true
is_vacant (some (some r)) = false
is_vacant none = false

-- The second loop: each response goes to its place.
pub fill :
    ℕ
    → List InferResponse
    → List (Option InferResponse)
    → Result AssemblyError (List (Option InferResponse))
fill total [] chunks = ok chunks
fill total (r ∷ rs) chunks = do
  guard (r.total == total) (undeclared_total total)
  guard (ltb r.seq total) (seq_out_of_range r.seq total)
  guard (is_vacant (get_elem? chunks r.seq)) (duplicate_seq r.seq)
  fill total rs (set chunks r.seq (some r))

pub validate_meta_keys :
    List Text → InferResponse → InferResponse → ℕ → Result AssemblyError (Unit {0})
validate_meta_keys [] first current seq = ok tt
validate_meta_keys (key ∷ keys) first current seq = do
  guard (text_eq (meta_get current.meta key) (meta_get first.meta key)) (metadata_mismatch seq key)
  validate_meta_keys keys first current seq

pub validate_chunk_contract : InferResponse → InferResponse → ℕ → Result AssemblyError (Unit {0})
validate_chunk_contract first current seq = do
  guard (text_eq current.correlation_id first.correlation_id) (correlation_id_mismatch seq)
  guard (text_eq current.result_mime first.result_mime) (result_mime_mismatch seq)
  guard (text_eq current.result_schema first.result_schema) (result_schema_mismatch seq)
  validate_meta_keys output_contract_meta_keys first current seq

-- Only the last chunk is marked final.
pub check_final : Bool → Bool → ℕ → Result AssemblyError (Unit {0})
check_final last is_final seq =
    if last
    then guard is_final (final_unmarked seq)
    else (if is_final then err (early_final seq) else ok tt)

-- The third loop, over `chunks` from `seq` on.
pub join :
    InferResponse → ℕ → ℕ → ℕ → List ℕ → List (Option InferResponse) → Result AssemblyError (List ℕ)
join first count seq expected result [] = ok result
join first count seq expected result (none ∷ cs) = err (missing_seq seq)
join first count seq expected result (some c ∷ cs) = do
  guard (c.offset == expected) (offset_mismatch seq c.offset expected)
  check_final (seq + 1 == count) c.is_final seq
  validate_chunk_contract first c seq
  join first count (seq + 1) ((expected + length c.result) % uint64_mod) (result ++ c.result) cs

copy_entries : List (Text × Text) → List (Text × Text) → List (Text × Text)
unfolding insert
copy_entries out [] = out
copy_entries out ((k, v) ∷ m) = copy_entries (insert k v out) m

unfoldable pub clone_string_map : Meta → Meta
unfolding copy_entries
clone_string_map none = none
clone_string_map (some m) = some (copy_entries [] m)

clone_pb_error : Option PbError → Option PbError
clone_pb_error none = none
clone_pb_error (some e) = some (record { code = e.code; message = e.message; detail = e.detail })

-- The response that is returned, from the last chunk and the joined bytes.
pub merged : InferResponse → List ℕ → InferResponse
merged final_chunk result = record {
  correlation_id = final_chunk.correlation_id;
  is_final = true;
  result = result;
  meta = clone_string_map final_chunk.meta;
  error = clone_pb_error final_chunk.error;
  seq = 0;
  total = 1;
  offset = 0;
  result_mime = final_chunk.result_mime;
  result_schema = final_chunk.result_schema;
}

-- `chunks[i]`, where nil is an error.
pub chunk_at : List (Option InferResponse) → ℕ → Result AssemblyError InferResponse
chunk_at chunks i = elim (get_elem? chunks i) [
  | some (some c) ↦ ok c
  | some none ↦ err (missing_seq i)
  | none ↦ err (missing_seq i)
]

pub assemble_chunks : ℕ → List InferResponse → Result AssemblyError InferResponse
assemble_chunks total rs = do
  guard (leb total max_int) (total_too_large total)
  guard (length rs == total) (wrong_count total (length rs))
  chunks ← fill total rs (replicate total none)
  first ← chunk_at chunks 0
  result ← join first (length chunks) 0 0 [] chunks
  final_chunk ← chunk_at chunks (length chunks - 1)
  ok (merged final_chunk result)

abbrev or_no_responses : Option InferResponse → Result AssemblyError InferResponse
or_no_responses none = err no_responses
or_no_responses (some r) = ok r

unfoldable pub assemble_infer_responses :
    List (Option InferResponse) → Result AssemblyError InferResponse
assemble_infer_responses [] = err no_responses
assemble_infer_responses (r ∷ rs) = do
  (total, out) ← scan_totals 0 0 (r ∷ rs)
  if total == 0 then or_no_responses (final_or_last_response out) else assemble_chunks total out
