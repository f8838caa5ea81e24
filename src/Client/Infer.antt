-- ===== src/Client/Infer.antt =====
-- pkg/client/client.go: Infer with what it calls, and the counters of the client. What the server answers to
-- the requests that are sent is an argument, as are the validation's test of an image MIME type and the
-- time that the call takes. Counters are bit patterns of int64. A panic in ChunkPayload is an error here.
mod Counted
pub mod Laws
mod Tests
use lumen_sdk.Base.{
  ℕ, ◌+◌, ◌%◌, ◌^◌, Bool, true, false, not, ◌||◌, ◌&&◌, if◌then◌else◌, List, [], ◌∷◌, map, Option,
  none, some, Result, ok, err, ◌>>=◌, ◌>>◌, guard, ltb, length, ◌==◌,
}
use lumen_sdk.Base.Dict.{insert}
use lumen_sdk.Base.Text.{Text, is_empty}
use lumen_sdk.Types.Proto.{Meta, Capability, InferRequest, InferResponse}
use lumen_sdk.Types.Names
use lumen_sdk.Types.Task.{TaskError, validate_task_request, service_from_meta}
use lumen_sdk.Types.Assembly.{AssemblyError, assemble_infer_responses}
use lumen_sdk.Discovery.Services.{matching_services}
use lumen_sdk.Client.Balancer.State.{RegisteredNode, NodeRegistry}
use lumen_sdk.Client.Chunker.{ChunkConfig, ChunkError, chunk_payload, sent_requests}

-- The counters of LumenClient.
pub record Counters : Type 0 where
  pub total_reqs : ℕ
  pub success_reqs : ℕ
  pub failed_reqs : ℕ
  pub total_latency_ns : ℕ

pub data InferError : Type 0 where
  nil_request no_available_node no_stream not_sent not_closed send_failed recv_failed : InferError
  invalid_request : TaskError → InferError
  bad_chunks : ChunkError → InferError
  bad_responses : AssemblyError → InferError

-- How a stream ends for the receiver.
pub data StreamEnd : Type 0 where
  eof broken : StreamEnd

-- The other side of a stream: whether it opens and takes what is sent, what it answers, and whether a failed
-- receive finds the error of the sending goroutine.
pub record Exchange : Type 0 where
  pub opened : Bool
  pub sent : Bool
  pub closed : Bool
  pub responses : List InferResponse
  pub end : StreamEnd
  pub send_error_seen : Bool

abbrev pub set_service : Text → InferRequest → InferRequest
unfolding insert
set_service service req = elim req.meta [
  | none ↦ record req { meta = some (insert Names.meta_service service []) }
  | some m ↦ record req { meta = some (insert Names.meta_service service m) }
]

-- One round of the loop over the nodes: the services of the node that match, and the rest of the loop.
abbrev pub only_service : List Text → InferRequest → InferRequest → InferRequest
only_service [] req rest = rest
only_service (service ∷ []) req rest = set_service service req
only_service (service ∷ other ∷ services) req rest = rest

abbrev pub resolve_in : List (Text × RegisteredNode) → InferRequest → InferRequest
unfolding matching_services
resolve_in [] req = req
resolve_in ((k, rn) ∷ nodes) req =
    only_service (matching_services req.task rn.capabilities) req (resolve_in nodes req)

unfoldable pub resolve_service : NodeRegistry → InferRequest → InferRequest
unfolding matching_services service_from_meta insert
resolve_service r req =
    if not (is_empty (service_from_meta req.meta)) then req else resolve_in r.nodes req

-- What is received up to the final response, and whether there is one.
unfoldable pub received : List InferResponse → List InferResponse × Bool
received [] = ([], false)
received (r ∷ rs) =
    let rest = received rs in if r.is_final then (r ∷ [], true) else (r ∷ rest.0, rest.1)

abbrev pub is_eof : StreamEnd → Bool
is_eof eof = true
is_eof broken = false

-- What a call returns, and the counters after it.
abbrev pub Counting : Type 0
Counting = Counters → Result InferError InferResponse × Counters

-- `totalReqs.Add(1)` and the like.
abbrev pub add_total : Counters → Counters
add_total c = record c { total_reqs = (c.total_reqs + 1) % 2 ^ 64 }

abbrev pub add_success : Counters → Counters
add_success c = record c { success_reqs = (c.success_reqs + 1) % 2 ^ 64 }

abbrev pub add_failed : Counters → Counters
add_failed c = record c { failed_reqs = (c.failed_reqs + 1) % 2 ^ 64 }

abbrev pub add_latency : ℕ → Counters → Counters
add_latency elapsed c = record c { total_latency_ns = (c.total_latency_ns + elapsed) % 2 ^ 64 }

abbrev pub assembled : List InferResponse → Result InferError InferResponse
unfolding assemble_infer_responses
assembled responses = elim (assemble_infer_responses (map (λ r. some r) responses)) [
  | err e ↦ err (bad_responses e)
  | ok resp ↦ ok resp
]

-- inferSingle, which counts nothing.
unfoldable pub infer_single : Exchange → Result InferError InferResponse
unfolding received assemble_infer_responses
infer_single x =
    let (responses, final) = received x.responses in
    guard x.opened no_stream
    >> (guard x.sent not_sent
        >> (guard x.closed not_closed
            >> (guard (final || is_eof x.end) recv_failed >> assembled responses)))

-- Infer after inferSingle has returned.
abbrev pub after_single : ℕ → Result InferError InferResponse → Counting
after_single elapsed (err e) c = (err e, add_failed c)
after_single elapsed (ok resp) c = (ok resp, add_latency elapsed (add_success c))

-- The end of Infer, with the result of the assembly.
abbrev pub after_assembly : ℕ → Result InferError InferResponse → Counting
after_assembly elapsed (err e) c = (err e, add_failed c)
after_assembly elapsed (ok resp) c = (ok resp, add_latency elapsed (add_success c))

-- A receive that fails: the failure is counted, then the sending goroutine is asked for its error.
abbrev pub after_receive_error : Bool → Counting
after_receive_error send_error_seen c =
    let failed = add_failed c in
    if send_error_seen then (err send_failed, failed) else (err recv_failed, failed)

-- The receiving loop has ended; `complete` says that it ended without an error.
abbrev pub after_loop : Bool → Exchange → ℕ → List InferResponse → Counting
unfolding assemble_infer_responses
after_loop true x elapsed responses c = after_assembly elapsed (assembled responses) c
after_loop false x elapsed responses c = after_receive_error x.send_error_seen c

-- Infer for several chunks, from the opening of the stream on.
abbrev pub after_open : Bool → Exchange → ℕ → Counting
unfolding received assemble_infer_responses
after_open true x elapsed c =
    let (responses, final) = received x.responses in
    after_loop (final || (is_eof x.end && ltb 0 (length responses))) x elapsed responses c
after_open false x elapsed c = (err no_stream, add_failed c)

-- The client of the pool, its registry and configuration, and the world around a call.
pub record Surroundings : Type 0 where
  pub is_image : Text → Bool
  pub chunk : ChunkConfig
  pub registry : NodeRegistry
  pub has_client : Bool
  pub exchange : List InferRequest → Exchange
  pub elapsed : ℕ

-- Infer from the test `len(chunks) == 1` on; the exchange is that over the requests which are sent.
abbrev pub exchanged : Bool → Exchange → ℕ → Counting
unfolding infer_single received assemble_infer_responses
exchanged true x elapsed c = after_single elapsed (infer_single x) c
exchanged false x elapsed c = after_open x.opened x elapsed c

abbrev pub after_client : Bool → Surroundings → InferRequest → List (List ℕ) → Counting
unfolding sent_requests infer_single received assemble_infer_responses
after_client true w req chunks c =
    exchanged (length chunks == 1) (w.exchange (sent_requests req chunks)) w.elapsed c
after_client false w req chunks c = (err no_available_node, add_failed c)

abbrev pub after_chunks : Result ChunkError (List (List ℕ)) → Surroundings → InferRequest → Counting
unfolding sent_requests infer_single received assemble_infer_responses
after_chunks (err e) w req c = (err (bad_chunks e), add_failed c)
after_chunks (ok chunks) w req c = after_client w.has_client w req chunks c

-- Infer after the service is resolved, from `totalReqs.Add(1)` on.
abbrev pub counted : Surroundings → InferRequest → Counting
unfolding chunk_payload sent_requests infer_single received assemble_infer_responses
counted w req c = after_chunks (chunk_payload req.payload w.chunk) w req (add_total c)

abbrev pub after_check : Result TaskError (Unit {0}) → Surroundings → InferRequest → Counting
unfolding resolve_service chunk_payload sent_requests infer_single received assemble_infer_responses
after_check (err e) w req c = (err (invalid_request e), c)
after_check (ok done) w req c = counted w (resolve_service w.registry req) c

unfoldable pub infer : Surroundings → Option InferRequest → Counting
unfolding validate_task_request resolve_service chunk_payload sent_requests infer_single received
    assemble_infer_responses
infer w none c = (err nil_request, c)
infer w (some req) c = after_check (validate_task_request w.is_image (some req)) w req c

-- What arrives on the channel of InferStream before it is closed: a broken stream closes it as a complete
-- one does.
abbrev pub streamed : Bool → Exchange → Result InferError (List InferResponse)
unfolding received
streamed has_client x =
    guard has_client no_available_node
    >> (guard x.opened no_stream
        >> (guard x.sent not_sent >> (guard x.closed not_closed >> ok (received x.responses).0)))

unfoldable pub infer_stream :
    Surroundings → Option InferRequest → Result InferError (List InferResponse)
unfolding validate_task_request received
infer_stream w none = err nil_request
infer_stream w (some req) = elim (validate_task_request w.is_image (some req)) [
  | err e ↦ err (invalid_request e)
  | ok _ ↦ streamed w.has_client (w.exchange (req ∷ []))
]
