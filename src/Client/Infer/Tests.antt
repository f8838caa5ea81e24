-- ===== src/Client/Infer/Tests.antt =====
-- Calls of Infer with a service that is filled in, with chunks, and with failures.
use lumen_sdk.Base.{
  ◌+◌, ◌==◌, ◌≡◌, refl, true, false, List, [], ◌∷◌, map, none, some, ok, err, arith,
}
use lumen_sdk.Base.Int.{pos}
use lumen_sdk.Base.Text.{codes}
use lumen_sdk.Types.Proto.{InferRequest, InferResponse, Capability, IoTask}
use lumen_sdk.Types.Task.{service_from_meta}
use lumen_sdk.Client.Balancer.State.{RegisteredNode, NodeRegistry, ConnState}
use lumen_sdk.Client.Chunker.{chunk_payload}
use lumen_sdk.Client.Infer.{
  Surroundings, Exchange, eof, broken, recv_failed, infer, infer_stream, resolve_service,
}
use lumen_sdk.Client.Infer.Laws.{
  Call, after_calls, new_counters, count, is_valid, succeeds, infer-counts,
}

abbrev request : InferRequest
request = record {
  correlation_id = codes "c1";
  task = codes "custom";
  payload = 1 ∷ 2 ∷ 3 ∷ [];
  meta = none;
  payload_mime = codes "text/plain";
  seq = 0;
  total = 0;
  offset = 0;
}

abbrev custom : IoTask
custom = record {
  name = codes "custom";
  input_mimes = [];
  output_mimes = [];
  limits = none;
  tensor_preprocess_id = [];
  tensor_batching_supported = false;
}

abbrev capability : Capability
capability = record {
  service_name = codes "svc";
  model_ids = [];
  runtime = [];
  max_concurrency = 1;
  precisions = [];
  extra = none;
  tasks = custom ∷ custom ∷ [];
  protocol_version = [];
}

abbrev node : RegisteredNode
node = record {
  identity = record { deployment_id = codes "d"; node_id = codes "n" };
  addr = codes "h:1";
  state = ConnState.ready;
  capabilities = capability ∷ [];
  tasks = [];
  hard_failures = 0;
  cooldown_until = none;
  cooldown = 0;
  txt = none;
}

abbrev registry : NodeRegistry
registry = record { nodes = (codes "d-n", node) ∷ []; has_on_changed = false }

-- The server answers each message by its payload.
abbrev answer : InferRequest → InferResponse
answer req = record {
  correlation_id = req.correlation_id;
  is_final = req.seq + 1 == req.total;
  result = req.payload;
  meta = none;
  error = none;
  seq = req.seq;
  total = req.total;
  offset = req.offset;
  result_mime = [];
  result_schema = [];
}

abbrev echo : List InferRequest → Exchange
echo reqs = record {
  opened = true;
  sent = true;
  closed = true;
  responses = map answer reqs;
  end = eof;
  send_error_seen = false;
}

abbrev surroundings : Surroundings
surroundings = record {
  is_image = λ mime. false;
  chunk = record { enable_auto = true; threshold = pos 2; max_chunk_bytes = pos 2 };
  registry = registry;
  has_client = true;
  exchange = echo;
  elapsed = 7;
}

abbrev lost : Surroundings
lost = record surroundings { exchange = λ reqs. record (echo []) { end = broken } }

service_is_filled : service_from_meta (resolve_service registry request).meta ≡ codes "svc"
unfolding service_from_meta resolve_service
service_is_filled = refl

abbrev calls : List Call
calls = (surroundings, some request) ∷ (lost, some request) ∷ (surroundings, none) ∷ []

one_is_lost :
    (count is_valid calls ≡ 2)
    × ((infer lost (some request) new_counters).0 ≡ err recv_failed)
    × ((infer lost (some request) new_counters).1.failed_reqs ≡ 1)
unfolding infer
one_is_lost = (refl, refl, refl)

-- The caller of InferStream does not learn that the stream broke.
broken_stream :
    infer_stream
      (record surroundings { exchange = λ reqs. record (echo reqs) { end = broken } })
      (some request)
    ≡ infer_stream surroundings (some request)
unfolding infer_stream
broken_stream = refl

-- The payload goes out in two chunks.
two_chunks : chunk_payload request.payload surroundings.chunk ≡ ok ((1 ∷ 2 ∷ []) ∷ (3 ∷ []) ∷ [])
unfolding chunk_payload
two_chunks = refl

infer-counts_example :
    ((after_calls calls new_counters).total_reqs ≡ count is_valid calls)
    × ((after_calls calls new_counters).success_reqs ≡ count succeeds calls)
    × ((after_calls calls new_counters).success_reqs + (after_calls calls new_counters).failed_reqs
        ≡ count is_valid calls)
infer-counts_example = infer-counts calls (omega arith)
