-- ===== src/Client/Infer/Counted.antt =====
-- What each part of Infer adds to the counters of the client.
use lumen_sdk.Base.{
  ℕ, ◌+◌, ◌^◌, ◌<◌, ◌≡◌, ◌==◌, refl, Bool, true, false, not, ◌||◌, ◌&&◌, List, Result, ok, err,
  arith, length, ltb,
}
use lumen_sdk.Types.Proto.{InferRequest, InferResponse}
use lumen_sdk.Client.Chunker.{ChunkError, sent_requests}
use lumen_sdk.Client.Infer.{
  Counters, Counting, Surroundings, Exchange, InferError, bad_chunks, no_available_node, no_stream,
  send_failed, recv_failed, infer_single, received, is_eof, assembled, add_success, add_failed,
  add_latency, after_single, after_assembly, after_receive_error, after_loop, after_open, exchanged,
  after_client, after_chunks,
}

abbrev pub is_ok {ℓ κ} : {E : Type κ} {A : Type ℓ} → Result E A → Bool
is_ok (ok a) = true
is_ok (err e) = false

abbrev pub number : Bool → ℕ
number true = 1
number false = 0

-- A part of Infer counts one success if it returns a response and one failure if it returns an error; what
-- it returns does not depend on the counters.
pub record Counted (f : Counting) : Type 0 where
  pub same : (c d : Counters) → (f c).0 ≡ (f d).0
  pub total : (c : Counters) → (f c).1.total_reqs ≡ c.total_reqs
  pub success :
      (c : Counters)
      → c.success_reqs + 1 < 2 ^ 64
      → (f c).1.success_reqs ≡ number (is_ok (f c).0) + c.success_reqs
  pub failed :
      (c : Counters)
      → c.failed_reqs + 1 < 2 ^ 64
      → (f c).1.failed_reqs ≡ number (not (is_ok (f c).0)) + c.failed_reqs

fails-Counted : (e : InferError) → Counted (λ c. (err e, add_failed c))
fails-Counted e = record {
  same = λ c d. refl;
  total = λ c. refl;
  success = λ c h. omega arith;
  failed = λ c h. omega arith;
}

succeeds-Counted :
    (elapsed : ℕ) (resp : InferResponse)
    → Counted (λ c. (ok resp, add_latency elapsed (add_success c)))
succeeds-Counted elapsed resp = record {
  same = λ c d. refl;
  total = λ c. refl;
  success = λ c h. omega arith;
  failed = λ c h. omega arith;
}

after_single-Counted :
    (elapsed : ℕ) (result : Result InferError InferResponse) → Counted (after_single elapsed result)
after_single-Counted elapsed (err e) = fails-Counted e
after_single-Counted elapsed (ok resp) = succeeds-Counted elapsed resp

after_assembly-Counted :
    (elapsed : ℕ) (result : Result InferError InferResponse)
    → Counted (after_assembly elapsed result)
after_assembly-Counted elapsed (err e) = fails-Counted e
after_assembly-Counted elapsed (ok resp) = succeeds-Counted elapsed resp

after_receive_error-Counted : (seen : Bool) → Counted (after_receive_error seen)
after_receive_error-Counted true = fails-Counted send_failed
after_receive_error-Counted false = fails-Counted recv_failed

after_loop-Counted :
    (complete : Bool) (x : Exchange) (elapsed : ℕ) (responses : List InferResponse)
    → Counted (after_loop complete x elapsed responses)
unfolding after_loop
after_loop-Counted true x elapsed responses = after_assembly-Counted elapsed (assembled responses)
after_loop-Counted false x elapsed responses = after_receive_error-Counted x.send_error_seen

after_open-Counted :
    (opened : Bool) (x : Exchange) (elapsed : ℕ) → Counted (after_open opened x elapsed)
unfolding after_open
after_open-Counted true x elapsed =
    after_loop-Counted
      ((received x.responses).1 || (is_eof x.end && ltb 0 (length (received x.responses).0))) x
      elapsed (received x.responses).0
after_open-Counted false x elapsed = fails-Counted no_stream

exchanged-Counted : (one : Bool) (x : Exchange) (elapsed : ℕ) → Counted (exchanged one x elapsed)
unfolding exchanged
exchanged-Counted true x elapsed = after_single-Counted elapsed (infer_single x)
exchanged-Counted false x elapsed = after_open-Counted x.opened x elapsed

after_client-Counted :
    (has_client : Bool) (w : Surroundings) (req : InferRequest) (chunks : List (List ℕ))
    → Counted (after_client has_client w req chunks)
unfolding after_client
after_client-Counted true w req chunks =
    exchanged-Counted (length chunks == 1) (w.exchange (sent_requests req chunks)) w.elapsed
after_client-Counted false w req chunks = fails-Counted no_available_node

pub after_chunks-Counted :
    (chunks : Result ChunkError (List (List ℕ))) (w : Surroundings) (req : InferRequest)
    → Counted (after_chunks chunks w req)
unfolding after_chunks
after_chunks-Counted (err e) w req = fails-Counted (bad_chunks e)
after_chunks-Counted (ok chunks) w req = after_client-Counted w.has_client w req chunks
