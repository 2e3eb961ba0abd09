-- ===== src/ServiceRuntime/Once.antt =====
-- Any sequence of what happens to src/service_runtime.cc: a request goes out at most once.
use rf_trans_v.Base.{
  ◌+◌, ◌≤◌, ◌++◌, ℕ, String, Bool, false, Option, none, some, List, [], ◌∷◌, arith, if◌then◌else◌,
}
use rf_trans_v.Info.Service.{ServicePublisherInfo}
use rf_trans_v.TopicStorage.{ProcessMap}
use rf_trans_v.HandlerStorage.Contents.{same_key, handler_at}
use rf_trans_v.ServiceRuntime.{
  RemoteRequest, RemoteResponse, ServiceRuntime, on_service_connected, on_service_disconnected,
}
use rf_trans_v.ServiceRuntime.Calls.{request}
use rf_trans_v.ServiceRuntime.Handler.{ReqHandler}
use rf_trans_v.ServiceRuntime.Answer.{handle_round, receive_request, receive_response}
use rf_trans_v.ServiceRuntime.Pending.{count, count-append, pending}
use rf_trans_v.ServiceRuntime.Kept.{AreRequests}
use rf_trans_v.ServiceRuntime.Sends.{
  Sends, same-Sends, connected-Sends, request-Sends, responses-Sends,
}

-- What may happen: the callbacks of discovery, a request, messages, and a round of the handling
-- thread.
pub data Op (V K : Type 0) : Type 0 where
  connecting :
      (RemoteRequest → Bool)
      → ServicePublisherInfo
      → Option (ProcessMap ServicePublisherInfo)
      → Op V K
  disconnecting : ServicePublisherInfo → Op V K
  requesting :
      (RemoteRequest → Bool)
      → String
      → String
      → ReqHandler V K
      → Option (ProcessMap ServicePublisherInfo)
      → Op V K
  asked : Option RemoteRequest → Op V K
  answered : Option RemoteResponse → Op V K
  handling : Op V K

module _ {V K : Type 0} where
  unfoldable pub step : Op V K → ServiceRuntime V K → ServiceRuntime V K × List RemoteRequest
  unfolding on_service_connected on_service_disconnected request receive_request receive_response
      handle_round
  step (connecting takes p known) r =
      let (after, told) = on_service_connected takes p known r in (after, told.requests)
  step (disconnecting p) r = (on_service_disconnected p r, [])
  step (requesting takes topic node h known) r =
      let (after, told, ok) = request takes topic node h known r in (after, told.requests)
  step (asked q) r = (receive_request q r, [])
  step (answered p) r = (receive_response p r, [])
  step handling r = ((handle_round r).0, [])

  unfoldable pub run : List (Op V K) → ServiceRuntime V K → ServiceRuntime V K × List RemoteRequest
  unfolding step
  run [] r = (r, [])
  run (op ∷ ops) r = let (r1, out) = step op r in let (r2, more) = run ops r1 in (r2, out ++ more)

  -- Whether a step is a request by a handler of these keys, and how many are.
  abbrev pub asks_for : String → String → String → Op V K → Bool
  asks_for t n u (requesting takes topic node h known) = same_key topic node h.handler_uuid t n u
  asks_for t n u (connecting takes p known) = false
  asks_for t n u (disconnecting p) = false
  asks_for t n u (asked q) = false
  asks_for t n u (answered p) = false
  asks_for t n u handling = false

  unfoldable pub requests_for : String → String → String → List (Op V K) → ℕ
  requests_for t n u [] = 0
  requests_for t n u (op ∷ ops) = (if asks_for t n u op then 1 else 0) + requests_for t n u ops

  step-Sends :
      (op : Op V K) (r : ServiceRuntime V K)
      → AreRequests r.request_handlers
      → Sends r.request_handlers
          (step op r).0.request_handlers
          (step op r).1
          (λ t n u. if asks_for t n u op then 1 else 0)
  unfolding step on_service_disconnected receive_request receive_response handle_round
  step-Sends (connecting takes p known) r v = connected-Sends takes p known r v
  step-Sends (disconnecting p) r v = same-Sends r.request_handlers v
  step-Sends (requesting takes topic node h known) r v = request-Sends takes topic node h known r v
  step-Sends (asked none) r v = same-Sends r.request_handlers v
  step-Sends (asked (some q)) r v = same-Sends r.request_handlers v
  step-Sends (answered none) r v = same-Sends r.request_handlers v
  step-Sends (answered (some p)) r v = same-Sends r.request_handlers v
  step-Sends handling r v = responses-Sends r.response_queue r.request_handlers v

  -- In any sequence of requests, responses, rounds, and services that come and go, over
  -- well-formed request handlers, the frames that are sent for a handler, with the one that may
  -- still wait, are no more than the requests made by it and the one that waited before.
  pub run-once :
      (ops : List (Op V K)) (r : ServiceRuntime V K) (t n u : String)
      → AreRequests r.request_handlers
      → count t n u (run ops r).1 + pending (handler_at t n u (run ops r).0.request_handlers)
        ≤ pending (handler_at t n u r.request_handlers) + requests_for t n u ops
  unfolding run requests_for count
  run-once [] r t n u v = omega arith
  run-once (op ∷ ops) r t n u v =
      let here = step-Sends op r v in
      let r1 = (step op r).0 in
      omega (
        arith,
        here.bound t n u,
        run-once ops r1 t n u here.kept,
        count-append t n u (step op r).1 (run ops r1).1,
      )
