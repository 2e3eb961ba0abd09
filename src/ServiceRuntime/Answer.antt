-- ===== src/ServiceRuntime/Answer.antt =====
-- `receiveRequest`, `receiveResponse`, `handleRequests` and `handleResponses` of
-- src/service_runtime.cc.
use rf_trans_v.Base.{◌++◌, String, Option, none, some, List, [], ◌∷◌, str_eq, if◌then◌else◌}
use rf_trans_v.HandlerStorage.{
  HandlerStorage, get_handler, get_first_service_handler, remove_handler,
}
use rf_trans_v.ServiceRuntime.{RemoteRequest, RemoteResponse, ServiceRuntime}
use rf_trans_v.ServiceRuntime.Handler.{
  ReqHandler, RepHandler, Answered, run_callback, notify_result,
}

-- The frames of an answer, with the routing id that the request came with.
pub record Reply : Type 0 where
  pub routing_id : String
  pub response : RemoteResponse

module _ {V K : Type 0} where
  -- `none` where a frame is missing or the socket throws
  unfoldable pub receive_request : Option RemoteRequest → ServiceRuntime V K → ServiceRuntime V K
  receive_request none r = r
  receive_request (some q) r = record r { request_queue = r.request_queue ++ q ∷ [] }

  unfoldable pub receive_response : Option RemoteResponse → ServiceRuntime V K → ServiceRuntime V K
  receive_response none r = r
  receive_response (some p) r = record r { response_queue = r.response_queue ++ p ∷ [] }

-- the answer to a request, before the socket takes it or not
unfoldable pub answer : HandlerStorage RepHandler → RemoteRequest → List Reply
unfolding get_first_service_handler run_callback
answer s q =
    elim (get_first_service_handler (λ (h : RepHandler). h.req_type_name) (λ h. h.rep_type_name)
      q.topic q.req_type q.rep_type s) [
        | none ↦ []
        | some h ↦
            let (done, bytes) = run_callback q.req_data h in
            record {
              routing_id = q.routing_id;
              response = record {
                topic = q.topic;
                node_uuid = q.node_uuid;
                req_uuid = q.req_uuid;
                rep_data = bytes;
                result_str = if done then "1" else "0";
              };
            }
            ∷ []
      ]

unfoldable pub handle_requests : HandlerStorage RepHandler → List RemoteRequest → List Reply
unfolding answer
handle_requests s [] = []
handle_requests s (q ∷ qs) = answer s q ++ handle_requests s qs

-- A handler that was notified, as its holder sees it, with the call of its callback.
pub record Notified (V K : Type 0) : Type 0 where
  pub handler : ReqHandler V K
  pub calls : List (Answered V K)

module _ {V K : Type 0} where
  unfoldable pub handle_response :
      HandlerStorage (ReqHandler V K)
      → RemoteResponse
      → HandlerStorage (ReqHandler V K) × List (Notified V K)
  unfolding get_handler notify_result remove_handler
  handle_response s p = elim (get_handler p.topic p.node_uuid p.req_uuid s) [
    | none ↦ (s, [])
    | some h ↦
        let (told, calls) = notify_result p.rep_data (str_eq p.result_str "1") h in
        (
          (remove_handler p.topic p.node_uuid p.req_uuid s).0,
          record { handler = told; calls = calls } ∷ [],
        )
  ]

  unfoldable pub handle_responses :
      HandlerStorage (ReqHandler V K)
      → List RemoteResponse
      → HandlerStorage (ReqHandler V K) × List (Notified V K)
  unfolding handle_response
  handle_responses s [] = (s, [])
  handle_responses s (p ∷ ps) =
      let (left, here) = handle_response s p in
      let (last, more) = handle_responses left ps in (last, here ++ more)

  -- a round of `serviceHandleLoop`
  unfoldable pub handle_round :
      ServiceRuntime V K → ServiceRuntime V K × List Reply × List (Notified V K)
  unfolding handle_requests handle_responses
  handle_round r =
      let (left, notified) = handle_responses r.request_handlers r.response_queue in
      (
        record r { request_handlers = left; request_queue = []; response_queue = [] },
        handle_requests r.response_handlers r.request_queue,
        notified,
      )
