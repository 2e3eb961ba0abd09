-- ===== src/ServiceRuntime/Sends.antt =====
-- What the operations of src/service_runtime.cc send for a handler, against what waited.
use rf_trans_v.Base.{
  ◌+◌, ◌≤◌, ℕ, String, Bool, true, false, Option, none, some, List, [], ◌∷◌, arith, if◌then◌else◌,
  Option-cases, inl, inr,
}
use rf_trans_v.Info.Service.{ServicePublisherInfo}
use rf_trans_v.TopicStorage.{ProcessMap}
use rf_trans_v.HandlerStorage.{HandlerStorage, add_handler, get_handler}
use rf_trans_v.HandlerStorage.Contents.{
  same_key, handler_at, handler_at-add_handler, handler_at-remove_handler,
}
use rf_trans_v.HandlerStorage.Valid.{add_handler-IsValid, remove_handler-IsValid}
use rf_trans_v.ServiceRuntime.{
  RemoteRequest, RemoteResponse, ServiceRuntime, Told, responder, connect_to, send_pending_requests,
  on_service_connected,
}
use rf_trans_v.ServiceRuntime.Calls.{request}
use rf_trans_v.ServiceRuntime.Handler.{ReqHandler}
use rf_trans_v.ServiceRuntime.Answer.{handle_response, handle_responses}
use rf_trans_v.ServiceRuntime.Pending.{count, pending, send_topic-pending}
use rf_trans_v.ServiceRuntime.Kept.{
  uuid_of, AreRequests, AreRequests-AreSorted, send_topic-AreRequests,
}

abbrev pub no_more : String → String → String → ℕ
no_more t n u = 0

module _ {V K : Type 0} where
  -- from `s` to `s'`, with what was sent: no more is sent than was waiting
  pub record Sends (s s' : HandlerStorage (ReqHandler V K)) (out : List RemoteRequest)
      (more : String → String → String → ℕ) : Type 0 where
    pub kept : AreRequests s'
    pub bound :
        (t n u : String)
        → count t n u out + pending (handler_at t n u s')
          ≤ pending (handler_at t n u s) + more t n u

  pub same-Sends : (s : HandlerStorage (ReqHandler V K)) → AreRequests s → Sends s s [] no_more
  unfolding count
  same-Sends s v = record { kept = v; bound = λ t n u. omega arith }

  pub pending_requests-Sends :
      (takes : RemoteRequest → Bool) (topic req_type rep_type : String)
      (known : Option (ProcessMap ServicePublisherInfo)) (r : ServiceRuntime V K)
      → AreRequests r.request_handlers
      → let after = send_pending_requests takes topic req_type rep_type known r in
        Sends r.request_handlers after.0.request_handlers after.1.requests no_more
  unfolding send_pending_requests
  pending_requests-Sends takes topic req_type rep_type none r v = same-Sends r.request_handlers v
  pending_requests-Sends takes topic req_type rep_type (some addresses) r v =
      elim (Option-cases (responder req_type rep_type addresses)) [
        | inl out ↦ rw (out, send_pending_requests) (same-Sends r.request_handlers v)
        | inr (p, at) ↦
            rw (at, send_pending_requests)
              (record {
                kept =
                    send_topic-AreRequests takes p.socket_id topic req_type rep_type
                      r.request_handlers v;
                bound = λ t n u. omega (
                  arith,
                  send_topic-pending takes p.socket_id topic req_type rep_type t n u
                      r.request_handlers
                      (λ nodes there. AreRequests-AreSorted topic r.request_handlers nodes v there),
                );
              })
      ]

  either-Sends :
      (b : Bool) (s : HandlerStorage (ReqHandler V K)) (x y : ServiceRuntime V K × Told)
      → Sends s x.0.request_handlers x.1.requests no_more
      → Sends s y.0.request_handlers y.1.requests no_more
      → let z = if b then x else y in Sends s z.0.request_handlers z.1.requests no_more
  either-Sends true s x y v w = v
  either-Sends false s x y v w = w

  pub connected-Sends :
      (takes : RemoteRequest → Bool) (p : ServicePublisherInfo)
      (known : Option (ProcessMap ServicePublisherInfo)) (r : ServiceRuntime V K)
      → AreRequests r.request_handlers
      → let after = on_service_connected takes p known r in
        Sends r.request_handlers after.0.request_handlers after.1.requests no_more
  unfolding on_service_connected
  connected-Sends takes p known r v =
      let linked = record r {
        requester_connections = (connect_to p.info.addr r.requester_connections).0;
      } in
      let sends =
        pending_requests-Sends takes p.info.topic p.req_type_name p.rep_type_name known linked v in
      either-Sends _ r.request_handlers _ _ (record { kept = sends.kept; bound = sends.bound })
        (same-Sends r.request_handlers v)

  added_bound :
      (topic node : String) (h : ReqHandler V K) (s : HandlerStorage (ReqHandler V K))
      (t n u : String)
      → pending (handler_at t n u (add_handler uuid_of topic node h s))
        ≤ pending (handler_at t n u s) + (if same_key topic node h.handler_uuid t n u then 1 else 0)
  added_bound topic node h s t n u = elim (Option-cases (handler_at t n u s)) [
    | inl out ↦ ground (arith, out, handler_at-add_handler uuid_of topic node t n u h s)
    | inr (k, at) ↦ ground (arith, at, handler_at-add_handler uuid_of topic node t n u h s)
  ]

  pub request-Sends :
      (takes : RemoteRequest → Bool) (topic node : String) (h : ReqHandler V K)
      (known : Option (ProcessMap ServicePublisherInfo)) (r : ServiceRuntime V K)
      → AreRequests r.request_handlers
      → let after = request takes topic node h known r in
        Sends r.request_handlers after.0.request_handlers after.1.requests
          (λ t n u. if same_key topic node h.handler_uuid t n u then 1 else 0)
  unfolding request count
  request-Sends takes topic node h none r v = record { kept = v; bound = λ t n u. ground arith }
  request-Sends takes topic node h (some addresses) r v =
      let waiting = record r {
        request_handlers = add_handler uuid_of topic node h r.request_handlers;
      } in
      let sends =
        pending_requests-Sends takes topic h.req_type_name h.rep_type_name (some addresses) waiting
          (add_handler-IsValid uuid_of topic node h r.request_handlers v) in
      record {
        kept = sends.kept;
        bound = λ t n u.
            omega (arith, sends.bound t n u, added_bound topic node h r.request_handlers t n u);
      }

  -- a response takes its handler out
  response-Sends :
      (p : RemoteResponse) (s : HandlerStorage (ReqHandler V K))
      → AreRequests s
      → Sends s (handle_response s p).0 [] no_more
  unfolding handle_response count
  response-Sends p s v = elim (Option-cases (get_handler p.topic p.node_uuid p.req_uuid s)) [
    | inl out ↦ rw (out, handle_response) (same-Sends s v)
    | inr (h, at) ↦
        rw (at, handle_response)
          (record {
            kept = remove_handler-IsValid uuid_of p.topic p.node_uuid p.req_uuid s v;
            bound = λ t n u.
                ground
                  (arith, (handler_at-remove_handler p.topic p.node_uuid p.req_uuid t n u s).1);
          })
  ]

  pub responses-Sends :
      (ps : List RemoteResponse) (s : HandlerStorage (ReqHandler V K))
      → AreRequests s
      → Sends s (handle_responses s ps).0 [] no_more
  unfolding handle_responses count
  responses-Sends [] s v = same-Sends s v
  responses-Sends (p ∷ ps) s v =
      let here = response-Sends p s v in
      let rest = responses-Sends ps (handle_response s p).0 here.kept in
      record {
        kept = rest.kept;
        bound = λ t n u. omega (arith, here.bound t n u, rest.bound t n u);
      }
