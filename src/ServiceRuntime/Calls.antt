-- ===== src/ServiceRuntime/Calls.antt =====
-- The calls of src/service_runtime.cc that nodes make: `advertise`, `unadvertise`, `hasService`,
-- `getLocalHandler` and `request`, on the runtime itself.
use rf_trans_v.Base.{◌||◌, String, Bool, true, false, Option, none, some, is_some}
use rf_trans_v.Info.Service.{ServicePublisherInfo}
use rf_trans_v.TopicStorage.{ProcessMap}
use rf_trans_v.HandlerStorage.{
  has_topic, add_handler, get_first_service_handler, remove_handlers_for_node,
}
use rf_trans_v.ServiceRuntime.Handler.{ReqHandler, RepHandler}
use rf_trans_v.ServiceRuntime.{RemoteRequest, ServiceRuntime, Told, nothing, send_pending_requests}

module _ {V K : Type 0} where
  -- the part of `advertise` and `unadvertise` before discovery is called
  unfoldable pub advertise_locally :
      String → String → RepHandler → ServiceRuntime V K → ServiceRuntime V K
  unfolding add_handler
  advertise_locally topic node_uuid h r = record r {
    response_handlers = add_handler (λ k. k.handler_uuid) topic node_uuid h r.response_handlers;
  }

  unfoldable pub unadvertise_locally : String → String → ServiceRuntime V K → ServiceRuntime V K
  unfolding remove_handlers_for_node
  unadvertise_locally topic node_uuid r = record r {
    response_handlers = (remove_handlers_for_node topic node_uuid r.response_handlers).0;
  }

  unfoldable pub has_service :
      String → Option (ProcessMap ServicePublisherInfo) → ServiceRuntime V K → Bool
  unfolding has_topic
  has_service topic known r = has_topic topic r.response_handlers || is_some known

  unfoldable pub get_local_handler :
      String → String → String → ServiceRuntime V K → Option RepHandler
  unfolding get_first_service_handler
  get_local_handler topic req_type rep_type r =
      get_first_service_handler (λ (h : RepHandler). h.req_type_name) (λ h. h.rep_type_name) topic
        req_type rep_type r.response_handlers

  unfoldable pub request :
      (RemoteRequest → Bool)
      → String
      → String
      → ReqHandler V K
      → Option (ProcessMap ServicePublisherInfo)
      → ServiceRuntime V K
      → ServiceRuntime V K × Told × Bool
  unfolding add_handler send_pending_requests
  request takes topic node_uuid h known r = elim known [
    | none ↦ (r, nothing, false)
    | some addresses ↦
        let waiting = record r {
          request_handlers = add_handler (λ k. k.handler_uuid) topic node_uuid h r.request_handlers;
        } in
        let (after, told) =
          send_pending_requests takes topic h.req_type_name h.rep_type_name (some addresses)
            waiting in
        (after, told, true)
  ]
