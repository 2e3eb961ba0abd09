-- ===== src/ServiceRuntime.antt =====
-- src/service_runtime.cc and include/trans/details/service_runtime.hpp: requests to the services of
-- other processes, and the answers to theirs. What discovery knows is an argument, and what is sent
-- is a list. `takes` says whether the socket takes the frames; an error is logged there, no more.
pub mod Calls
pub mod Handler
pub mod Outgoing
pub mod Pending
pub mod Kept
pub mod Sends
pub mod Once
pub mod Answer
pub mod Reply
pub mod Process
pub mod Gone
mod Examples
use rf_trans_v.Base.{
  ◌&&◌, ◌||◌, ◌++◌, ℕ, String, Bool, true, false, not, Option, none, some, List, [], ◌∷◌, str_eq,
  if◌then◌else◌, any_of, remove_if, find_if, is_some,
}
use rf_trans_v.Map.{Map, find, assign}
use rf_trans_v.Info.Service.{ServicePublisherInfo}
use rf_trans_v.TopicStorage.{ProcessMap}
use rf_trans_v.HandlerStorage.{
  NodeHandlerMap, HandlerStorage, has_topic, add_handler, get_handlers, get_handler,
  get_first_service_handler, remove_handler, remove_handlers_for_node,
}
use rf_trans_v.ServiceRuntime.Handler.{
  ReqHandler, RepHandler, Answered, run_callback, notify_result,
}

-- The frames of a request and of its answer, the routing id first.
pub record RemoteRequest : Type 0 where
  pub routing_id : String
  pub topic : String
  pub node_uuid : String
  pub req_uuid : String
  pub req_data : List ℕ
  pub req_type : String
  pub rep_type : String

pub record RemoteResponse : Type 0 where
  pub topic : String
  pub node_uuid : String
  pub req_uuid : String
  pub rep_data : List ℕ
  pub result_str : String

-- `V` is the type of the replies that a requester parses, `K` that of its callbacks.
pub record ServiceRuntime (V K : Type 0) : Type 0 where
  pub requester_connections : List String
  pub response_handlers : HandlerStorage RepHandler
  pub request_handlers : HandlerStorage (ReqHandler V K)
  pub request_queue : List RemoteRequest
  pub response_queue : List RemoteResponse

-- What the sockets are told: the addresses to connect to, and the requests.
pub record Told : Type 0 where
  pub connects : List String
  pub requests : List RemoteRequest

abbrev pub nothing : Told
nothing = record { connects = []; requests = [] }

abbrev same_types : String → String → ServicePublisherInfo → Bool
same_types req_type rep_type p = str_eq p.req_type_name req_type && str_eq p.rep_type_name rep_type

-- the loops of `sendPendingRequests` for a publisher of the types
unfoldable pub responder :
    String → String → ProcessMap ServicePublisherInfo → Option ServicePublisherInfo
responder req_type rep_type [] = none
responder req_type rep_type ((u, ps) ∷ addresses) =
    let rest = responder req_type rep_type addresses in
    elim (find_if (same_types req_type rep_type) ps) [ none ↦ rest | some p ↦ some p ]

-- the connection of the requester to an address
unfoldable pub connect_to : String → List String → List String × List String
connect_to addr connections =
    if any_of (str_eq addr) connections then (connections, []) else (addr ∷ connections, addr ∷ [])

module _ {V K : Type 0} where
  abbrev pub request_of :
      String → String → String → String → List ℕ → ReqHandler V K → RemoteRequest
  request_of socket_id topic node_uuid req_uuid bytes h = record {
    routing_id = socket_id;
    topic = topic;
    node_uuid = node_uuid;
    req_uuid = req_uuid;
    req_data = bytes;
    req_type = h.req_type_name;
    rep_type = h.rep_type_name;
  }

  -- one handler in the loops of `sendPendingRequests`, and the frames that it has sent
  unfoldable pub send_one :
      (RemoteRequest → Bool)
      → String
      → String
      → String
      → String
      → String
      → String
      → ReqHandler V K
      → ReqHandler V K × List RemoteRequest
  send_one takes socket_id topic req_type rep_type node_uuid req_uuid h =
      if h.requested
        || not (str_eq h.req_type_name req_type)
        || not (str_eq h.rep_type_name rep_type)
      then (h, [])
      else elim h.serialized [
        | none ↦ (h, [])
        | some bytes ↦
            let f = request_of socket_id topic node_uuid req_uuid bytes h in
            if takes f then (record h { requested = true }, f ∷ []) else (h, [])
      ]

  unfoldable pub send_node :
      (RemoteRequest → Bool)
      → String
      → String
      → String
      → String
      → String
      → Map (ReqHandler V K)
      → Map (ReqHandler V K) × List RemoteRequest
  unfolding send_one
  send_node takes socket_id topic req_type rep_type node_uuid [] = ([], [])
  send_node takes socket_id topic req_type rep_type node_uuid ((u, h) ∷ hs) =
      let (h1, out) = send_one takes socket_id topic req_type rep_type node_uuid u h in
      let (rest, more) = send_node takes socket_id topic req_type rep_type node_uuid hs in
      ((u, h1) ∷ rest, out ++ more)

  unfoldable pub send_nodes :
      (RemoteRequest → Bool)
      → String
      → String
      → String
      → String
      → NodeHandlerMap (ReqHandler V K)
      → NodeHandlerMap (ReqHandler V K) × List RemoteRequest
  unfolding send_node
  send_nodes takes socket_id topic req_type rep_type [] = ([], [])
  send_nodes takes socket_id topic req_type rep_type ((n, hs) ∷ nodes) =
      let (hs1, out) = send_node takes socket_id topic req_type rep_type n hs in
      let (rest, more) = send_nodes takes socket_id topic req_type rep_type nodes in
      ((n, hs1) ∷ rest, out ++ more)

  -- the handlers of a topic, after the responder is found
  unfoldable pub send_topic :
      (RemoteRequest → Bool)
      → String
      → String
      → String
      → String
      → HandlerStorage (ReqHandler V K)
      → HandlerStorage (ReqHandler V K) × List RemoteRequest
  unfolding get_handlers send_nodes assign
  send_topic takes socket_id topic req_type rep_type s = elim (get_handlers topic s) [
    | none ↦ (s, [])
    | some nodes ↦
        let (left, out) = send_nodes takes socket_id topic req_type rep_type nodes in
        (assign topic left s, out)
  ]

  -- `sendPendingRequests`, from what discovery knows of the topic
  unfoldable pub send_pending_requests :
      (RemoteRequest → Bool)
      → String
      → String
      → String
      → Option (ProcessMap ServicePublisherInfo)
      → ServiceRuntime V K
      → ServiceRuntime V K × Told
  unfolding responder connect_to send_topic
  send_pending_requests takes topic req_type rep_type known r = elim known [
    | none ↦ (r, nothing)
    | some addresses ↦ elim (responder req_type rep_type addresses) [
      | none ↦ (r, nothing)
      | some p ↦
          let (connections, added) = connect_to p.info.addr r.requester_connections in
          let (left, out) =
            send_topic takes p.socket_id topic req_type rep_type r.request_handlers in
          (
            record r { requester_connections = connections; request_handlers = left },
            record { connects = added; requests = out },
          )
    ]
  ]

  unfoldable pub on_service_connected :
      (RemoteRequest → Bool)
      → ServicePublisherInfo
      → Option (ProcessMap ServicePublisherInfo)
      → ServiceRuntime V K
      → ServiceRuntime V K × Told
  unfolding connect_to get_first_service_handler send_pending_requests
  on_service_connected takes p known r =
      let (connections, added) = connect_to p.info.addr r.requester_connections in
      let linked = record r { requester_connections = connections } in
      let first =
        get_first_service_handler (λ (h : ReqHandler V K). h.req_type_name) (λ h. h.rep_type_name)
          p.info.topic p.req_type_name p.rep_type_name r.request_handlers in
      let (after, told) =
        send_pending_requests takes p.info.topic p.req_type_name p.rep_type_name known linked in
      if is_some first
      then (after, record told { connects = added ++ told.connects })
      else (linked, record { connects = added; requests = [] })

  unfoldable pub on_service_disconnected :
      ServicePublisherInfo → ServiceRuntime V K → ServiceRuntime V K
  on_service_disconnected p r = record r {
    requester_connections = remove_if (str_eq p.info.addr) r.requester_connections;
  }
