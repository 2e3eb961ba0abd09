-- ===== src/Cli/Endpoints.antt =====
-- `snapshotMessageEndpoints` and `snapshotServiceEndpoints` of src/cli/discovery_observer.cc, and the filters of tools/rf_trans.cc.
use text.Mathlib.Text.{starts_with}
use rf_trans_v.Base.{
  ◌++◌, ℕ, String, Bool, not, ◌||◌, none, some, List, [], ◌∷◌, map, str_eq, if◌then◌else◌,
  remove_if,
}
use rf_trans_v.Options.{Scope, throttled}
use rf_trans_v.Info.Message.{MessagePublisherInfo}
use rf_trans_v.Info.Service.{ServicePublisherInfo}
use rf_trans_v.TopicStorage.{ProcessMap, TopicStorage, get_publishers, get_topic_list}

pub record MessageEndpointInfo : Type 0 where
  pub topic : String
  pub address : String
  pub control_id : String
  pub process_uuid : String
  pub process_name : String
  pub node_uuid : String
  pub message_type : String
  pub scope : Scope
  pub throttled : Bool
  pub messages_per_second : ℕ

unfoldable pub endpoint_of : MessagePublisherInfo → MessageEndpointInfo
unfolding throttled
endpoint_of p = record {
  topic = p.info.topic;
  address = p.info.addr;
  control_id = p.ctrl;
  process_uuid = p.info.process_uuid;
  process_name = p.info.process_name;
  node_uuid = p.info.node_uuid;
  message_type = p.msg_type;
  scope = p.msg_opts.scope;
  throttled = throttled p.msg_opts;
  messages_per_second = if throttled p.msg_opts then p.msg_opts.msgs_per_sec else 0;
}

unfoldable pub endpoints_of_topic : ProcessMap MessagePublisherInfo → List MessageEndpointInfo
unfolding endpoint_of
endpoints_of_topic [] = []
endpoints_of_topic ((u, ps) ∷ mp) = map endpoint_of ps ++ endpoints_of_topic mp

unfoldable pub endpoints_of :
    List String → TopicStorage MessagePublisherInfo → List MessageEndpointInfo
unfolding get_publishers endpoints_of_topic
endpoints_of [] s = []
endpoints_of (topic ∷ topics) s =
    elim (get_publishers topic s) [ none ↦ [] | some mp ↦ endpoints_of_topic mp ]
    ++ endpoints_of topics s

unfoldable pub snapshot_message_endpoints :
    TopicStorage MessagePublisherInfo → List MessageEndpointInfo
unfolding get_topic_list endpoints_of
snapshot_message_endpoints s = endpoints_of (get_topic_list s) s

pub record ServiceEndpointInfo : Type 0 where
  pub topic : String
  pub address : String
  pub socket_id : String
  pub process_uuid : String
  pub process_name : String
  pub node_uuid : String
  pub request_type : String
  pub response_type : String
  pub scope : Scope

unfoldable pub service_endpoint_of : ServicePublisherInfo → ServiceEndpointInfo
service_endpoint_of p = record {
  topic = p.info.topic;
  address = p.info.addr;
  socket_id = p.socket_id;
  process_uuid = p.info.process_uuid;
  process_name = p.info.process_name;
  node_uuid = p.info.node_uuid;
  request_type = p.req_type_name;
  response_type = p.rep_type_name;
  scope = p.srv_opts.scope;
}

unfoldable pub service_endpoints_of_topic :
    ProcessMap ServicePublisherInfo → List ServiceEndpointInfo
unfolding service_endpoint_of
service_endpoints_of_topic [] = []
service_endpoints_of_topic ((u, ps) ∷ mp) =
    map service_endpoint_of ps ++ service_endpoints_of_topic mp

unfoldable pub service_endpoints_of :
    List String → TopicStorage ServicePublisherInfo → List ServiceEndpointInfo
unfolding get_publishers service_endpoints_of_topic
service_endpoints_of [] s = []
service_endpoints_of (topic ∷ topics) s =
    elim (get_publishers topic s) [ none ↦ [] | some mp ↦ service_endpoints_of_topic mp ]
    ++ service_endpoints_of topics s

unfoldable pub snapshot_service_endpoints :
    TopicStorage ServicePublisherInfo → List ServiceEndpointInfo
unfolding get_topic_list service_endpoints_of
snapshot_service_endpoints s = service_endpoints_of (get_topic_list s) s

-- `startsWith`
abbrev pub has_prefix : String → String → Bool
has_prefix value prefix = str_eq prefix "" || starts_with value prefix

unfoldable pub filter_by_prefix : {E : Type 0} → (E → String) → String → List E → List E
filter_by_prefix topic_of prefix endpoints =
    remove_if (λ e. not (has_prefix (topic_of e) prefix)) endpoints

unfoldable pub filter_by_topic : {E : Type 0} → (E → String) → String → List E → List E
filter_by_topic topic_of topic endpoints =
    remove_if (λ e. not (str_eq (topic_of e) topic)) endpoints
