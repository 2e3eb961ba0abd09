-- ===== src/NodeShared/Examples.antt =====
-- A process with one node, and the theorems on what nodes share at it.
use rf_trans_v.Base.{
  ◌≡◌, ◌≢◌, eq_iff, refl, ℕ, String, Bool, true, false, Option, none, some, List, [], ◌∷◌, map,
  is_some, option_or,
}
use rf_trans_v.Wire.{Msg, MsgType}
use rf_trans_v.Info.Class.{message_pub, service_pub}
use rf_trans_v.TopicStorage.Stored.{stored}
use rf_trans_v.HandlerStorage.Contents.{handler_at}
use rf_trans_v.Discovery.Settings.{make_discovery}
use rf_trans_v.Node.{Node, SharedCall, destroy}
use rf_trans_v.MessageRuntime.Handler.{SubscriptionHandler}
use rf_trans_v.MessageRuntime.Publish.{Outlet}
use rf_trans_v.MessageRuntime.Process.{Process as MessageProcess, receive}
use rf_trans_v.ServiceRuntime.{RemoteRequest}
use rf_trans_v.ServiceRuntime.Process.{Process as ServiceProcess}
use rf_trans_v.NodeShared.{NodeShared, with_runtime, through}
use rf_trans_v.NodeShared.Calls.{perform_all}
use rf_trans_v.NodeShared.Lifetime.{
  Setup, new_messages, new_services, make_shared, destroy_shared, srv_discovery, sender,
  make_shared-cases, destroy_shared-bye,
}
use rf_trans_v.TopicStorage.Keeps.{nil-IsValid}
use rf_trans_v.MessageRuntime.{publisher_disconnected}
use rf_trans_v.NodeShared.Farewell.{destroy_shared-forgotten}
use rf_trans_v.NodeShared.Withdrawn.{destroy-withdrawn}

abbrev Shared : Type 0
Shared = NodeShared (List ℕ) String (List ℕ) String

abbrev outlet : Outlet (List ℕ) String
outlet = record {
  writers = [];
  memory = record { segments = []; linked = [] };
  local_publish_queue = [];
}

-- the replier's socket cannot be bound
abbrev half_bound : Setup
half_bound = record {
  process_uuid = "process1";
  process_name = "imu";
  host_addr = "10.0.0.1";
  replier_uuid = "replier1";
  message_address = some "tcp://10.0.0.1:5000";
  replier_address = none;
}

make_shared-cases_example :
    let s : Shared = make_shared half_bound outlet 0 in
    (is_some (through (λ p. p.started) s) ≡ true)
    × (option_or (through (λ p. p.started) s) false ≡ false)
    × (s.messages.started ≡ false)
    × (s.messages.discovery.enabled ≡ false)
    × ((srv_discovery s.services).enabled ≡ false)
make_shared-cases_example = make_shared-cases (List ℕ) String half_bound outlet 0

abbrev handler : SubscriptionHandler (List ℕ) String
handler = record {
  handler_uuid = "h1";
  node_uuid = "node1";
  msg_type = "msgs.Imu";
  parse = λ bytes. (bytes, true);
  cast = λ msg. some msg;
  cb = some "on_imu";
}

-- a process that runs, with a subscription of its node
abbrev messages : MessageProcess (List ℕ) String
messages = record (new_messages half_bound) {
  discovery = record (make_discovery "process1" "imu" "10.0.0.1") { enabled = true };
  links = record (new_messages {M = List ℕ} {K = String} half_bound).links {
    local_subscribers = ("/imu", ("node1", ("h1", handler) ∷ []) ∷ []) ∷ [];
  };
}

abbrev services : ServiceProcess (List ℕ) String
services = record (new_services half_bound) {
  discovery = record (make_discovery "process1" "imu" "10.0.0.1") { enabled = true };
}

abbrev shared : Shared
shared = record { messages = messages; outlet = outlet; services = with_runtime services }

abbrev node : Node
node = record {
  node_uuid = "node1";
  subscribed_topics = "/imu" ∷ [];
  advertised_topics = "/odom" ∷ [];
  advertised_srvs = [];
}

destroy_shared-bye_example :
    let (after, out) = destroy_shared shared in
    (after.messages.discovery.enabled ≡ false)
    × ((srv_discovery after.services).enabled ≡ false)
    × (after.messages.started ≡ false)
    × (map sender out ≡ (MsgType.bye, "process1") ∷ (MsgType.bye, "process1") ∷ [])
destroy_shared-bye_example = destroy_shared-bye shared

abbrev takes : RemoteRequest → Bool
takes f = true

abbrev register : SharedCall → Shared → Option Shared
register c s = some s

abbrev answers : SharedCall → Bool
answers c = true

destroy-withdrawn_example :
    (after : Shared) × (q : ServiceProcess (List ℕ) String) × (perform_all takes register "node1"
        (destroy answers node).1
        shared
      ≡ some after)
    × (after.services ≡ with_runtime q)
    × (handler_at "/imu" "node1" "h1" after.messages.links.local_subscribers ≡ none)
    × (stored "/imu" "node1" after.messages.discovery.known_publishers
        ≡ stored "/imu" "node1" messages.discovery.known_publishers)
    × (handler_at "/imu" "node1" "h1" q.runtime.response_handlers
        ≡ handler_at "/imu" "node1" "h1" services.runtime.response_handlers)
    × (stored "/imu" "node1" q.discovery.known_publishers
        ≡ stored "/imu" "node1" services.discovery.known_publishers)
destroy-withdrawn_example =
    destroy-withdrawn takes register answers node shared services "/imu" "node1" "h1" (λ t. refl)
      refl refl refl

-- another process, which has not heard of the first
abbrev peer : MessageProcess (List ℕ) String
peer = record (new_messages (record half_bound { process_uuid = "process2" })) {
  discovery = record (make_discovery "process2" "map" "10.0.0.2") {
    enabled = true;
    disconnection_cb = some publisher_disconnected;
  };
}

apart : shared.messages.discovery.process_uuid ≢ peer.discovery.process_uuid
apart h = cc ((eq_iff "process1" "process2").1 h)

destroy_shared-forgotten_example :
    (first : Msg) × (second : Msg) × ((destroy_shared shared).1 ≡ first ∷ second ∷ [])
    × (stored "/imu" "process1"
          (receive 9 "10.0.0.1" (some second) peer).0.discovery.known_publishers
        ≡ [])
    × (stored "/imu" "process1" (receive 9 "10.0.0.1" (some second) peer).0.links.remote_publishers
        ≡ [])
    × (stored "/imu" "process1" (receive 9 "10.0.0.1" (some second) peer).0.links.remote_subscribers
        ≡ [])
destroy_shared-forgotten_example =
    destroy_shared-forgotten 9 "10.0.0.1" "/imu" "process1" shared peer nil-IsValid nil-IsValid
      nil-IsValid refl apart
